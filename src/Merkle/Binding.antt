-- ===== src/Merkle/Binding.antt =====
-- glassbox/domain/merkle.py: what a root and a verified proof commit to. Where the code relies on
-- SHA-256 having no known collision, the theorems give the alternative as data: two different
-- texts with one digest.
use glassbox_agentic_governa.Prelude.{
  ℕ, zero, suc, ◌≡◌, ◌≢◌, refl, sym, ap, ◌∙◌, List, [], ◌∷◌, ◌++◌, map, length, take, drop,
  take-append-drop, arith, nat_eq, Bool-cases, inl, inr, ◌⊎◌,
}
use mathlib.Core.Path.{ap₂}
use glassbox_agentic_governa.Prelude.Text.{codes_beq, codes_beq_iff}
use glassbox_agentic_governa.Merkle.{
  Bytes, largest_power_of_two_below, leaf_hash, node_hash, root_of_hashes, merkle_root, empty_root,
  root_loop,
}
use glassbox_agentic_governa.Merkle.Split.{split_induction, root_of_hashes-split}
use glassbox_agentic_governa.Merkle.Inclusion.{length-map}

-- Two different texts with one digest.
pub data Collision (sha256 : Bytes → Bytes) : Type 0 where
  collision : (x y : Bytes) → x ≢ y → sha256 x ≡ sha256 y → Collision sha256

pub append-injective :
    {A : Type 0} (xs ys us vs : List A)
    → length xs ≡ length ys
    → xs ++ us ≡ ys ++ vs
    → (xs ≡ ys) × (us ≡ vs)
append-injective [] [] us vs l e = (refl, e)
append-injective [] (y ∷ ys) us vs l e = absurd (omega arith)
append-injective (x ∷ xs) [] us vs l e = absurd (omega arith)
append-injective (x ∷ xs) (y ∷ ys) us vs l e =
    let rest = append-injective xs ys us vs (omega arith) (cc) in (cc rest.0, rest.1)

pub codes-dec : (x y : Bytes) → (x ≡ y) ⊎ (x ≢ y)
codes-dec x y = elim (Bool-cases (codes_beq x y)) [
  | inl e ↦ inl ((codes_beq_iff x y).0 e)
  | inr n ↦ inr (λ e. cc ((codes_beq_iff x y).1 e))
]

map-take : {A B : Type 0} (f : A → B) (n : ℕ) (xs : List A) → map f (take n xs) ≡ take n (map f xs)
map-take f zero xs = refl
map-take f (suc n) [] = refl
map-take f (suc n) (x ∷ xs) = ap (λ r. f x ∷ r) (map-take f n xs)

map-drop : {A B : Type 0} (f : A → B) (n : ℕ) (xs : List A) → map f (drop n xs) ≡ drop n (map f xs)
map-drop f zero xs = refl
map-drop f (suc n) [] = refl
map-drop f (suc n) (x ∷ xs) = map-drop f n xs

abbrev pub split_of : {A : Type 0} → List A → ℕ
split_of xs = largest_power_of_two_below (length xs)

module _ (sha256 : Bytes → Bytes) (digest_length : (m : Bytes) → length (sha256 m) ≡ 32) where
  -- One digest has one preimage, or there is a collision.
  digest-injective : (x y : Bytes) → sha256 x ≡ sha256 y → (x ≡ y) ⊎ Collision sha256
  digest-injective x y e = elim (codes-dec x y) [
    | inl same ↦ inl same
    | inr differ ↦ inr (collision x y differ e)
  ]

  abbrev pub root : List Bytes → Bytes
  root ls = merkle_root sha256 ls

  pub root-split :
      (x y : Bytes) (ls : List Bytes)
      → root (x ∷ y ∷ ls)
        ≡ node_hash sha256
            (root (take (split_of (x ∷ y ∷ ls)) (x ∷ y ∷ ls)))
            (root (drop (split_of (x ∷ y ∷ ls)) (x ∷ y ∷ ls)))
  unfolding merkle_root
  root-split x y ls =
      let f = leaf_hash sha256 in
      rw
        (
          root_of_hashes-split sha256 (f x) (f y) (map f ls),
          length-map f ls,
          map-take f,
          map-drop f,
        )
        refl

  pub root-length : (ls : List Bytes) → length (root ls) ≡ 32
  unfolding merkle_root root_of_hashes root_loop empty_root leaf_hash node_hash
  root-length [] = digest_length _
  root-length (x ∷ []) = digest_length _
  root-length (x ∷ y ∷ ls) = digest_length _

  pub node-injective :
      (a b c d : Bytes)
      → length a ≡ length c
      → node_hash sha256 a b ≡ node_hash sha256 c d
      → ((a ≡ c) × (b ≡ d)) ⊎ Collision sha256
  unfolding node_hash
  node-injective a b c d l e = elim (digest-injective (1 ∷ a ++ b) (1 ∷ c ++ d) e) [
    | inl same ↦ inl (append-injective a c b d l (cc))
    | inr found ↦ inr found
  ]

  pub leaf-injective :
      (x y : Bytes) → leaf_hash sha256 x ≡ leaf_hash sha256 y → (x ≡ y) ⊎ Collision sha256
  unfolding leaf_hash
  leaf-injective x y e = elim (digest-injective (0 ∷ x) (0 ∷ y) e) [
    | inl same ↦ inl (cc)
    | inr found ↦ inr found
  ]

  -- The prefixes keep the three kinds of hash apart.
  pub leaf-ne-node : (x a b : Bytes) → leaf_hash sha256 x ≡ node_hash sha256 a b → Collision sha256
  unfolding leaf_hash node_hash
  leaf-ne-node x a b e = collision (0 ∷ x) (1 ∷ a ++ b) (λ h. ground arith) e

  pub empty-ne-leaf : (x : Bytes) → empty_root sha256 ≡ leaf_hash sha256 x → Collision sha256
  unfolding leaf_hash empty_root
  empty-ne-leaf x e = collision [] (0 ∷ x) (λ h. cc) e

  pub empty-ne-node : (a b : Bytes) → empty_root sha256 ≡ node_hash sha256 a b → Collision sha256
  unfolding node_hash empty_root
  empty-ne-node a b e = collision [] (1 ∷ a ++ b) (λ h. cc) e

  pub root-empty : root [] ≡ empty_root sha256
  unfolding merkle_root root_of_hashes root_loop
  root-empty = refl

  pub root-one : (x : Bytes) → root (x ∷ []) ≡ leaf_hash sha256 x
  unfolding merkle_root root_of_hashes root_loop
  root-one x = refl

  abbrev Binds : List Bytes → Type 0
  Binds ls = (ms : List Bytes) → root ls ≡ root ms → (ls ≡ ms) ⊎ Collision sha256

  Binds-empty : Binds []
  Binds-empty [] e = inl refl
  Binds-empty (y ∷ []) e = inr (empty-ne-leaf y (cc (root-empty, root-one y)))
  Binds-empty (y ∷ z ∷ ms) e = inr (empty-ne-node _ _ (sym root-empty ∙ e ∙ root-split y z ms))

  Binds-one : (x : Bytes) → Binds (x ∷ [])
  Binds-one x [] e = inr (empty-ne-leaf x (cc (root-empty, root-one x)))
  Binds-one x (y ∷ []) e = elim (leaf-injective x y (cc (root-one x, root-one y))) [
    | inl same ↦ inl (cc)
    | inr found ↦ inr found
  ]
  Binds-one x (y ∷ z ∷ ms) e = inr (leaf-ne-node x _ _ (sym (root-one x) ∙ e ∙ root-split y z ms))

  rejoin : (k n : ℕ) (ls ms : List Bytes) → take k ls ≡ take n ms → drop k ls ≡ drop n ms → ls ≡ ms
  rejoin k n ls ms a b = sym (take-append-drop k ls) ∙ ap₂ ◌++◌ a b ∙ take-append-drop n ms

  Binds-split :
      (x y : Bytes) (ls : List Bytes)
      → Binds (take (split_of (x ∷ y ∷ ls)) (x ∷ y ∷ ls))
      → Binds (drop (split_of (x ∷ y ∷ ls)) (x ∷ y ∷ ls))
      → Binds (x ∷ y ∷ ls)
  Binds-split x y ls left right [] e =
      inr (empty-ne-node _ _ (sym root-empty ∙ sym e ∙ root-split x y ls))
  Binds-split x y ls left right (z ∷ []) e =
      inr (leaf-ne-node z _ _ (sym (root-one z) ∙ sym e ∙ root-split x y ls))
  Binds-split x y ls left right (z ∷ w ∷ ms) e =
      let k = split_of (x ∷ y ∷ ls) in
      let n = split_of (z ∷ w ∷ ms) in
      elim (node-injective _ _ _ _
        (root-length (take k (x ∷ y ∷ ls)) ∙ sym (root-length (take n (z ∷ w ∷ ms))))
        (sym (root-split x y ls) ∙ e ∙ root-split z w ms)) [
          | inl (a, b) ↦ elim (left _ a) [
            | inl la ↦ elim (right _ b) [
              | inl rb ↦ inl (rejoin k n (x ∷ y ∷ ls) (z ∷ w ∷ ms) la rb)
              | inr found ↦ inr found
            ]
            | inr found ↦ inr found
          ]
          | inr found ↦ inr found
        ]

  -- Two sequences with one root are the same sequence, order and length included, or a collision
  -- of SHA-256 is at hand.
  pub merkle_root-injective :
      (ls ms : List Bytes)
      → merkle_root sha256 ls ≡ merkle_root sha256 ms
      → (ls ≡ ms) ⊎ Collision sha256
  merkle_root-injective = split_induction Binds Binds-empty Binds-one Binds-split
