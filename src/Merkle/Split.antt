-- ===== src/Merkle/Split.antt =====
-- glassbox/domain/merkle.py: the split point of a tree, and what follows for the recursions on
-- slices: the fuel is enough, and a property of trees is proved along the splits.
use glassbox_agentic_governa.Prelude.{
  ℕ, zero, suc, ◌-◌, ◌*◌, ◌/◌, ◌^◌, ◌≤◌, ◌<◌, ◌≡◌, refl, List, [], ◌∷◌, length, take, drop,
  length-take, length-drop, arith, nat_eq, ltb, if◌then◌else◌, true, false,
}
use native.Mathlib.Nat.{one-le-pow}
use native.Mathlib.Numerals.{unary_clauses}
use mathlib.Core.Path.{ap₂}
use glassbox_agentic_governa.Merkle.{
  Bytes, bit_length_loop, bit_length, largest_power_of_two_below, node_hash, root_loop,
  root_of_hashes, descend_loop, descend,
}

abbrev HasBitLength : ℕ → ℕ → Type 0
HasBitLength n b = (0 < b) × (2 ^ (b - 1) ≤ n) × (n < 2 * 2 ^ (b - 1))

pow-double : (b : ℕ) → 2 ^ (suc (suc b) - 1) ≡ 2 * 2 ^ (suc b - 1)
pow-double b = simp unary_clauses (omega arith)

HasBitLength-double : (n b : ℕ) → HasBitLength (n / 2) b → HasBitLength n (suc b)
HasBitLength-double n zero h = absurd (omega arith)
HasBitLength-double n (suc b) h =
    (omega arith, omega (arith, pow-double b), omega (arith, pow-double b))

-- With enough fuel the bit length is exact.
bit_length_loop-HasBitLength : (f n : ℕ) → n ≤ f → 0 < n → HasBitLength n (bit_length_loop f n)
unfolding bit_length_loop
bit_length_loop-HasBitLength zero n h p = absurd (omega arith)
bit_length_loop-HasBitLength (suc f) zero h p = elim p [ ]
bit_length_loop-HasBitLength (suc zero) (suc zero) h p = omega arith
bit_length_loop-HasBitLength (suc (suc f)) (suc zero) h p = omega arith
bit_length_loop-HasBitLength (suc f) (suc (suc n)) h p =
    let e : bit_length_loop (suc f) (suc (suc n)) ≡ suc (bit_length_loop f (suc (suc n) / 2)) =
      ground arith in
    rw e (
      HasBitLength-double (suc (suc n)) _
        (bit_length_loop-HasBitLength f (suc (suc n) / 2) (omega arith) (omega arith)))

-- The split point is the largest power of two strictly below the number of leaves.
pub split_bounds :
    (count : ℕ)
    → 2 ≤ count
    → (1 ≤ largest_power_of_two_below count)
      × (largest_power_of_two_below count < count)
      × (count ≤ 2 * largest_power_of_two_below count)
unfolding largest_power_of_two_below bit_length
split_bounds count h =
    let b = bit_length_loop-HasBitLength (count - 1) (count - 1) (omega arith) (omega arith) in
    (one-le-pow _ 2 (omega arith), omega arith, omega arith)

pub length-take_split :
    {A : Type 0} (xs : List A)
    → 2 ≤ length xs
    → length (take (largest_power_of_two_below (length xs)) xs)
      ≡ largest_power_of_two_below (length xs)
length-take_split xs h = length-take _ xs (omega (arith, split_bounds (length xs) h))

-- Induction along the splits.
module _ {A : Type 0} (P : List A → Type 0) (empty : P []) (one : (x : A) → P (x ∷ []))
    (split : (x y : A) (xs : List A)
      → P (take (largest_power_of_two_below (length (x ∷ y ∷ xs))) (x ∷ y ∷ xs))
      → P (drop (largest_power_of_two_below (length (x ∷ y ∷ xs))) (x ∷ y ∷ xs))
      → P (x ∷ y ∷ xs)) where
  split_induction_below : (f : ℕ) (xs : List A) → length xs ≤ f → P xs
  split_induction_below f [] h = empty
  split_induction_below f (x ∷ []) h = one x
  split_induction_below zero (x ∷ y ∷ xs) h = absurd (omega arith)
  split_induction_below (suc f) (x ∷ y ∷ xs) h =
      let s = largest_power_of_two_below (length (x ∷ y ∷ xs)) in
      let b = split_bounds (length (x ∷ y ∷ xs)) (omega arith) in
      split x y xs
        (split_induction_below f (take s (x ∷ y ∷ xs)) (omega (arith, length-take s (x ∷ y ∷ xs))))
        (split_induction_below f (drop s (x ∷ y ∷ xs)) (omega (arith, length-drop s (x ∷ y ∷ xs))))

  pub split_induction : (xs : List A) → P xs
  split_induction xs = split_induction_below (length xs) xs (omega arith)

module _ (sha256 : Bytes → Bytes) where
  root_loop-enough :
      (f g : ℕ) (hs : List Bytes)
      → length hs ≤ f
      → length hs ≤ g
      → root_loop sha256 f hs ≡ root_loop sha256 g hs
  unfolding root_loop
  root_loop-enough f g [] p q = refl
  root_loop-enough f g (h ∷ []) p q = refl
  root_loop-enough zero g (h ∷ k ∷ hs) p q = absurd (omega arith)
  root_loop-enough (suc f) zero (h ∷ k ∷ hs) p q = absurd (omega arith)
  root_loop-enough (suc f) (suc g) (h ∷ k ∷ hs) p q =
      let s = largest_power_of_two_below (length (h ∷ k ∷ hs)) in
      let b = split_bounds (length (h ∷ k ∷ hs)) (omega arith) in
      let l = length-take s (h ∷ k ∷ hs) (omega arith) in
      let r = length-drop s (h ∷ k ∷ hs) in
      ap₂ (node_hash sha256)
        (root_loop-enough f g (take s (h ∷ k ∷ hs)) (omega arith) (omega arith))
        (root_loop-enough f g (drop s (h ∷ k ∷ hs)) (omega arith) (omega arith))

  -- The fuel drops out: the root of two or more leaves joins the roots of the two parts.
  pub root_of_hashes-split :
      (h k : Bytes) (hs : List Bytes)
      → root_of_hashes sha256 (h ∷ k ∷ hs)
        ≡ node_hash sha256
            (root_of_hashes sha256
              (take (largest_power_of_two_below (length (h ∷ k ∷ hs))) (h ∷ k ∷ hs)))
            (root_of_hashes sha256
              (drop (largest_power_of_two_below (length (h ∷ k ∷ hs))) (h ∷ k ∷ hs)))
  unfolding root_of_hashes root_loop
  root_of_hashes-split h k hs =
      let s = largest_power_of_two_below (length (h ∷ k ∷ hs)) in
      let b = split_bounds (length (h ∷ k ∷ hs)) (omega arith) in
      let l = length-take s (h ∷ k ∷ hs) (omega arith) in
      let r = length-drop s (h ∷ k ∷ hs) in
      ap₂ (node_hash sha256)
        (root_loop-enough (suc (length hs)) (length (take s (h ∷ k ∷ hs))) (take s (h ∷ k ∷ hs))
          (omega arith) (omega arith))
        (root_loop-enough (suc (length hs)) (length (drop s (h ∷ k ∷ hs))) (drop s (h ∷ k ∷ hs))
          (omega arith) (omega arith))

  descend_loop-enough :
      (f g : ℕ) (hs : List Bytes) (i : ℕ)
      → length hs ≤ f
      → length hs ≤ g
      → descend_loop sha256 f hs i ≡ descend_loop sha256 g hs i
  unfolding descend_loop
  descend_loop-enough f g [] i p q = refl
  descend_loop-enough f g (h ∷ []) i p q = refl
  descend_loop-enough zero g (h ∷ k ∷ hs) i p q = absurd (omega arith)
  descend_loop-enough (suc f) zero (h ∷ k ∷ hs) i p q = absurd (omega arith)
  descend_loop-enough (suc f) (suc g) (h ∷ k ∷ hs) i p q =
      let s = largest_power_of_two_below (length (h ∷ k ∷ hs)) in
      let b = split_bounds (length (h ∷ k ∷ hs)) (omega arith) in
      let l = length-take s (h ∷ k ∷ hs) (omega arith) in
      let r = length-drop s (h ∷ k ∷ hs) in
      rw (
        descend_loop-enough f g (take s (h ∷ k ∷ hs)) i (omega arith) (omega arith),
        descend_loop-enough f g (drop s (h ∷ k ∷ hs)) (i - s) (omega arith) (omega arith),
      )

  pub descend-one : (h : Bytes) (i : ℕ) → descend sha256 (h ∷ []) i ≡ []
  unfolding descend descend_loop
  descend-one h i = refl

  -- The proof of a leaf in the left part starts with the right part's root, and the other way.
  pub descend-split :
      (h k : Bytes) (hs : List Bytes) (i : ℕ)
      → descend sha256 (h ∷ k ∷ hs) i ≡ (
          let s = largest_power_of_two_below (length (h ∷ k ∷ hs)) in
          if ltb i s
          then (root_of_hashes sha256 (drop s (h ∷ k ∷ hs)), false)
            ∷ descend sha256 (take s (h ∷ k ∷ hs)) i
          else (root_of_hashes sha256 (take s (h ∷ k ∷ hs)), true)
            ∷ descend sha256 (drop s (h ∷ k ∷ hs)) (i - s))
  unfolding descend descend_loop
  descend-split h k hs i =
      let s = largest_power_of_two_below (length (h ∷ k ∷ hs)) in
      let b = split_bounds (length (h ∷ k ∷ hs)) (omega arith) in
      let l = length-take s (h ∷ k ∷ hs) (omega arith) in
      let r = length-drop s (h ∷ k ∷ hs) in
      rw (
        descend_loop-enough (suc (length hs)) (length (take s (h ∷ k ∷ hs))) (take s (h ∷ k ∷ hs)) i
            (omega arith) (omega arith),
        descend_loop-enough (suc (length hs)) (length (drop s (h ∷ k ∷ hs))) (drop s (h ∷ k ∷ hs))
            (i - s) (omega arith) (omega arith),
      )
