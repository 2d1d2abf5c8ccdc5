-- ===== src/Merkle/Inclusion.antt =====
-- glassbox/domain/merkle.py: every leaf of a tree has an inclusion proof, and it verifies.
use glassbox_agentic_governa.Prelude.{
  ℕ, zero, suc, ◌-◌, ◌≤◌, ◌<◌, ◌≡◌, refl, ap, ◌∙◌, List, [], ◌∷◌, ◌++◌, map, reverse, Bool, true,
  false, length, take, drop, get_elem?, any, All, get_elem?-take, get_elem?-drop, arith, ◌==◌,
  nat_eq, ltb, if◌then◌else◌, Bool-cases, inl, inr, some, not, any-append, nat_beq, is_empty,
}
use mathlib.Core.List.{reverse-cons}
use glassbox_agentic_governa.Prelude.Text.{codes_beq_iff}
use glassbox_agentic_governa.Merkle.{
  Bytes, ProofPath, MerkleProof, ok, err, largest_power_of_two_below, leaf_hash, node_hash,
  root_of_hashes, merkle_root, empty_root, join_sibling, walk_up, verify, descend, make_proof,
  build_inclusion_proof, root_loop, descend_loop, index_outside, empty_tree,
}
use glassbox_agentic_governa.Merkle.Split.{
  split_induction, root_of_hashes-split, descend-one, descend-split,
}

get_elem?-lt : {A : Type 0} (xs : List A) (i : ℕ) {x : A} → get_elem? xs i ≡ some x → i < length xs
get_elem?-lt [] i e = cc
get_elem?-lt (x ∷ xs) zero e = omega arith
get_elem?-lt (x ∷ xs) (suc i) e = omega (arith, get_elem?-lt xs i e)

get_elem?-map :
    {A B : Type 0} (f : A → B) (xs : List A) (i : ℕ) {x : A}
    → get_elem? xs i ≡ some x
    → get_elem? (map f xs) i ≡ some (f x)
get_elem?-map f [] i e = cc
get_elem?-map f (x ∷ xs) zero e = cc
get_elem?-map f (x ∷ xs) (suc i) e = get_elem?-map f xs i e

pub length-map : {A B : Type 0} (f : A → B) (xs : List A) → length (map f xs) ≡ length xs
length-map f [] = refl
length-map f (x ∷ xs) = ap suc (length-map f xs)

All-take : {A : Type 0} (P : A → Type 0) (n : ℕ) (xs : List A) → All P xs → All P (take n xs)
All-take P zero xs h = tt
All-take P (suc n) [] h = tt
All-take P (suc n) (x ∷ xs) h = (h.0, All-take P n xs h.1)

All-drop : {A : Type 0} (P : A → Type 0) (n : ℕ) (xs : List A) → All P xs → All P (drop n xs)
All-drop P zero xs h = h
All-drop P (suc n) [] h = tt
All-drop P (suc n) (x ∷ xs) h = All-drop P n xs h.1

pub any-reverse : {A : Type 0} (p : A → Bool) (xs : List A) → any p (reverse xs) ≡ any p xs
any-reverse p [] = refl
any-reverse p (x ∷ xs) =
    rw (reverse-cons x xs, any-append p (reverse xs) (x ∷ [])) (ground (arith, any-reverse p xs))

abbrev pub bad_sibling_test : Bytes × Bool → Bool
bad_sibling_test s = not (length s.0 == 32)

abbrev Is32 : Bytes → Type 0
Is32 h = length h ≡ 32

module _ (sha256 : Bytes → Bytes) where
  -- The walk upwards, over a path that is written from the root down.
  unfoldable pub climb : Bytes → ProofPath → Bytes
  climb h [] = h
  climb h (s ∷ path) = join_sibling sha256 (climb h path) s

  walk_up-append :
      (h : Bytes) (p : ProofPath) (s : Bytes × Bool)
      → walk_up sha256 h (p ++ s ∷ []) ≡ join_sibling sha256 (walk_up sha256 h p) s
  unfolding walk_up
  walk_up-append h [] s = refl
  walk_up-append h (t ∷ p) s = walk_up-append (join_sibling sha256 h t) p s

  pub walk_up-reverse : (h : Bytes) (p : ProofPath) → walk_up sha256 h (reverse p) ≡ climb h p
  unfolding climb
  walk_up-reverse h [] = unfold walk_up in refl
  walk_up-reverse h (s ∷ p) =
      rw (reverse-cons s p, walk_up-append h (reverse p) s)
        (ap (λ r. join_sibling sha256 r s) (walk_up-reverse h p))

  abbrev Climbs : List Bytes → Type 0
  Climbs hs =
      (i : ℕ) (h : Bytes)
      → get_elem? hs i ≡ some h
      → climb h (descend sha256 hs i) ≡ root_of_hashes sha256 hs

  Climbs-split :
      (x y : Bytes) (hs : List Bytes)
      → Climbs (take (largest_power_of_two_below (length (x ∷ y ∷ hs))) (x ∷ y ∷ hs))
      → Climbs (drop (largest_power_of_two_below (length (x ∷ y ∷ hs))) (x ∷ y ∷ hs))
      → Climbs (x ∷ y ∷ hs)
  unfolding climb join_sibling
  Climbs-split x y hs left right i h e =
      let all = x ∷ y ∷ hs in
      let s = largest_power_of_two_below (length all) in
      elim (Bool-cases (ltb i s)) [
        | inl lo ↦
            rw (root_of_hashes-split sha256 x y hs, descend-split sha256 x y hs i, lo)
              (ap (λ r. node_hash sha256 r (root_of_hashes sha256 (drop s all)))
                (left i h (get_elem?-take s i all (ground arith) ∙ e)))
        | inr hi ↦
            rw (root_of_hashes-split sha256 x y hs, descend-split sha256 x y hs i, hi)
              (ap (node_hash sha256 (root_of_hashes sha256 (take s all))) (
                right (i - s) h
                  (get_elem?-drop s (i - s) all ∙ ap (get_elem? all) (ground arith) ∙ e)))
      ]

  Climbs-one : (x : Bytes) → Climbs (x ∷ [])
  unfolding climb root_of_hashes root_loop
  Climbs-one x zero h e = rw (descend-one sha256 x zero) (cc)
  Climbs-one x (suc i) h e = cc

  climb-descend : (hs : List Bytes) → Climbs hs
  climb-descend = split_induction Climbs (λ i h e. cc) Climbs-one Climbs-split

module _ (sha256 : Bytes → Bytes) (digest_length : (m : Bytes) → length (sha256 m) ≡ 32) where
  abbrev Is32-root : List Bytes → Type 0
  Is32-root hs = All Is32 hs → Is32 (root_of_hashes sha256 hs)

  root_of_hashes-Is32 : (hs : List Bytes) → Is32-root hs
  unfolding root_of_hashes root_loop empty_root node_hash
  root_of_hashes-Is32 [] a = digest_length []
  root_of_hashes-Is32 (h ∷ []) a = a.0
  root_of_hashes-Is32 (h ∷ k ∷ hs) a = digest_length _

  abbrev GoodPath : List Bytes → Type 0
  GoodPath hs = (i : ℕ) → All Is32 hs → any bad_sibling_test (descend sha256 hs i) ≡ false

  not_bad : (h : Bytes) (b : Bool) → Is32 h → bad_sibling_test (h, b) ≡ false
  not_bad h b e = rw e refl

  GoodPath-split :
      (x y : Bytes) (hs : List Bytes)
      → GoodPath (take (largest_power_of_two_below (length (x ∷ y ∷ hs))) (x ∷ y ∷ hs))
      → GoodPath (drop (largest_power_of_two_below (length (x ∷ y ∷ hs))) (x ∷ y ∷ hs))
      → GoodPath (x ∷ y ∷ hs)
  GoodPath-split x y hs left right i a =
      let all = x ∷ y ∷ hs in
      let s = largest_power_of_two_below (length all) in
      let la = All-take Is32 s all a in
      let ra = All-drop Is32 s all a in
      elim (Bool-cases (ltb i s)) [
        | inl lo ↦
            rw (descend-split sha256 x y hs i, lo, not_bad _ false (root_of_hashes-Is32 _ ra))
              (left i la)
        | inr hi ↦
            rw (descend-split sha256 x y hs i, hi, not_bad _ true (root_of_hashes-Is32 _ la))
              (right (i - s) ra)
      ]

  descend-GoodPath : (hs : List Bytes) → GoodPath hs
  unfolding descend descend_loop
  descend-GoodPath = split_induction GoodPath (λ i a. refl) (λ x i a. refl) GoodPath-split

  leaf_hashes-Is32 : (leaves : List Bytes) → All Is32 (map (leaf_hash sha256) leaves)
  unfolding leaf_hash
  leaf_hashes-Is32 [] = tt
  leaf_hashes-Is32 (l ∷ leaves) = (digest_length _, leaf_hashes-Is32 leaves)

  -- The proof that is built for a position inside the sequence.
  abbrev pub inclusion_proof : List Bytes → ℕ → MerkleProof
  inclusion_proof leaves i = record {
    index = i;
    tree_size = length leaves;
    path = reverse (descend sha256 (map (leaf_hash sha256) leaves) i);
  }

  -- The constructor accepts that path under any position inside the sequence.
  pub make-eq-ok :
      (leaves : List Bytes) (i j : ℕ)
      → j < length leaves
      → make_proof j (length leaves) (inclusion_proof leaves i).path
        ≡ ok (record (inclusion_proof leaves i) { index = j })
  unfolding make_proof
  make-eq-ok leaves i j h =
      let path = descend sha256 (map (leaf_hash sha256) leaves) i in
      let nonempty : nat_beq (length leaves) 0 ≡ false = ground arith in
      let inside : ltb j (length leaves) ≡ true = ground arith in
      let good : any bad_sibling_test (reverse path) ≡ false =
        any-reverse bad_sibling_test path ∙ descend-GoodPath _ i (leaf_hashes-Is32 leaves) in
      rw (nonempty, inside, good) refl

  build-eq-ok :
      (leaves : List Bytes) (i : ℕ)
      → i < length leaves
      → build_inclusion_proof sha256 leaves i ≡ ok (inclusion_proof leaves i)
  unfolding build_inclusion_proof
  build-eq-ok [] i h = elim h [ ]
  build-eq-ok (l ∷ leaves) i h =
      let inside : ltb i (suc (length leaves)) ≡ true = ground arith in
      rw inside (make-eq-ok (l ∷ leaves) i i h)

  pub inclusion_proof-verifies :
      (leaves : List Bytes) (i : ℕ) (leaf : Bytes)
      → get_elem? leaves i ≡ some leaf
      → verify sha256 (inclusion_proof leaves i) leaf (merkle_root sha256 leaves) ≡ true
  unfolding verify merkle_root
  inclusion_proof-verifies leaves i leaf e = (codes_beq_iff _ _).1 (
      walk_up-reverse sha256 _ _
      ∙ climb-descend sha256 _ i _ (get_elem?-map (leaf_hash sha256) leaves i e))

  -- For every position inside the sequence a proof is built, for that position and size, and it
  -- verifies the leaf at that position against the root of the sequence.
  pub build-verify :
      (leaves : List Bytes) (i : ℕ) (leaf : Bytes)
      → get_elem? leaves i ≡ some leaf
      → (p : MerkleProof) × (build_inclusion_proof sha256 leaves i ≡ ok p)
        × (p.index ≡ i)
        × (p.tree_size ≡ length leaves)
        × (verify sha256 p leaf (merkle_root sha256 leaves) ≡ true)
  build-verify leaves i leaf e = (
    inclusion_proof leaves i,
    build-eq-ok leaves i (get_elem?-lt leaves i e),
    refl,
    refl,
    inclusion_proof-verifies leaves i leaf e,
  )

  -- The proof of the leaf at position i, with its position changed to any other j inside the
  -- sequence, is still accepted by the constructor and still verifies the leaf: `verify` does not
  -- read the position.
  pub verify-other_index :
      (leaves : List Bytes) (i j : ℕ) (leaf : Bytes)
      → get_elem? leaves i ≡ some leaf
      → j < length leaves
      → (p q : MerkleProof) × (build_inclusion_proof sha256 leaves i ≡ ok p)
        × (make_proof j (length leaves) p.path ≡ ok q)
        × (q.index ≡ j)
        × (verify sha256 q leaf (merkle_root sha256 leaves) ≡ true)
  unfolding verify
  verify-other_index leaves i j leaf e inside = (
    inclusion_proof leaves i,
    record (inclusion_proof leaves i) { index = j },
    build-eq-ok leaves i (get_elem?-lt leaves i e),
    make-eq-ok leaves i j inside,
    refl,
    inclusion_proof-verifies leaves i leaf e,
  )

-- A position outside the sequence has no proof: the error says whether the sequence is empty.
pub build-outside :
    (sha256 : Bytes → Bytes) (leaves : List Bytes) (i : ℕ)
    → length leaves ≤ i
    → build_inclusion_proof sha256 leaves i
      ≡ err (if is_empty leaves then empty_tree else index_outside)
unfolding build_inclusion_proof
build-outside sha256 [] i h = refl
build-outside sha256 (l ∷ leaves) i h =
    let outside : ltb i (suc (length leaves)) ≡ false = ground arith in rw outside refl
