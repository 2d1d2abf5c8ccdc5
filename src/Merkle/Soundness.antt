-- ===== src/Merkle/Soundness.antt =====
-- glassbox/domain/merkle.py: a proof that verifies against the root of a sequence is about a leaf
-- of that sequence, unless a collision of SHA-256 is at hand.
use glassbox_agentic_governa.Prelude.{
  ℕ, zero, suc, ◌≡◌, sym, ap, ◌∙◌, List, [], ◌∷◌, reverse, Bool, true, false, length, take, drop,
  get_elem?, any, arith, nat_eq, inl, inr, ◌⊎◌, some,
}
use mathlib.Core.List.{reverse-reverse}
use glassbox_agentic_governa.Prelude.Text.{codes_beq_iff}
use glassbox_agentic_governa.Merkle.{
  Bytes, ProofPath, MerkleProof, ok, leaf_hash, node_hash, merkle_root, join_sibling, walk_up,
  verify, make_proof,
}
use glassbox_agentic_governa.Merkle.Split.{split_induction}
use glassbox_agentic_governa.Merkle.Inclusion.{
  climb, walk_up-reverse, any-reverse, bad_sibling_test,
}
use glassbox_agentic_governa.Merkle.Binding
use glassbox_agentic_governa.Merkle.Binding.{Collision, split_of}

module _ (sha256 : Bytes → Bytes) (digest_length : (m : Bytes) → length (sha256 m) ≡ 32) where
  abbrev root : List Bytes → Bytes
  root = Binding.root sha256 digest_length

  abbrev Holds : Bytes → List Bytes → Type 0
  Holds leaf ls = (i : ℕ) × (get_elem? ls i ≡ some leaf)

  Holds-take :
      (leaf : Bytes) (n i : ℕ) (ls : List Bytes)
      → get_elem? (take n ls) i ≡ some leaf
      → get_elem? ls i ≡ some leaf
  Holds-take leaf zero i ls e = cc
  Holds-take leaf (suc n) i [] e = cc
  Holds-take leaf (suc n) zero (x ∷ ls) e = e
  Holds-take leaf (suc n) (suc i) (x ∷ ls) e = Holds-take leaf n i ls e

  Holds-drop : (leaf : Bytes) (n : ℕ) (ls : List Bytes) → Holds leaf (drop n ls) → Holds leaf ls
  Holds-drop leaf zero ls h = h
  Holds-drop leaf (suc n) [] h = h
  Holds-drop leaf (suc n) (x ∷ ls) h = let (i, e) = Holds-drop leaf n ls h in (suc i, e)

  abbrev Sound : Bytes → List Bytes → Type 0
  Sound leaf ls =
      (path : ProofPath)
      → any bad_sibling_test path ≡ false
      → climb sha256 (leaf_hash sha256 leaf) path ≡ root ls
      → Holds leaf ls ⊎ Collision sha256

  Sound-empty : (leaf : Bytes) → Sound leaf []
  unfolding climb join_sibling
  Sound-empty leaf [] good e = inr (
      Binding.empty-ne-leaf sha256 digest_length leaf
        (sym (Binding.root-empty sha256 digest_length) ∙ sym e))
  Sound-empty leaf ((s, true) ∷ path) good e = inr (
      Binding.empty-ne-node sha256 digest_length _ _
        (sym (Binding.root-empty sha256 digest_length) ∙ sym e))
  Sound-empty leaf ((s, false) ∷ path) good e = inr (
      Binding.empty-ne-node sha256 digest_length _ _
        (sym (Binding.root-empty sha256 digest_length) ∙ sym e))

  Sound-one : (leaf x : Bytes) → Sound leaf (x ∷ [])
  unfolding climb join_sibling
  Sound-one leaf x [] good e =
      elim (Binding.leaf-injective sha256 digest_length leaf x
        (e ∙ Binding.root-one sha256 digest_length x)) [
          | inl same ↦ inl (0, cc)
          | inr found ↦ inr found
        ]
  Sound-one leaf x ((s, true) ∷ path) good e = inr (
      Binding.leaf-ne-node sha256 digest_length x _ _
        (sym (Binding.root-one sha256 digest_length x) ∙ sym e))
  Sound-one leaf x ((s, false) ∷ path) good e = inr (
      Binding.leaf-ne-node sha256 digest_length x _ _
        (sym (Binding.root-one sha256 digest_length x) ∙ sym e))

  good-head :
      (s : Bytes) (b : Bool) (path : ProofPath)
      → any bad_sibling_test ((s, b) ∷ path) ≡ false
      → (length s ≡ 32) × (any bad_sibling_test path ≡ false)
  good-head s b path h = ground arith

  climb-length :
      (leaf : Bytes) (path : ProofPath) → length (climb sha256 (leaf_hash sha256 leaf) path) ≡ 32
  unfolding climb join_sibling leaf_hash node_hash
  climb-length leaf [] = digest_length _
  climb-length leaf ((s, true) ∷ path) = digest_length _
  climb-length leaf ((s, false) ∷ path) = digest_length _

  Sound-split :
      (leaf x y : Bytes) (ls : List Bytes)
      → Sound leaf (take (split_of (x ∷ y ∷ ls)) (x ∷ y ∷ ls))
      → Sound leaf (drop (split_of (x ∷ y ∷ ls)) (x ∷ y ∷ ls))
      → Sound leaf (x ∷ y ∷ ls)
  unfolding climb join_sibling
  Sound-split leaf x y ls left right [] good e = inr (
      Binding.leaf-ne-node sha256 digest_length leaf _ _
        (e ∙ Binding.root-split sha256 digest_length x y ls))
  Sound-split leaf x y ls left right ((s, true) ∷ path) good e =
      let g = good-head s true path good in
      elim (Binding.node-injective sha256 digest_length _ _ _ _
        (g.0
          ∙ sym (
              Binding.root-length sha256 digest_length (take (split_of (x ∷ y ∷ ls)) (x ∷ y ∷ ls))))
        (e ∙ Binding.root-split sha256 digest_length x y ls)) [
          | inl (a, b) ↦ elim (right path g.1 b) [
            | inl found ↦ inl (Holds-drop leaf _ (x ∷ y ∷ ls) found)
            | inr found ↦ inr found
          ]
          | inr found ↦ inr found
        ]
  Sound-split leaf x y ls left right ((s, false) ∷ path) good e =
      let g = good-head s false path good in
      elim (Binding.node-injective sha256 digest_length _ _ _ _
        (climb-length leaf path
          ∙ sym (
              Binding.root-length sha256 digest_length (take (split_of (x ∷ y ∷ ls)) (x ∷ y ∷ ls))))
        (e ∙ Binding.root-split sha256 digest_length x y ls)) [
          | inl (a, b) ↦ elim (left path g.1 a) [
            | inl (i, found) ↦ inl (i, Holds-take leaf _ i (x ∷ y ∷ ls) found)
            | inr found ↦ inr found
          ]
          | inr found ↦ inr found
        ]

  climb-Sound : (leaf : Bytes) (ls : List Bytes) → Sound leaf ls
  climb-Sound leaf =
      split_induction (Sound leaf) (Sound-empty leaf) (Sound-one leaf) (Sound-split leaf)

  -- Whatever proof the constructor accepts, if it verifies a leaf against the root of a sequence,
  -- the leaf is in the sequence, or a collision of SHA-256 is at hand.
  pub verify_sound :
      (ls : List Bytes) (leaf : Bytes) (i n : ℕ) (path : ProofPath) (p : MerkleProof)
      → make_proof i n path ≡ ok p
      → verify sha256 p leaf (merkle_root sha256 ls) ≡ true
      → ((j : ℕ) × (get_elem? ls j ≡ some leaf)) ⊎ Collision sha256
  unfolding verify make_proof
  verify_sound ls leaf i n path p made v =
      let walked = (codes_beq_iff (walk_up sha256 (leaf_hash sha256 leaf) p.path) _).0 v in
      let same : p.path ≡ path = ground arith in
      let good : any bad_sibling_test path ≡ false = ground arith in
      climb-Sound leaf ls (reverse path) (any-reverse bad_sibling_test path ∙ good) (
        sym (walk_up-reverse sha256 _ (reverse path))
        ∙ ap (walk_up sha256 (leaf_hash sha256 leaf)) (reverse-reverse path ∙ sym same)
        ∙ walked)
