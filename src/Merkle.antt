-- ===== src/Merkle.antt =====
-- glassbox/domain/merkle.py: RFC 6962 Merkle trees over evidence leaves and their inclusion
-- proofs. Bytes are lists of numbers. SHA-256 is a parameter; what is needed of it is that a
-- digest has 32 bytes. The recursions on slices take the number of leaves as fuel, and
-- Merkle/Split shows that this is enough.
pub mod Split
pub mod Inclusion
pub mod Binding
pub mod Soundness
pub mod Tests
use glassbox_agentic_governa.Prelude.{
  ℕ, zero, suc, ◌+◌, ◌-◌, ◌/◌, ◌^◌, Bool, true, false, ◌||◌, Option, none, some, List, [], ◌∷◌,
  ◌++◌, map, reverse, length, get_elem?, take, drop, any, ltb, ◌==◌, nat_eq, not, if◌then◌else◌,
}
use glassbox_agentic_governa.Prelude.Text.{codes_beq}

abbrev pub Bytes : Type 0
Bytes = List ℕ

-- A sibling hash, and whether it stands on the left.
abbrev pub ProofPath : Type 0
ProofPath = List (Bytes × Bool)

pub record MerkleProof : Type 0 where
  pub index : ℕ
  pub tree_size : ℕ
  pub path : ProofPath

pub data MerkleError : Type 0 where
  empty_tree index_outside bad_sibling tree_size_not_positive : MerkleError

pub data Checked {ℓ} (A : Type ℓ) : Type ℓ where
  ok : A → Checked A
  err : MerkleError → Checked A

-- `n.bit_length()`; the fuel is the number itself.
unfoldable pub bit_length_loop : ℕ → ℕ → ℕ
bit_length_loop zero n = 0
bit_length_loop (suc f) n = let rest = bit_length_loop f (n / 2) in if n == 0 then 0 else suc rest

pub bit_length : ℕ → ℕ
unfolding bit_length_loop
bit_length n = bit_length_loop n n

pub largest_power_of_two_below : ℕ → ℕ
largest_power_of_two_below count = 2 ^ (bit_length (count - 1) - 1)

module _ (sha256 : Bytes → Bytes) where
  pub empty_root : Bytes
  empty_root = sha256 []

  pub leaf_hash : Bytes → Bytes
  leaf_hash leaf = sha256 (0 ∷ leaf)

  pub node_hash : Bytes → Bytes → Bytes
  node_hash left right = sha256 (1 ∷ left ++ right)

  pub root_loop : ℕ → List Bytes → Bytes
  root_loop fuel [] = empty_root
  root_loop fuel (h ∷ []) = h
  root_loop zero (h ∷ k ∷ hs) = empty_root
  root_loop (suc fuel) (h ∷ k ∷ hs) =
      let split = largest_power_of_two_below (length (h ∷ k ∷ hs)) in
      node_hash (root_loop fuel (take split (h ∷ k ∷ hs)))
        (root_loop fuel (drop split (h ∷ k ∷ hs)))

  pub root_of_hashes : List Bytes → Bytes
  root_of_hashes hashes = root_loop (length hashes) hashes

  pub merkle_root : List Bytes → Bytes
  merkle_root leaves = root_of_hashes (map leaf_hash leaves)

  -- One step of the walk upwards.
  pub join_sibling : Bytes → Bytes × Bool → Bytes
  join_sibling computed (sibling, true) = node_hash sibling computed
  join_sibling computed (sibling, false) = node_hash computed sibling

  pub walk_up : Bytes → ProofPath → Bytes
  walk_up computed [] = computed
  walk_up computed (s ∷ path) = walk_up (join_sibling computed s) path

  -- MerkleProof.verify
  pub verify : MerkleProof → Bytes → Bytes → Bool
  verify proof leaf root = codes_beq (walk_up (leaf_hash leaf) proof.path) root

  -- The siblings from the root downwards.
  pub descend_loop : ℕ → List Bytes → ℕ → ProofPath
  descend_loop fuel [] target = []
  descend_loop fuel (h ∷ []) target = []
  descend_loop zero (h ∷ k ∷ hs) target = []
  descend_loop (suc fuel) (h ∷ k ∷ hs) target =
      let split = largest_power_of_two_below (length (h ∷ k ∷ hs)) in
      let left =
        (root_of_hashes (drop split (h ∷ k ∷ hs)), false)
        ∷ descend_loop fuel (take split (h ∷ k ∷ hs)) target in
      let right =
        (root_of_hashes (take split (h ∷ k ∷ hs)), true)
        ∷ descend_loop fuel (drop split (h ∷ k ∷ hs)) (target - split) in
      if ltb target split then left else right

  pub descend : List Bytes → ℕ → ProofPath
  descend hashes target = descend_loop (length hashes) hashes target

-- MerkleProof.__post_init__
pub make_proof : ℕ → ℕ → ProofPath → Checked MerkleProof
make_proof index tree_size path =
    if tree_size == 0
    then err tree_size_not_positive
    else if not (ltb index tree_size)
    then err index_outside
    else if any (λ s. not (length (s.0) == 32)) path
    then err bad_sibling
    else ok (record { index = index; tree_size = tree_size; path = path })

pub build_inclusion_proof : (Bytes → Bytes) → List Bytes → ℕ → Checked MerkleProof
build_inclusion_proof sha256 [] index = err empty_tree
build_inclusion_proof sha256 (l ∷ leaves) index =
    if not (ltb index (length (l ∷ leaves)))
    then err index_outside
    else make_proof index (length (l ∷ leaves))
        (reverse (descend sha256 (map (leaf_hash sha256) (l ∷ leaves)) index))
