-- ===== src/Merkle/Tests.antt =====
-- glassbox/domain/merkle.py at concrete inputs, with a stand-in for SHA-256 that pads to 32 bytes.
use glassbox_agentic_governa.Prelude.{
  ℕ, ◌≡◌, refl, List, [], ◌∷◌, ◌++◌, true, take, length, length-take, length-append, get_elem?,
  some, arith, ◌⊎◌,
}
use glassbox_agentic_governa.Merkle.{
  Bytes, MerkleProof, ok, build_inclusion_proof, make_proof, verify, merkle_root,
  largest_power_of_two_below, bit_length,
}
use glassbox_agentic_governa.Merkle.Inclusion.{
  build-verify, verify-other_index, inclusion_proof, make-eq-ok, inclusion_proof-verifies,
}
use glassbox_agentic_governa.Merkle.Binding.{Collision, merkle_root-injective}
use glassbox_agentic_governa.Merkle.Soundness.{verify_sound}

abbrev zeros : ℕ → Bytes
zeros ℕ.zero = []
zeros (ℕ.suc n) = 0 ∷ zeros n

abbrev pad : Bytes → Bytes
pad m = take 32 (m ++ zeros 32)

pad-length : (m : Bytes) → length (pad m) ≡ 32
pad-length m = length-take 32 (m ++ zeros 32) (omega (arith, length-append m (zeros 32)))

abbrev three : List Bytes
three = (5 ∷ []) ∷ (6 ∷ []) ∷ (7 ∷ []) ∷ []

split_five : largest_power_of_two_below 5 ≡ 4
split_five = unfold largest_power_of_two_below bit_length in refl

build-verify_example :
    (p : MerkleProof) × (build_inclusion_proof pad three 2 ≡ ok p)
    × (p.index ≡ 2)
    × (p.tree_size ≡ length three)
    × (verify pad p (7 ∷ []) (merkle_root pad three) ≡ true)
build-verify_example = build-verify pad pad-length three 2 (7 ∷ []) refl

verify-other_index_example :
    (p q : MerkleProof) × (build_inclusion_proof pad three 0 ≡ ok p)
    × (make_proof 2 (length three) p.path ≡ ok q)
    × (q.index ≡ 2)
    × (verify pad q (5 ∷ []) (merkle_root pad three) ≡ true)
verify-other_index_example = verify-other_index pad pad-length three 0 2 (5 ∷ []) refl (omega arith)

merkle_root-injective_example : (three ≡ three) ⊎ Collision pad
merkle_root-injective_example = merkle_root-injective pad pad-length three three refl

verify_sound_example : ((j : ℕ) × (get_elem? three j ≡ some (7 ∷ []))) ⊎ Collision pad
verify_sound_example =
    verify_sound pad pad-length three (7 ∷ []) 2 3 (inclusion_proof pad pad-length three 2).path
      (inclusion_proof pad pad-length three 2) (make-eq-ok pad pad-length three 2 2 (omega arith))
      (inclusion_proof-verifies pad pad-length three 2 (7 ∷ []) refl)
