-- ===== src/EvidenceStore/Provable.antt =====
-- glassbox/app/sealer.py: the records of a sealed range have inclusion proofs under its root.
use glassbox_agentic_governa.Prelude.{
  All-map, ℕ, ◌≡◌, sym, ap, ◌∙◌, String, true, some, List, [], ◌∷◌, map, keep, length, ltb, All,
  string_eq,
}
use mathlib.Core.Path.{subst}
use glassbox_agentic_governa.Errors.{ok, >>=-eq-ok}
use glassbox_agentic_governa.Merkle.{Bytes, MerkleProof, build_inclusion_proof, merkle_root, verify}
use glassbox_agentic_governa.Merkle.{ok as proof_ok}
use glassbox_agentic_governa.Merkle.Inclusion.{build-verify}
use glassbox_agentic_governa.EvidenceStore.Reports.{WormAnchor, require_mac}
use glassbox_agentic_governa.EvidenceStore.Store.{EvidenceStore, StoredRecord, get}
use glassbox_agentic_governa.EvidenceStore.Retention.{
  SegmentLeaf, segment_leaves, make_leaves, purged_prefix, leaf_of, sort_by_seq, is_below,
}
use glassbox_agentic_governa.EvidenceStore.Leaves.{
  Occurs, Occurs-map, Occurs-keep, Occurs-sort_by_seq, purged_prefix-Occurs,
}
use glassbox_agentic_governa.EvidenceStore.Sealer.{macs_of}

module _ (sha256 : Bytes → Bytes) where
  -- Some leaves have the root of the anchor, and of each of the records a proof over them is built
  -- that verifies its MAC against that root.
  abbrev pub Proves : WormAnchor → List StoredRecord → Type 0
  Proves anchor records =
      (leaves : List Bytes) × (anchor.merkle_root ≡ merkle_root sha256 leaves)
      × All
          (λ x.
            (i : ℕ) × (p : MerkleProof) × (build_inclusion_proof sha256 leaves i ≡ proof_ok p)
            × (verify sha256 p x.record_hmac anchor.merkle_root ≡ true))
          records

-- The leaves are the records below the bound, in order.
make_leaves-eq_ok :
    (xs : List StoredRecord) (leaves : List SegmentLeaf)
    → make_leaves xs ≡ ok leaves
    → map leaf_of xs ≡ leaves
unfolding make_leaves
make_leaves-eq_ok [] leaves h = cc
make_leaves-eq_ok (x ∷ xs) leaves h =
    let (_, _, h1) = >>=-eq-ok (require_mac x.record_hmac "record_hmac") _ h in
    let (rest, made, h2) = >>=-eq-ok (make_leaves xs) (λ ls. ok (leaf_of x ∷ ls)) h1 in
    let same = make_leaves-eq_ok xs rest made in
    let whole : leaf_of x ∷ rest ≡ leaves = cc in ap (λ ls. leaf_of x ∷ ls) same ∙ whole

leaves-Occurs :
    (g : String) (n : ℕ) (s : EvidenceStore) (leaves : List SegmentLeaf)
    → segment_leaves g (some n) s ≡ ok leaves
    → All (λ x. Occurs x.record_hmac (macs_of leaves)) (purged_prefix n (get [] g s.segments))
unfolding segment_leaves
leaves-Occurs g n s leaves read =
    let segment = get [] g s.segments in
    let kept = keep (is_below (some n)) (sort_by_seq segment) in
    let same : map leaf_of kept ≡ leaves = make_leaves-eq_ok kept leaves read in
    All-map (λ x. (ltb x.seq n ≡ true) × Occurs x segment)
      (λ x. Occurs x.record_hmac (macs_of leaves))
      (λ x h.
        subst (λ ls. Occurs x.record_hmac (macs_of ls)) same
          (Occurs-map (λ l. l.record_hmac) (leaf_of x) (map leaf_of kept)
            (Occurs-map leaf_of x kept (
              Occurs-keep (is_below (some n)) x (sort_by_seq segment) h.0
                (Occurs-sort_by_seq x segment h.1)))))
      (purged_prefix n segment) (purged_prefix-Occurs n segment)

module _ (sha256 : Bytes → Bytes) (digest_length : (m : Bytes) → length (sha256 m) ≡ 32) where
  pub Proves-leaves :
      (anchor : WormAnchor) (g : String) (n : ℕ) (s : EvidenceStore) (read : List SegmentLeaf)
      → segment_leaves g (some n) s ≡ ok read
      → anchor.merkle_root ≡ merkle_root sha256 (macs_of read)
      → Proves sha256 anchor (purged_prefix n (get [] g s.segments))
  Proves-leaves anchor g n s read there rooted =
      let leaves = macs_of read in
      (
        leaves,
        rooted,
        All-map (λ x. Occurs x.record_hmac leaves)
            (λ x.
              (i : ℕ) × (p : MerkleProof) × (build_inclusion_proof sha256 leaves i ≡ proof_ok p)
              × (verify sha256 p x.record_hmac anchor.merkle_root ≡ true))
            (λ x h.
              let (p, built, _, _, verifies) =
                build-verify sha256 digest_length leaves h.0 x.record_hmac h.1 in
              (
                h.0,
                p,
                built,
                subst (λ r. verify sha256 p x.record_hmac r ≡ true) (sym rooted) verifies,
              ))
            (purged_prefix n (get [] g s.segments)) (leaves-Occurs g n s read there),
      )
