-- ===== src/EvidenceStore/Sealing.antt =====
-- glassbox/app/sealer.py: what a purge leaves behind of the records that it removes.
use glassbox_agentic_governa.Prelude.{
  ℕ, ◌≡◌, refl, sym, ap, ◌∙◌, String, Option, none, some, List, [], ◌∷◌, length, leb, nat_beq, ◌+◌,
  ◌-◌, ◌⊎◌, inl, inr, Bool-cases, string_eq,
}
use glassbox_agentic_governa.Errors.{
  Result, Result-cases, ok, err, err≢ok, >>=-eq-ok, ◌>>=◌, ◌>>◌, require, evidence_integrity,
  domain_validation,
}
use glassbox_agentic_governa.Prelude.Text.{codes}
use glassbox_agentic_governa.Prelude.Dict.{lookup, insert}
use glassbox_agentic_governa.Serialization.{require_identifier, require_timestamp}
use glassbox_agentic_governa.Merkle.{Bytes, merkle_root}
use glassbox_agentic_governa.EvidenceStore.{MacSigner, genesis_prev_hash, on_mac}
use glassbox_agentic_governa.EvidenceStore.Reports.{
  WormAnchor, EvidenceSegment, make_anchor, require_mac, is_some,
}
use glassbox_agentic_governa.EvidenceStore.Store.{EvidenceStore, StoredRecord, get}
use glassbox_agentic_governa.EvidenceStore.Retention.{
  SegmentLeaf, segment_state, segment_leaves, mark_sealed, purge_before, purged_prefix, kept_suffix,
  seal_and_purge, purge_prefix, is_anchored,
}
use glassbox_agentic_governa.EvidenceStore.Sealer.{
  WormAnchorStore, macs_of, signed_anchor, anchor_of, covering_anchor, seal, purge, sealed_purge,
  on_put, on_covered, after_seal, is_contiguous, signing_payload,
}
use glassbox_agentic_governa.EvidenceStore.Provable.{Proves, Proves-leaves}

make_anchor-eq_ok : (a b : WormAnchor) → make_anchor a ≡ ok b → a ≡ b
unfolding make_anchor
make_anchor-eq_ok a b h =
    let (_, _, h1) = >>=-eq-ok (require_identifier (codes a.anchor_id) "anchor_id") _ h in
    let (_, _, h2) = >>=-eq-ok (require_identifier (codes a.segment_id) "segment_id") _ h1 in
    let (_, _, h3) = >>=-eq-ok (require_identifier (codes a.tenant_id) "tenant_id") _ h2 in
    let (_, _, h4) = >>=-eq-ok (require_mac a.merkle_root "merkle_root") _ h3 in
    let (_, _, h5) = >>=-eq-ok (require_mac a.root_signature "root_signature") _ h4 in
    let (_, _, h6) = >>=-eq-ok (require_identifier (codes a.signer_key_id) "signer_key_id") _ h5 in
    let (_, _, h7) = >>=-eq-ok (require_timestamp a.sealed_at "sealed_at") _ h6 in
    let (_, _, h8) =
      >>=-eq-ok (require (leb a.first_seq a.last_seq) (domain_validation "last_seq")) _ h7 in
    let (_, _, h9) =
      >>=-eq-ok
        (require (nat_beq a.tree_size (a.last_seq - a.first_seq + 1))
          (domain_validation "tree_size"))
        _ h8 in
    cc

-- The segments as they were, or without the prefix below a number in one of them.
abbrev pub PurgedFrom : String → ℕ → EvidenceStore → EvidenceStore → Type 0
PurgedFrom g n s after = after.segments ≡ insert g (kept_suffix n (get [] g s.segments)) s.segments

pub mark_sealed-segments :
    (g : String) (anchor : WormAnchor) (locator : String) (s : EvidenceStore)
    → (mark_sealed g anchor locator s).1.segments ≡ s.segments
unfolding mark_sealed
mark_sealed-segments g anchor locator s = elim (Bool-cases (is_some (lookup g s.segments))) [
  | inl there ↦ rw there refl
  | inr missing ↦ rw missing refl
]

purge_prefix-segments :
    (g : String) (xs kept : List StoredRecord) (s : EvidenceStore)
    → ((purge_prefix g xs kept s).1.segments ≡ s.segments)
      ⊎ ((purge_prefix g xs kept s).1.segments ≡ insert g kept s.segments)
unfolding purge_prefix
purge_prefix-segments g [] kept s = inl refl
purge_prefix-segments g (x ∷ xs) kept s = inr refl

pub purge_before-segments :
    (g : String) (n : ℕ) (s : EvidenceStore)
    → ((purge_before g n s).1.segments ≡ s.segments) ⊎ PurgedFrom g n s (purge_before g n s).1
unfolding purge_before seal_and_purge
purge_before-segments g n s = elim (Bool-cases (is_anchored n (lookup g s.worm_anchors))) [
  | inr loose ↦ rw loose (inl refl)
  | inl anchored ↦ rw anchored (
      purge_prefix-segments g (purged_prefix n (get [] g s.segments))
        (kept_suffix n (get [] g s.segments)) s)
]

module _ (sha256 : Bytes → Bytes) (decimal : ℕ → String)
    (canonical : String → String → String → Bytes → ℕ → ℕ → ℕ → ℕ → Bytes) where
  signed_anchor-root :
      (signer : MacSigner) (g : String) (now : ℕ) (state : Option EvidenceSegment)
      (leaves : List SegmentLeaf) (anchor : WormAnchor)
      → signed_anchor sha256 decimal canonical signer g now state leaves ≡ ok anchor
      → anchor.merkle_root ≡ merkle_root sha256 (macs_of leaves)
  unfolding signed_anchor anchor_of
  signed_anchor-root signer g now none leaves anchor h = absurd (err≢ok h)
  signed_anchor-root signer g now (some state) [] anchor h = absurd (err≢ok h)
  signed_anchor-root signer g now (some state) (first ∷ rest) anchor h =
      let (_, _, h1) =
        >>=-eq-ok (require (is_contiguous first.seq (first ∷ rest)) evidence_integrity) _ h in
      let (unsigned, _, h2) =
        >>=-eq-ok
          (make_anchor (
            anchor_of sha256 decimal canonical g state.tenant_id first rest now genesis_prev_hash
              "pending"))
          _ h1 in
      let (signature, _, h3) =
        >>=-eq-ok (on_mac (signer.mac (signing_payload sha256 decimal canonical unsigned))) _ h2 in
      ap (λ a. a.merkle_root)
        (sym (
          make_anchor-eq_ok
            (anchor_of sha256 decimal canonical g state.tenant_id first rest now signature
              signer.key_id)
            anchor h3))

  module _ {W : Type 0} (anchors : WormAnchorStore W) where
    pub on_covered-segments :
        (g : String) (n : ℕ) (s : EvidenceStore) (w : W) (covering : Result (Option WormAnchor))
        → let after = (on_covered sha256 decimal canonical anchors g n s w covering).1 in
          (after.segments ≡ s.segments) ⊎ PurgedFrom g n s after
    on_covered-segments g n s w (err e) = inl refl
    on_covered-segments g n s w (ok none) = inl refl
    on_covered-segments g n s w (ok (some anchor)) = purge_before-segments g n s

    after_seal-segments :
        (signer : MacSigner) (g : String) (n : ℕ) (s : EvidenceStore) (w : W)
        (sealed : Result WormAnchor)
        → let after = (after_seal sha256 decimal canonical anchors signer g n (sealed, s, w)).1 in
          (after.segments ≡ s.segments) ⊎ PurgedFrom g n s after
    unfolding purge
    after_seal-segments signer g n s w (err e) = inl refl
    after_seal-segments signer g n s w (ok anchor) =
        on_covered-segments g n s w
          (anchors.list_for_segment g w >>= covering_anchor sha256 decimal canonical signer n)

    -- What the anchor of a purge attests, and where it was put before anything was removed.
    abbrev pub Attested : String → ℕ → EvidenceStore → W → Type 0
    Attested g n s w =
        (anchor : WormAnchor) × (locator : String) × ((anchors.put anchor w).0 ≡ ok locator)
        × Proves sha256 anchor (purged_prefix n (get [] g s.segments))

    module _ (digest_length : (m : Bytes) → length (sha256 m) ≡ 32) where
      put-Attested :
          (signer : MacSigner) (g : String) (n : ℕ) (s : EvidenceStore) (w : W)
          (anchor : WormAnchor) (leaves : List SegmentLeaf) (put : Result String × W)
          → anchors.put anchor w ≡ put
          → segment_leaves g (some n) s ≡ ok leaves
          → anchor.merkle_root ≡ merkle_root sha256 (macs_of leaves)
          → let after =
              (after_seal sha256 decimal canonical anchors signer g n
                (on_put sha256 decimal canonical anchors g anchor s put)).1 in
            (after.segments ≡ s.segments) ⊎ (PurgedFrom g n s after × Attested g n s w)
      put-Attested signer g n s w anchor leaves (err e, moved) stored read rooted = inl refl
      put-Attested signer g n s w anchor leaves (ok locator, moved) stored read rooted =
          let (marked, told) = mark_sealed g anchor locator s in
          let same : told.segments ≡ s.segments = mark_sealed-segments g anchor locator s in
          elim (after_seal-segments signer g n told moved (marked >> ok anchor)) [
            | inl kept ↦ inl (kept ∙ same)
            | inr gone ↦ inr (
              gone ∙ ap (λ m. insert g (kept_suffix n (get [] g m)) m) same,
              (
                anchor,
                locator,
                ap (λ p. p.0) stored,
                Proves-leaves sha256 digest_length anchor g n s leaves read rooted,
              ),
            )
          ]

      -- Whatever the ports answer and wherever it stops, a seal and purge removes nothing or only
      -- records that stay provable: the segments are as before, or the prefix of the segment below
      -- the given number is gone, an anchor had been put in the write-once storage before, and some
      -- leaves have the root of that anchor, for which every removed record has an inclusion proof
      -- that is built and that verifies the record's MAC against the root.
      pub sealed_purge-Attested :
          (signer : MacSigner) (g : String) (n now : ℕ) (s : EvidenceStore) (w : W)
          → let after = (sealed_purge sha256 decimal canonical anchors signer g n now s w).1 in
            (after.segments ≡ s.segments) ⊎ (PurgedFrom g n s after × Attested g n s w)
      unfolding sealed_purge seal
      sealed_purge-Attested signer g n now s w = elim (Result-cases (segment_state g s)) [
        | inl (e, raised) ↦ rw (raised, sealed_purge, seal) (inl refl)
        | inr (state, found) ↦ elim (Result-cases (segment_leaves g (some n) s)) [
          | inl (e, raised) ↦ rw (found, sealed_purge, seal, raised) (inl refl)
          | inr (leaves, read) ↦
              elim (Result-cases
                (signed_anchor sha256 decimal canonical signer g now state leaves)) [
                  | inl (e, raised) ↦ rw (found, sealed_purge, seal, read, raised) (inl refl)
                  | inr (anchor, signed) ↦
                      rw (found, sealed_purge, seal, read, signed)
                        (put-Attested signer g n s w anchor leaves (anchors.put anchor w) refl read
                          (signed_anchor-root signer g now state leaves anchor signed))
                ]
        ]
      ]
