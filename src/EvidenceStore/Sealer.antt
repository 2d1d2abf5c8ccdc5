-- ===== src/EvidenceStore/Sealer.antt =====
-- glassbox/app/sealer.py: SegmentSealer, which seals a prefix of a segment and purges it, over the
-- in-memory evidence store as its retention port. The write-once storage is a port with a state of
-- its own. SHA-256, decimal texts and the canonical bytes of an anchor are parameters.
use glassbox_agentic_governa.Prelude.{
  ℕ, ◌+◌, String, Bool, true, false, ◌&&◌, Option, none, some, List, [], ◌∷◌, length, map,
  if◌then◌else◌, nat_beq,
}
use Prim.Native.String.{◌++◌ as string_append}
use glassbox_agentic_governa.Errors.{
  Result, ok, err, evidence_write, evidence_integrity, ◌>>=◌, ◌>>◌, require, is_signing_unavailable,
}
use glassbox_agentic_governa.Merkle.{Bytes, merkle_root}
use glassbox_agentic_governa.EvidenceStore.{MacSigner, genesis_prev_hash, on_mac}
use glassbox_agentic_governa.EvidenceStore.Reports.{WormAnchor, EvidenceSegment, make_anchor}
use glassbox_agentic_governa.EvidenceStore.Store.{EvidenceStore}
use glassbox_agentic_governa.EvidenceStore.Retention.{
  SegmentLeaf, segment_state, segment_leaves, mark_sealed, purge_before,
}

-- WormAnchorStore of glassbox/ports/retention.py
pub record WormAnchorStore (W : Type 0) : Type 0 where
  pub put : WormAnchor → W → Result String × W
  pub list_for_segment : String → W → Result (List WormAnchor)

-- _require_contiguous
unfoldable pub is_contiguous : ℕ → List SegmentLeaf → Bool
is_contiguous expected [] = true
is_contiguous expected (l ∷ ls) = nat_beq l.seq expected && is_contiguous (expected + 1) ls

-- `leaves[-1].seq`
unfoldable pub last_seq_of : ℕ → List SegmentLeaf → ℕ
last_seq_of otherwise [] = otherwise
last_seq_of otherwise (l ∷ ls) = last_seq_of l.seq ls

abbrev pub macs_of : List SegmentLeaf → List Bytes
macs_of = map (λ l. l.record_hmac)

module _ (sha256 : Bytes → Bytes) (decimal : ℕ → String)
    (canonical : String → String → String → Bytes → ℕ → ℕ → ℕ → ℕ → Bytes) where
  -- WormAnchor.signing_payload
  unfoldable pub signing_payload : WormAnchor → Bytes
  signing_payload a =
      canonical a.anchor_id a.segment_id a.tenant_id a.merkle_root a.tree_size a.first_seq
        a.last_seq a.sealed_at

  -- The anchor of the leaves, with a signature and the key that made it.
  unfoldable pub anchor_of :
      String → String → SegmentLeaf → List SegmentLeaf → ℕ → Bytes → String → WormAnchor
  anchor_of segment_id tenant_id first rest now signature key_id =
      let last_seq = last_seq_of first.seq rest in
      record {
        anchor_id = string_append segment_id (
            string_append ":"
              (string_append (decimal first.seq) (string_append "-" (decimal last_seq))));
        segment_id = segment_id;
        tenant_id = tenant_id;
        merkle_root = merkle_root sha256 (macs_of (first ∷ rest));
        tree_size = length (first ∷ rest);
        first_seq = first.seq;
        last_seq = last_seq;
        sealed_at = now;
        root_signature = signature;
        signer_key_id = key_id;
      }

  -- The anchor that seal stores. _unsigned_anchor is the anchor with a placeholder.
  unfoldable pub signed_anchor :
      MacSigner → String → ℕ → Option EvidenceSegment → List SegmentLeaf → Result WormAnchor
  signed_anchor signer segment_id now none leaves = err evidence_write
  signed_anchor signer segment_id now (some state) [] = err evidence_write
  signed_anchor signer segment_id now (some state) (first ∷ rest) = do
    require (is_contiguous first.seq (first ∷ rest)) evidence_integrity
    unsigned ←
        make_anchor
          (anchor_of segment_id state.tenant_id first rest now genesis_prev_hash "pending")
    signature ← on_mac (signer.mac (signing_payload unsigned))
    make_anchor (anchor_of segment_id state.tenant_id first rest now signature signer.key_id)

  -- verify_anchor
  unfoldable pub on_signature : Result Bool → Result Bool
  on_signature (ok authentic) = ok authentic
  on_signature (err e) = if is_signing_unavailable e then err evidence_integrity else err e

  unfoldable pub verify_anchor : MacSigner → WormAnchor → Result Bool
  verify_anchor signer anchor =
      on_signature
        (signer.verify_mac (signing_payload anchor) anchor.root_signature anchor.signer_key_id)

  abbrev pub on_verified :
      WormAnchor → Result (Option WormAnchor) → Result Bool → Result (Option WormAnchor)
  on_verified anchor rest (err e) = err e
  on_verified anchor rest (ok true) = ok (some anchor)
  on_verified anchor rest (ok false) = rest

  -- covering_anchor
  unfoldable pub covering_anchor : MacSigner → ℕ → List WormAnchor → Result (Option WormAnchor)
  covering_anchor signer before_seq [] = ok none
  covering_anchor signer before_seq (anchor ∷ anchors) =
      let rest = covering_anchor signer before_seq anchors in
      if nat_beq (anchor.last_seq + 1) before_seq
      then on_verified anchor rest (verify_anchor signer anchor)
      else rest

  module _ {W : Type 0} (anchors : WormAnchorStore W) where
    -- The anchor is made durable, then the store is told.
    abbrev pub on_put :
        String
        → WormAnchor
        → EvidenceStore
        → Result String × W
        → Result WormAnchor × EvidenceStore × W
    on_put segment_id anchor s (err e, w) = (err e, s, w)
    on_put segment_id anchor s (ok locator, w) =
        let (marked, after) = mark_sealed segment_id anchor locator s in
        (marked >> ok anchor, after, w)

    abbrev pub on_anchor :
        String → EvidenceStore → W → Result WormAnchor → Result WormAnchor × EvidenceStore × W
    on_anchor segment_id s w (err e) = (err e, s, w)
    on_anchor segment_id s w (ok anchor) = on_put segment_id anchor s (anchors.put anchor w)

    -- SegmentSealer.seal, which returns the anchor.
    unfoldable pub seal :
        MacSigner → String → ℕ → ℕ → EvidenceStore → W → Result WormAnchor × EvidenceStore × W
    seal signer segment_id before_seq now s w = on_anchor segment_id s w (
        segment_state segment_id s >>= (λ state.
          segment_leaves segment_id (some before_seq) s
          >>= (λ leaves. signed_anchor signer segment_id now state leaves)))

    abbrev pub on_covered :
        String
        → ℕ
        → EvidenceStore
        → W
        → Result (Option WormAnchor)
        → Result (ℕ × WormAnchor) × EvidenceStore × W
    on_covered segment_id before_seq s w (err e) = (err e, s, w)
    on_covered segment_id before_seq s w (ok none) = (err evidence_write, s, w)
    on_covered segment_id before_seq s w (ok (some anchor)) =
        let (purged, after) = purge_before segment_id before_seq s in
        (purged >>= (λ count. ok (count, anchor)), after, w)

    -- SegmentSealer.purge, which returns how many records went and under which anchor.
    unfoldable pub purge :
        MacSigner → String → ℕ → EvidenceStore → W → Result (ℕ × WormAnchor) × EvidenceStore × W
    purge signer segment_id before_seq s w =
        on_covered segment_id before_seq s w
          (anchors.list_for_segment segment_id w >>= covering_anchor signer before_seq)

    abbrev pub after_seal :
        MacSigner
        → String
        → ℕ
        → Result WormAnchor × EvidenceStore × W
        → Result (ℕ × WormAnchor) × EvidenceStore × W
    after_seal signer segment_id before_seq (err e, s, w) = (err e, s, w)
    after_seal signer segment_id before_seq (ok anchor, s, w) =
        purge signer segment_id before_seq s w

    -- SegmentSealer.seal_and_purge
    unfoldable pub sealed_purge :
        MacSigner → String → ℕ → ℕ → EvidenceStore → W → Result (ℕ × WormAnchor) × EvidenceStore × W
    sealed_purge signer segment_id before_seq now s w =
        after_seal signer segment_id before_seq (seal signer segment_id before_seq now s w)
