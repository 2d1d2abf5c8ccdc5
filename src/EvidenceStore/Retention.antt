-- ===== src/EvidenceStore/Retention.antt =====
-- glassbox/adapters/outbound/memory/evidence.py: the operations of InMemoryEvidenceStore that only
-- retention uses: the leaves of a segment, its seal, and the purge of a prefix.
use glassbox_agentic_governa.Prelude.{
  ℕ, ◌+◌, String, Bool, true, false, not, Option, none, some, List, [], ◌∷◌, length, keep,
  if◌then◌else◌, ltb, leb, nat_beq, string_eq,
}
use glassbox_agentic_governa.Prelude.Dict.{Dict, lookup, insert, remove}
use glassbox_agentic_governa.Errors.{Result, ok, err, evidence_write, ◌>>=◌}
use glassbox_agentic_governa.Merkle.{Bytes}
use glassbox_agentic_governa.EvidenceStore.{last_mac, genesis_prev_hash}
use glassbox_agentic_governa.EvidenceStore.Reports.{
  WormAnchor, EvidenceSegment, is_some, make_segment, require_mac,
}
use glassbox_agentic_governa.EvidenceStore.Store.{StoredRecord, EvidenceStore, get}

-- The records that the loop of seal_and_purge passes, and where it breaks off.
unfoldable pub purged_prefix : ℕ → List StoredRecord → List StoredRecord
purged_prefix before_seq [] = []
purged_prefix before_seq (x ∷ xs) =
    let rest = purged_prefix before_seq xs in if leb before_seq x.seq then [] else x ∷ rest

unfoldable pub kept_suffix : ℕ → List StoredRecord → List StoredRecord
kept_suffix before_seq [] = []
kept_suffix before_seq (x ∷ xs) =
    let rest = kept_suffix before_seq xs in if leb before_seq x.seq then x ∷ xs else rest

-- `d.pop(stored.record.decision_id, None)` for each record.
unfoldable pub pop_all : {V : Type 0} → List StoredRecord → Dict String V → Dict String V
pop_all [] dict = dict
pop_all (x ∷ xs) dict = pop_all xs (remove x.entry.decision_id dict)

unfoldable pub purge_prefix :
    String → List StoredRecord → List StoredRecord → EvidenceStore → Result ℕ × EvidenceStore
purge_prefix segment_id [] kept s = (ok 0, s)
purge_prefix segment_id (x ∷ xs) kept s = (
  ok (length (x ∷ xs)),
  record s {
    receipts = pop_all (x ∷ xs) s.receipts;
    outcomes = pop_all (x ∷ xs) s.outcomes;
    segments = insert segment_id kept s.segments;
    chain_anchor = insert segment_id (last_mac genesis_prev_hash (x ∷ xs)) s.chain_anchor;
    purged = insert segment_id (get 0 segment_id s.purged + length (x ∷ xs)) s.purged;
  },
)

-- seal_and_purge
unfoldable pub seal_and_purge : String → ℕ → EvidenceStore → Result ℕ × EvidenceStore
seal_and_purge segment_id before_seq s =
    let segment = get [] segment_id s.segments in
    purge_prefix segment_id (purged_prefix before_seq segment) (kept_suffix before_seq segment) s

-- `entry is None or entry[0].last_seq != before_seq - 1`, in naturals.
unfoldable pub is_anchored : ℕ → Option (WormAnchor × String) → Bool
is_anchored before_seq none = false
is_anchored before_seq (some (anchor, locator)) = nat_beq (anchor.last_seq + 1) before_seq

-- purge_before
unfoldable pub purge_before : String → ℕ → EvidenceStore → Result ℕ × EvidenceStore
purge_before segment_id before_seq s =
    if not (is_anchored before_seq (lookup segment_id s.worm_anchors))
    then (err evidence_write, s)
    else seal_and_purge segment_id before_seq s

-- mark_sealed
unfoldable pub mark_sealed :
    String → WormAnchor → String → EvidenceStore → Result (Unit {0}) × EvidenceStore
mark_sealed segment_id anchor locator s =
    if not (is_some (lookup segment_id s.segments))
    then (err evidence_write, s)
    else (ok tt, record s { worm_anchors = insert segment_id (anchor, locator) s.worm_anchors })

-- anchor_for
unfoldable pub anchor_for : String → EvidenceStore → Option WormAnchor
anchor_for segment_id s = elim (lookup segment_id s.worm_anchors) [
  | none ↦ none
  | some (anchor, locator) ↦ some anchor
]

pub record SegmentLeaf : Type 0 where
  pub seq : ℕ
  pub record_hmac : Bytes

-- `sorted(records, key=...)` keeps the order of records with one number.
unfoldable pub insert_by_seq : StoredRecord → List StoredRecord → List StoredRecord
insert_by_seq x [] = x ∷ []
insert_by_seq x (y ∷ ys) =
    let rest = insert_by_seq x ys in if leb x.seq y.seq then x ∷ y ∷ ys else y ∷ rest

unfoldable pub sort_by_seq : List StoredRecord → List StoredRecord
sort_by_seq [] = []
sort_by_seq (x ∷ xs) = insert_by_seq x (sort_by_seq xs)

abbrev pub is_below : Option ℕ → StoredRecord → Bool
is_below none x = true
is_below (some before_seq) x = ltb x.seq before_seq

abbrev pub leaf_of : StoredRecord → SegmentLeaf
leaf_of x = record { seq = x.seq; record_hmac = x.record_hmac }

-- SegmentLeaf.__post_init__, for every leaf.
unfoldable pub make_leaves : List StoredRecord → Result (List SegmentLeaf)
make_leaves [] = ok []
make_leaves (x ∷ xs) =
    let rest = make_leaves xs in
    require_mac x.record_hmac "record_hmac" >>= (λ mac. rest >>= (λ ls. ok (leaf_of x ∷ ls)))

-- segment_leaves
unfoldable pub segment_leaves : String → Option ℕ → EvidenceStore → Result (List SegmentLeaf)
segment_leaves segment_id before_seq s =
    make_leaves (keep (is_below before_seq) (sort_by_seq (get [] segment_id s.segments)))

-- `self._opened_at.get(segment_id, 0.0) or 1.0`
unfoldable pub opened_or_one : ℕ → ℕ
opened_or_one moment = if nat_beq moment 0 then 1 else moment

-- The state with the seal of the anchor, where there is one.
unfoldable pub sealed_by : Option WormAnchor → String → EvidenceStore → EvidenceSegment
sealed_by none segment_id s = record {
  segment_id = segment_id;
  tenant_id = get "unknown" segment_id s.tenants;
  opened_at = opened_or_one (get 0 segment_id s.opened_at);
  first_seq = get 0 segment_id s.purged;
  sealed_at = none;
  last_seq = none;
  merkle_root = none;
  seal_signature = none;
  worm_anchor_id = none;
}
sealed_by (some anchor) segment_id s = record {
  segment_id = segment_id;
  tenant_id = get "unknown" segment_id s.tenants;
  opened_at = opened_or_one (get 0 segment_id s.opened_at);
  first_seq = get 0 segment_id s.purged;
  sealed_at = some anchor.sealed_at;
  last_seq = some anchor.last_seq;
  merkle_root = some anchor.merkle_root;
  seal_signature = some anchor.root_signature;
  worm_anchor_id = some anchor.anchor_id;
}

-- segment_state
unfoldable pub segment_state : String → EvidenceStore → Result (Option EvidenceSegment)
segment_state segment_id s = elim (lookup segment_id s.segments) [
  | none ↦ ok none
  | some records ↦
      make_segment (sealed_by (anchor_for segment_id s) segment_id s) >>= (λ state. ok (some state))
]
