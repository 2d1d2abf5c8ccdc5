-- ===== src/EvidenceStore/Store.antt =====
-- glassbox/adapters/outbound/memory/evidence.py: InMemoryEvidenceStore, its state and its operations
-- on intents and outcomes. Each method runs under the store's lock and is one function on the store.
use glassbox_agentic_governa.Prelude.{
  ℕ, ◌+◌, String, Bool, false, not, ◌&&◌, Option, none, some, List, [], ◌∷◌, ◌++◌, length, any,
  if◌then◌else◌, ◌==◌, string_eq, nat_beq,
}
use glassbox_agentic_governa.Prelude.Text.{codes_beq}
use glassbox_agentic_governa.Prelude.Dict.{Dict, lookup, insert}
use glassbox_agentic_governa.Errors.{Result, ok, err, evidence_write, domain_validation, ◌>>=◌}
use glassbox_agentic_governa.Evidence.{IntentRecord, OutcomeRecord, EvidenceReceipt}
use glassbox_agentic_governa.Merkle.{Bytes}
use glassbox_agentic_governa.EvidenceStore.{
  MacSigner, IntegrityStatus, intact, sealed_purged, unverifiable, Stored, ChainReport,
  genesis_prev_hash, make_link, verify_chain, last_mac,
}
use glassbox_agentic_governa.EvidenceStore.Reports.{
  WormAnchor, IntegrityReport, is_some, make_receipt, make_report,
}

abbrev pub StoredRecord : Type 0
StoredRecord = Stored IntentRecord

abbrev pub StoredOutcome : Type 0
StoredOutcome = Stored OutcomeRecord

pub record EvidenceStore : Type 0 where
  pub segments : Dict String (List StoredRecord)
  pub receipts : Dict String EvidenceReceipt
  pub outcomes : Dict String StoredOutcome
  pub outcome_chain : Dict String (List StoredOutcome)
  pub outcome_keys : List (String × ℕ)
  pub chain_anchor : Dict String Bytes
  pub purged : Dict String ℕ
  pub worm_anchors : Dict String (WormAnchor × String)
  pub tenants : Dict String String
  pub opened_at : Dict String ℕ

-- `d.get(key, default)` and `d.setdefault(key, default)`
unfoldable pub get : {V : Type 0} → V → String → Dict String V → V
get otherwise key dict = elim (lookup key dict) [ none ↦ otherwise | some v ↦ v ]

unfoldable pub setdefault : {V : Type 0} → String → V → Dict String V → Dict String V
setdefault key value dict = elim (lookup key dict) [ none ↦ insert key value dict | some v ↦ dict ]

-- What append_intent sets up before it computes the MAC.
unfoldable pub open_segment : IntentRecord → EvidenceStore → EvidenceStore
open_segment r s = record s {
  segments = setdefault r.segment_id [] s.segments;
  tenants = setdefault r.segment_id r.tenant_id s.tenants;
  opened_at = setdefault r.segment_id r.created_at s.opened_at;
}

abbrev pub receipt_of : IntentRecord → StoredRecord → EvidenceReceipt
receipt_of r x = record {
  decision_id = r.decision_id;
  segment_id = r.segment_id;
  seq = x.seq;
  record_hmac = x.record_hmac;
  signer_key_id = x.signer_key_id;
  persisted_at = r.created_at;
}

-- `segment.append(...)`
unfoldable pub store_record : IntentRecord → StoredRecord → EvidenceStore → EvidenceStore
store_record r x s = record s {
  segments = insert r.segment_id (get [] r.segment_id s.segments ++ (x ∷ [])) s.segments;
}

-- The receipt is built after the record is in the segment.
abbrev pub on_receipt :
    EvidenceStore → Result EvidenceReceipt → Result EvidenceReceipt × EvidenceStore
on_receipt s (err e) = (err e, s)
on_receipt s (ok receipt) =
    (ok receipt, record s { receipts = insert receipt.decision_id receipt s.receipts })

abbrev pub on_link :
    IntentRecord → EvidenceStore → Result StoredRecord → Result EvidenceReceipt × EvidenceStore
on_link r s (err e) = (err e, s)
on_link r s (ok x) = on_receipt (store_record r x s) (make_receipt (receipt_of r x))

abbrev pub on_existing :
    EvidenceStore
    → Result EvidenceReceipt × EvidenceStore
    → Option EvidenceReceipt
    → Result EvidenceReceipt × EvidenceStore
on_existing s appended (some receipt) = (ok receipt, s)
on_existing s appended none = appended

-- `self._purged.get(record.segment_id, 0) + len(segment)`
unfoldable pub next_seq : String → EvidenceStore → ℕ
next_seq segment_id s = get 0 segment_id s.purged + length (get [] segment_id s.segments)

-- The status of a walk that found nothing wrong, for what was purged.
unfoldable pub intact_status : ℕ → Bool → IntegrityStatus → IntegrityStatus
intact_status purged anchored IntegrityStatus.intact =
    if not (nat_beq purged 0) && anchored then sealed_purged else intact
intact_status purged anchored status = status

-- The link that verify expects of the first live record.
unfoldable pub expected_first : String → EvidenceStore → Bytes
expected_first segment_id s =
    if nat_beq (get 0 segment_id s.purged) 0
    then genesis_prev_hash
    else get genesis_prev_hash segment_id s.chain_anchor

module _ (outcome_payload : ℕ → Bytes → OutcomeRecord → Bytes) where
  -- _verify_outcome_chain
  unfoldable pub verify_outcome_chain : MacSigner → String → EvidenceStore → Result ChainReport
  verify_outcome_chain signer segment_id s =
      verify_chain outcome_payload signer 0 genesis_prev_hash 0 (get [] segment_id s.outcome_chain)

module _ (intent_payload : ℕ → Bytes → IntentRecord → Bytes) where
  -- The next link of the record's segment.
  unfoldable pub next_link : MacSigner → IntentRecord → EvidenceStore → Result StoredRecord
  next_link signer r s =
      make_link intent_payload signer (next_seq r.segment_id s)
        (last_mac genesis_prev_hash (get [] r.segment_id s.segments)) r

  -- append_intent
  unfoldable pub append_intent :
      MacSigner → IntentRecord → EvidenceStore → Result EvidenceReceipt × EvidenceStore
  append_intent signer r s =
      let opened = open_segment r s in
      on_existing s (on_link r opened (next_link signer r opened)) (lookup r.decision_id s.receipts)

  unfoldable pub verify_segment :
      MacSigner → String → EvidenceStore → Option (List StoredRecord) → Result ChainReport
  verify_segment signer segment_id s none =
      ok (record { status = unverifiable; checked = 0; first_broken = none })
  verify_segment signer segment_id s (some segment) = do
    walk ←
        verify_chain intent_payload signer (get 0 segment_id s.purged) (expected_first segment_id s)
          0 segment
    ok (record walk {
      status =
          intact_status (get 0 segment_id s.purged) (is_some (lookup segment_id s.chain_anchor))
            walk.status;
    })

  module _ (outcome_payload : ℕ → Bytes → OutcomeRecord → Bytes) where
    -- verify
    unfoldable pub verify : MacSigner → String → ℕ → EvidenceStore → Result IntegrityReport
    verify signer segment_id now s = do
      outcomes ← verify_outcome_chain outcome_payload signer segment_id s
      intents ← verify_segment signer segment_id s (lookup segment_id s.segments)
      make_report (record {
        segment_id = segment_id;
        status = intents.status;
        records_checked = intents.checked;
        verified_at = now;
        first_broken_seq = intents.first_broken;
        outcome_status = outcomes.status;
        outcome_records_checked = outcomes.checked;
        first_broken_outcome_seq = outcomes.first_broken;
      })

-- `idempotency_key in self._outcome_keys`
unfoldable pub has_outcome_key : String → ℕ → List (String × ℕ) → Bool
has_outcome_key decision_id completed_at keys =
    any (λ k. k.0 == decision_id && nat_beq (k.1) completed_at) keys

abbrev pub on_outcome_link :
    EvidenceReceipt
    → OutcomeRecord
    → EvidenceStore
    → Result StoredOutcome
    → Result (Unit {0}) × EvidenceStore
on_outcome_link receipt r s (err e) = (err e, s)
on_outcome_link receipt r s (ok x) = (
  ok tt,
  record s {
    outcome_chain =
        insert receipt.segment_id (get [] receipt.segment_id s.outcome_chain ++ (x ∷ []))
          s.outcome_chain;
    outcomes = insert r.decision_id x s.outcomes;
    outcome_keys = (r.decision_id, r.outcome.completed_at) ∷ s.outcome_keys;
  },
)

module _ (outcome_payload : ℕ → Bytes → OutcomeRecord → Bytes) where
  -- append_outcome. The ValueError of a receipt for another decision is a validation error here.
  unfoldable pub append_outcome :
      MacSigner
      → EvidenceReceipt
      → OutcomeRecord
      → EvidenceStore
      → Result (Unit {0}) × EvidenceStore
  append_outcome signer receipt r s =
      let chain = get [] receipt.segment_id s.outcome_chain in
      let opened : EvidenceStore = record s {
        outcome_chain = setdefault receipt.segment_id [] s.outcome_chain;
      } in
      if not (receipt.decision_id == r.decision_id)
      then (err (domain_validation "receipt"), s)
      else if not (is_some (lookup receipt.decision_id s.receipts))
      then (err evidence_write, s)
      else if has_outcome_key r.decision_id r.outcome.completed_at s.outcome_keys
      then (ok tt, s)
      else on_outcome_link receipt r opened
          (make_link outcome_payload signer (length chain) (last_mac genesis_prev_hash chain) r)

-- `issued == receipt`
unfoldable pub receipt_beq : EvidenceReceipt → EvidenceReceipt → Bool
receipt_beq a b =
    a.decision_id == b.decision_id
    && a.segment_id == b.segment_id
    && nat_beq a.seq b.seq
    && codes_beq a.record_hmac b.record_hmac
    && a.signer_key_id == b.signer_key_id
    && nat_beq a.persisted_at b.persisted_at

-- has_receipt
unfoldable pub has_receipt : EvidenceReceipt → EvidenceStore → Bool
has_receipt receipt s = elim (lookup receipt.decision_id s.receipts) [
  | none ↦ false
  | some issued ↦ receipt_beq issued receipt
]

-- outcome_for
unfoldable pub outcome_for : String → EvidenceStore → Option OutcomeRecord
outcome_for decision_id s = elim (lookup decision_id s.outcomes) [
  | none ↦ none
  | some stored ↦ some stored.entry
]

-- segment_size
unfoldable pub segment_size : String → EvidenceStore → ℕ
segment_size segment_id s = length (get [] segment_id s.segments)
