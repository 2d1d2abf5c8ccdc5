-- ===== src/EvidenceStore/Reports.antt =====
-- glassbox/domain/evidence.py: the anchor of a sealed range, the state of a segment, the report of a
-- verification and the receipt, each with the checks of its constructor. Texts for people are left
-- out.
use glassbox_agentic_governa.Prelude.{
  ℕ, ◌+◌, ◌-◌, String, Bool, true, false, not, ◌&&◌, ◌||◌, Option, none, some, length, leb, nat_beq,
}
use glassbox_agentic_governa.Prelude.Text.{codes}
use glassbox_agentic_governa.Errors.{Result, ok, domain_validation, ◌>>◌, require}
use glassbox_agentic_governa.Serialization.{require_identifier, require_timestamp}
use glassbox_agentic_governa.Decision.{optional_identifier}
use glassbox_agentic_governa.Evidence.{EvidenceReceipt}
use glassbox_agentic_governa.Merkle.{Bytes}
use glassbox_agentic_governa.EvidenceStore.{IntegrityStatus, broken, is_acceptable}

unfoldable pub require_mac : Bytes → String → Result Bytes
require_mac value field = do require (leb 32 (length value)) (domain_validation field); ok value

-- EvidenceReceipt.__post_init__
unfoldable pub make_receipt : EvidenceReceipt → Result EvidenceReceipt
make_receipt r = do
  require_identifier (codes r.decision_id) "decision_id"
  require_identifier (codes r.segment_id) "segment_id"
  require_mac r.record_hmac "record_hmac"
  require_identifier (codes r.signer_key_id) "signer_key_id"
  require_timestamp r.persisted_at "persisted_at"
  ok r

pub record WormAnchor : Type 0 where
  pub anchor_id : String
  pub segment_id : String
  pub tenant_id : String
  pub merkle_root : Bytes
  pub tree_size : ℕ
  pub first_seq : ℕ
  pub last_seq : ℕ
  pub sealed_at : ℕ
  pub root_signature : Bytes
  pub signer_key_id : String

-- WormAnchor.__post_init__
unfoldable pub make_anchor : WormAnchor → Result WormAnchor
make_anchor a = do
  require_identifier (codes a.anchor_id) "anchor_id"
  require_identifier (codes a.segment_id) "segment_id"
  require_identifier (codes a.tenant_id) "tenant_id"
  require_mac a.merkle_root "merkle_root"
  require_mac a.root_signature "root_signature"
  require_identifier (codes a.signer_key_id) "signer_key_id"
  require_timestamp a.sealed_at "sealed_at"
  require (leb a.first_seq a.last_seq) (domain_validation "last_seq")
  require (nat_beq a.tree_size (a.last_seq - a.first_seq + 1)) (domain_validation "tree_size")
  ok a

-- The four fields of a seal stand or fall together, so that a segment has one anchor or none; the
-- segment that the store builds takes them from the anchor that it holds.
pub record EvidenceSegment : Type 0 where
  pub segment_id : String
  pub tenant_id : String
  pub opened_at : ℕ
  pub first_seq : ℕ
  pub sealed_at : Option ℕ
  pub last_seq : Option ℕ
  pub merkle_root : Option Bytes
  pub seal_signature : Option Bytes
  pub worm_anchor_id : Option String

abbrev pub is_some {ℓ} : {A : Type ℓ} → Option A → Bool
is_some none = false
is_some (some a) = true

-- The sealed fields that are there.
unfoldable pub check_seal :
    EvidenceSegment → Option ℕ → Option ℕ → Option Bytes → Result EvidenceSegment
check_seal s (some sealed_at) (some last_seq) (some merkle_root) = do
  require_timestamp sealed_at "sealed_at"
  require (leb s.opened_at sealed_at) (domain_validation "sealed_at")
  require (leb s.first_seq (last_seq + 1)) (domain_validation "last_seq")
  require_mac merkle_root "merkle_root"
  ok s
check_seal s _ _ _ = ok s

-- EvidenceSegment.__post_init__
unfoldable pub make_segment : EvidenceSegment → Result EvidenceSegment
make_segment s = do
  require_identifier (codes s.segment_id) "segment_id"
  require_identifier (codes s.tenant_id) "tenant_id"
  require_timestamp s.opened_at "opened_at"
  require
      ((is_some s.sealed_at
          && is_some s.last_seq
          && is_some s.merkle_root
          && is_some s.seal_signature)
        || not (
            is_some s.sealed_at
            || is_some s.last_seq
            || is_some s.merkle_root
            || is_some s.seal_signature))
      (domain_validation "sealed_at")
  check_seal s s.sealed_at s.last_seq s.merkle_root
  optional_identifier s.worm_anchor_id "worm_anchor_id"
  ok s

pub record IntegrityReport : Type 0 where
  pub segment_id : String
  pub status : IntegrityStatus
  pub records_checked : ℕ
  pub verified_at : ℕ
  pub first_broken_seq : Option ℕ
  pub outcome_status : IntegrityStatus
  pub outcome_records_checked : ℕ
  pub first_broken_outcome_seq : Option ℕ

unfoldable pub is_broken : IntegrityStatus → Bool
is_broken broken = true
is_broken _ = false

-- A broken chain names its first failing record, and no other chain names one.
unfoldable pub localises : IntegrityStatus → Option ℕ → String → Result (Unit {0})
localises status first field =
    require ((is_broken status && is_some first) || not (is_broken status || is_some first))
      (domain_validation field)

-- IntegrityReport.__post_init__
unfoldable pub make_report : IntegrityReport → Result IntegrityReport
make_report r = do
  require_identifier (codes r.segment_id) "segment_id"
  require_timestamp r.verified_at "verified_at"
  localises r.status r.first_broken_seq "first_broken_seq"
  localises r.outcome_status r.first_broken_outcome_seq "first_broken_outcome_seq"
  ok r

-- IntegrityReport.is_fully_acceptable
unfoldable pub is_fully_acceptable : IntegrityReport → Bool
is_fully_acceptable r = is_acceptable r.status && is_acceptable r.outcome_status
