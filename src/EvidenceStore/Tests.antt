-- ===== src/EvidenceStore/Tests.antt =====
-- glassbox/adapters/outbound/memory/evidence.py and glassbox/app/sealer.py at concrete inputs: two
-- intents of one segment, a local signer, and a write-once storage that lists what it was given.
use glassbox_agentic_governa.Prelude.{
  ℕ, ◌≡◌, refl, String, true, false, none, List, [], ◌∷◌, ◌++◌, length, ◌⊎◌, string_eq,
}
use glassbox_agentic_governa.Prelude.Text.{codes, codes_beq}
use glassbox_agentic_governa.Prelude.Dict.{lookup, insert, remove}
use glassbox_agentic_governa.Errors.{ok}
use glassbox_agentic_governa.Evidence.{IntentRecord, OutcomeRecord, EvidenceReceipt}
use glassbox_agentic_governa.Mandate.Tests.{wire_400}
use glassbox_agentic_governa.Service.Tests.{agent_7, permission}
use glassbox_agentic_governa.Serialization.{
  require_non_empty, require_identifier, is_whitespace, is_blank, matches_identifier_pattern,
  matches_tail, is_identifier_char, is_alphanumeric, require_timestamp,
}
use glassbox_agentic_governa.Merkle.{Bytes}
use glassbox_agentic_governa.Merkle.Binding.{append-injective}
use glassbox_agentic_governa.EvidenceStore.{
  MacSigner, IntegrityStatus, genesis_prev_hash, make_link, chain_payload, last_mac, verify_chain,
  authenticate, is_acceptable, broken_at,
}
use glassbox_agentic_governa.EvidenceStore.Reports.{
  IntegrityReport, WormAnchor, require_mac, make_receipt, make_report, localises, is_broken,
  is_fully_acceptable,
}
use glassbox_agentic_governa.EvidenceStore.Store.{
  EvidenceStore, StoredRecord, get, setdefault, open_segment, store_record, next_seq, next_link,
  append_intent, verify, verify_segment, verify_outcome_chain, intact_status, expected_first,
}
use glassbox_agentic_governa.EvidenceStore.Retention.{
  seal_and_purge, purge_prefix, purged_prefix, kept_suffix, pop_all,
}
use glassbox_agentic_governa.EvidenceStore.Sealer.{WormAnchorStore, sealed_purge}
use glassbox_agentic_governa.EvidenceStore.Histories.{
  empty_store, verify-Reachable, created, appended,
}
use glassbox_agentic_governa.EvidenceStore.Log.{Appended, append_intent-Appended}
use glassbox_agentic_governa.EvidenceStore.PurgedOut.{reported, append_intent-purged_out}
use glassbox_agentic_governa.EvidenceStore.Sealing.{PurgedFrom, Attested, sealed_purge-Attested}
use glassbox_agentic_governa.EvidenceStore.Signing.{
  LocalMacSigner, rotate, as_signer, local_mac, local_verify, mac_message, as_signer-AcceptsOwn,
  rotate-local_verify,
}
use glassbox_agentic_governa.EvidenceStore.Tampering.{Forgery, verify-last_mac}

-- Stand-ins for HMAC and SHA-256 with 32 bytes.
abbrev ones : Bytes
ones =
    1 ∷ 1 ∷ 1 ∷ 1 ∷ 1 ∷ 1 ∷ 1 ∷ 1 ∷ 1 ∷ 1 ∷ 1 ∷ 1 ∷ 1 ∷ 1 ∷ 1 ∷ 1 ∷ 1 ∷ 1 ∷ 1 ∷ 1 ∷ 1 ∷ 1 ∷ 1 ∷ 1
    ∷ 1 ∷ 1 ∷ 1 ∷ 1 ∷ 1 ∷ 1 ∷ 1 ∷ 1 ∷ []

abbrev pub toy_sha256 : Bytes → Bytes
toy_sha256 m = genesis_prev_hash

abbrev toy_hmac : Bytes → Bytes → Bytes
toy_hmac key message = ones

abbrev local_signer : LocalMacSigner
local_signer = record { active_key_id = "k1"; keys = ("k1", 7 ∷ []) ∷ []; available = true }

abbrev pub signer : MacSigner
signer = as_signer toy_sha256 toy_hmac local_signer

abbrev intent_of_id : String → IntentRecord
intent_of_id id = record {
  decision_id = id;
  segment_id = "s1";
  tenant_id = "t1";
  created_at = 200;
  principal = agent_7;
  action = wire_400;
  decision = permission;
  risk = record {
    value = 60;
    model_version = "v1";
    inputs = record {
      consequence = wire_400.consequence;
      exposure = wire_400.exposure;
      evaluated_at = 200;
    };
    raw_value = 60;
    floor_applied = false;
  };
  trace_id = "tr1";
  limits = [];
  stages = [];
  causation_id = none;
}

abbrev toy_intent_payload : ℕ → Bytes → IntentRecord → Bytes
toy_intent_payload seq prev r = seq ∷ length prev ∷ (prev ++ codes r.decision_id)

abbrev toy_outcome_payload : ℕ → Bytes → OutcomeRecord → Bytes
toy_outcome_payload seq prev r = seq ∷ length prev ∷ (prev ++ codes r.decision_id)

abbrev pub one_intent : EvidenceStore
one_intent = (append_intent toy_intent_payload signer (intent_of_id "d1") empty_store).1

abbrev receipt_d1 : EvidenceReceipt
receipt_d1 = record {
  decision_id = "d1";
  segment_id = "s1";
  seq = 0;
  record_hmac = ones;
  signer_key_id = "k1";
  persisted_at = 200;
}

append_intent-Appended_example :
    Appended toy_intent_payload (intent_of_id "d1") empty_store receipt_d1 one_intent
unfolding append_intent lookup open_segment setdefault next_link make_link chain_payload next_seq
    get last_mac local_mac mac_message make_receipt require_identifier require_non_empty is_blank
    is_whitespace matches_identifier_pattern matches_tail is_identifier_char is_alphanumeric
    require_mac require_timestamp insert
append_intent-Appended_example =
    append_intent-Appended toy_intent_payload signer (intent_of_id "d1") empty_store receipt_d1 refl

verify-Reachable_example :
    (report : IntegrityReport) × (verify toy_intent_payload toy_outcome_payload signer "s1" 300
        one_intent
      ≡ ok report)
    × (is_fully_acceptable report ≡ true)
    × (report.records_checked ≡ 1)
    × (report.outcome_records_checked ≡ length (get [] "s1" one_intent.outcome_chain))
unfolding append_intent lookup open_segment setdefault next_link make_link chain_payload next_seq
    get last_mac local_mac mac_message make_receipt require_identifier require_non_empty is_blank
    is_whitespace matches_identifier_pattern matches_tail is_identifier_char is_alphanumeric
    require_mac require_timestamp store_record insert
verify-Reachable_example =
    verify-Reachable toy_intent_payload toy_outcome_payload "s1" 300
      (get [] "s1" one_intent.segments) (codes "s1") 300
      (appended signer (intent_of_id "d1") (created signer)
        (as_signer-AcceptsOwn toy_sha256 toy_hmac local_signer) refl)
      refl refl refl

rotate-local_verify_example :
    (local_verify toy_sha256 toy_hmac local_signer (5 ∷ []) ones "k1" ≡ ok true)
    × (local_verify toy_sha256 toy_hmac (rotate "k2" (8 ∷ []) local_signer) (5 ∷ []) ones "k1"
        ≡ ok true)
unfolding local_mac lookup mac_message
rotate-local_verify_example =
    rotate-local_verify toy_sha256 toy_hmac local_signer (5 ∷ []) ones "k2" (8 ∷ []) refl refl

-- The record is purged, and another one is appended.
abbrev purged_out : EvidenceStore
purged_out = (seal_and_purge "s1" 1 one_intent).1

abbrev receipt_d2 : EvidenceReceipt
receipt_d2 = record receipt_d1 { decision_id = "d2"; seq = 1 }

append_intent-purged_out_example :
    reported toy_intent_payload
      (append_intent toy_intent_payload signer (intent_of_id "d2") purged_out).1
      signer
      "s1"
    ≡ ok (broken_at 0 1)
unfolding append_intent lookup open_segment setdefault next_link make_link chain_payload next_seq
    get last_mac local_mac mac_message make_receipt require_identifier require_non_empty is_blank
    is_whitespace matches_identifier_pattern matches_tail is_identifier_char is_alphanumeric
    require_mac require_timestamp store_record insert seal_and_purge purge_prefix purged_prefix
    kept_suffix pop_all expected_first codes_beq remove
append_intent-purged_out_example =
    append_intent-purged_out toy_intent_payload signer (intent_of_id "d2") purged_out receipt_d2
      refl refl refl refl

toy_injective :
    (seq other : ℕ) (prev before : Bytes) (r q : IntentRecord)
    → toy_intent_payload seq prev r ≡ toy_intent_payload other before q
    → (seq ≡ other) × (prev ≡ before) × (codes r.decision_id ≡ codes q.decision_id)
toy_injective seq other prev before r q same =
    let lengths : length prev ≡ length before = cc in
    let (links, names) =
      append-injective prev before (codes r.decision_id) (codes q.decision_id) lengths (cc) in
    (cc, links, names)

abbrev stored_d1 : StoredRecord
stored_d1 = record {
  entry = intent_of_id "d1";
  seq = 0;
  prev_hash = genesis_prev_hash;
  record_hmac = ones;
  signer_key_id = "k1";
}

abbrev report_of : ℕ → IntegrityReport
report_of now = record {
  segment_id = "s1";
  status = IntegrityStatus.intact;
  records_checked = 1;
  verified_at = now;
  first_broken_seq = none;
  outcome_status = IntegrityStatus.intact;
  outcome_records_checked = 0;
  first_broken_outcome_seq = none;
}

verify-last_mac_example : (codes "d1" ∷ [] ≡ codes "d1" ∷ []) ⊎ Forgery signer
unfolding append_intent lookup open_segment setdefault next_link make_link chain_payload next_seq
    get last_mac local_mac mac_message make_receipt require_identifier require_non_empty is_blank
    is_whitespace matches_identifier_pattern matches_tail is_identifier_char is_alphanumeric
    require_mac require_timestamp store_record insert verify verify_segment verify_outcome_chain
    verify_chain authenticate local_verify intact_status expected_first make_report localises
    is_broken codes_beq is_acceptable
verify-last_mac_example =
    verify-last_mac (λ r. codes r.decision_id) toy_intent_payload toy_outcome_payload toy_injective
      signer "s1" "s1" 300 400 one_intent one_intent stored_d1 stored_d1 [] [] (report_of 300)
      (report_of 400) refl refl refl refl refl refl refl refl

abbrev pub shelf : WormAnchorStore (List WormAnchor)
shelf = record { put = λ anchor w. (ok "shelf", anchor ∷ w); list_for_segment = λ g w. ok w }

sealed_purge-Attested_example :
    ((sealed_purge toy_sha256
        (λ n. "0")
        (λ a g t r z f l n. ones)
        shelf
        signer
        "s1"
        1
        300
        one_intent
        []).1.segments
      ≡ one_intent.segments)
    ⊎ (PurgedFrom "s1" 1 one_intent
          (sealed_purge toy_sha256
            (λ n. "0")
            (λ a g t r z f l n. ones)
            shelf
            signer
            "s1"
            1
            300
            one_intent
            []).1
        × Attested toy_sha256 (λ n. "0") (λ a g t r z f l n. ones) shelf "s1" 1 one_intent [])
sealed_purge-Attested_example =
    sealed_purge-Attested toy_sha256 (λ n. "0") (λ a g t r z f l n. ones) shelf (λ m. refl) signer
      "s1" 1 300 one_intent []
