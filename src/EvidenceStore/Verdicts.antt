-- ===== src/EvidenceStore/Verdicts.antt =====
-- glassbox/adapters/outbound/memory/evidence.py: what an acceptable report says of the chain.
use glassbox_agentic_governa.Prelude.{
  ℕ, ◌≡◌, refl, sym, ap, ◌∙◌, String, Bool, true, some, List, string_eq,
}
use glassbox_agentic_governa.Prelude.Text.{codes}
use glassbox_agentic_governa.Prelude.Dict.{lookup}
use glassbox_agentic_governa.Errors.{ok, >>=-eq-ok}
use glassbox_agentic_governa.Serialization.{require_identifier, require_timestamp}
use glassbox_agentic_governa.Evidence.{IntentRecord, OutcomeRecord}
use glassbox_agentic_governa.Merkle.{Bytes}
use glassbox_agentic_governa.EvidenceStore.{
  MacSigner, IntegrityStatus, intact, verify_chain, is_acceptable,
}
use glassbox_agentic_governa.EvidenceStore.Chains.{IsChain, verify_chain_sound}
use glassbox_agentic_governa.EvidenceStore.Reports.{
  IntegrityReport, is_some, make_report, localises,
}
use glassbox_agentic_governa.EvidenceStore.Store.{
  StoredRecord, EvidenceStore, get, expected_first, intact_status, verify, verify_segment,
  verify_outcome_chain,
}

intact_status_sound :
    (n : ℕ) (anchored : Bool) (status : IntegrityStatus)
    → is_acceptable (intact_status n anchored status) ≡ true
    → is_acceptable status ≡ true
unfolding intact_status is_acceptable
intact_status_sound n anchored intact h = refl
intact_status_sound n anchored IntegrityStatus.broken h = h
intact_status_sound n anchored IntegrityStatus.sealed_purged h = refl
intact_status_sound n anchored IntegrityStatus.unverifiable h = h

make_report-eq_ok : (r q : IntegrityReport) → make_report r ≡ ok q → r ≡ q
unfolding make_report
make_report-eq_ok r q h =
    let (_, _, h1) = >>=-eq-ok (require_identifier (codes r.segment_id) "segment_id") _ h in
    let (_, _, h2) = >>=-eq-ok (require_timestamp r.verified_at "verified_at") _ h1 in
    let (_, _, h3) = >>=-eq-ok (localises r.status r.first_broken_seq "first_broken_seq") _ h2 in
    let (_, _, h4) =
      >>=-eq-ok (localises r.outcome_status r.first_broken_outcome_seq "first_broken_outcome_seq") _
        h3 in
    cc

module _ (intent_payload : ℕ → Bytes → IntentRecord → Bytes)
    (outcome_payload : ℕ → Bytes → OutcomeRecord → Bytes) where
  pub verify-IsChain :
      (signer : MacSigner) (g : String) (now : ℕ) (s : EvidenceStore) (xs : List StoredRecord)
      (report : IntegrityReport)
      → lookup g s.segments ≡ some xs
      → verify intent_payload outcome_payload signer g now s ≡ ok report
      → is_acceptable report.status ≡ true
      → IsChain intent_payload signer (get 0 g s.purged) (expected_first g s) xs
  unfolding verify verify_segment
  verify-IsChain signer g now s xs report found h sound =
      let (outcomes, _, h1) = >>=-eq-ok (verify_outcome_chain outcome_payload signer g s) _ h in
      let (intents, walked, h2) =
        >>=-eq-ok (verify_segment intent_payload signer g s (lookup g s.segments)) _ h1 in
      let (walk, went, h3) =
        >>=-eq-ok (verify_chain intent_payload signer (get 0 g s.purged) (expected_first g s) 0 xs)
          _ (rw found at walked) in
      let reported : intents.status
          ≡ intact_status (get 0 g s.purged) (is_some (lookup g s.chain_anchor)) walk.status =
        cc in
      let same : intents.status ≡ report.status =
        ap (λ r. r.status) (make_report-eq_ok _ report h2) in
      let acceptable : is_acceptable walk.status ≡ true =
        intact_status_sound (get 0 g s.purged) (is_some (lookup g s.chain_anchor)) walk.status
          (ap is_acceptable (sym reported ∙ same) ∙ sound) in
      verify_chain_sound intent_payload signer (get 0 g s.purged) (expected_first g s) 0 xs walk
        went acceptable
