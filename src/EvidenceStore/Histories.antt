-- ===== src/EvidenceStore/Histories.antt =====
-- glassbox/adapters/outbound/memory/evidence.py: the stores that appends, seals and purges reach, and
-- what the verification of a segment reports of them.
use glassbox_agentic_governa.Prelude.{
  ℕ, ◌+◌, ◌≡◌, refl, sym, String, Bool, true, not, ◌&&◌, none, some, List, [], length, nat_beq,
  string_eq, arith, Bool-cases, inl, inr,
}
use mathlib.Core.Path.{subst}
use glassbox_agentic_governa.Prelude.Text.{codes}
use glassbox_agentic_governa.Prelude.Dict.{lookup}
use glassbox_agentic_governa.Errors.{ok}
use glassbox_agentic_governa.Serialization.{require_identifier, require_timestamp}
use glassbox_agentic_governa.Evidence.{IntentRecord, OutcomeRecord, EvidenceReceipt}
use glassbox_agentic_governa.Merkle.{Bytes}
use glassbox_agentic_governa.EvidenceStore.{
  MacSigner, IntegrityStatus, intact, sealed_purged, genesis_prev_hash, is_acceptable,
}
use glassbox_agentic_governa.EvidenceStore.Chains.{
  Accepts, IsChain, verify_chain-IsChain, Extends, IsChain-Extends,
}
use glassbox_agentic_governa.EvidenceStore.Reports.{
  WormAnchor, IntegrityReport, make_report, localises, is_broken, is_some, is_fully_acceptable,
}
use glassbox_agentic_governa.EvidenceStore.Store.{
  StoredRecord, EvidenceStore, get, append_intent, append_outcome, verify, verify_segment,
  verify_outcome_chain, intact_status, expected_first,
}
use glassbox_agentic_governa.EvidenceStore.Retention.{purge_before, seal_and_purge, mark_sealed}
use glassbox_agentic_governa.EvidenceStore.Fields.{get-lookup, AreChained}
use glassbox_agentic_governa.EvidenceStore.Appends.{is_live, append_intent-AreChained}
use glassbox_agentic_governa.EvidenceStore.Purges.{
  purge_before-AreChained, seal_and_purge-AreChained,
}
use glassbox_agentic_governa.EvidenceStore.Outcomes.{
  AreRecorded, append_outcome-AreRecorded, append_outcome-AreChained, append_intent-outcome_chain,
  purge_before-outcome_chain, seal_and_purge-outcome_chain,
}

abbrev pub empty_store : EvidenceStore
empty_store = record {
  segments = [];
  receipts = [];
  outcomes = [];
  outcome_chain = [];
  outcome_keys = [];
  chain_anchor = [];
  purged = [];
  worm_anchors = [];
  tenants = [];
  opened_at = [];
}

module _ (intent_payload : ℕ → Bytes → IntentRecord → Bytes)
    (outcome_payload : ℕ → Bytes → OutcomeRecord → Bytes) where
  -- The signer that is asked to verify, and the store after a history of operations. What writes a
  -- MAC is any signer whose MACs that signer accepts: itself, or one that cannot be reached and so
  -- writes none. The signer changes, as in a rotation to a new key id, where the next one accepts
  -- all that it accepted. An intent is appended to a segment of which something is left, or from
  -- which nothing was purged.
  pub data Reachable : MacSigner → EvidenceStore → Type 0 where
    created : (signer : MacSigner) → Reachable signer empty_store
    rotated :
        {signer : MacSigner} {s : EvidenceStore} (next : MacSigner)
        → Reachable signer s
        → Extends signer next
        → Reachable next s
    appended :
        {signer : MacSigner} {s : EvidenceStore} (writer : MacSigner) (r : IntentRecord)
        → Reachable signer s
        → Accepts signer writer
        → is_live r.segment_id s ≡ true
        → Reachable signer (append_intent intent_payload writer r s).1
    recorded :
        {signer : MacSigner} {s : EvidenceStore} (writer : MacSigner) (receipt : EvidenceReceipt)
        (r : OutcomeRecord)
        → Reachable signer s
        → Accepts signer writer
        → Reachable signer (append_outcome outcome_payload writer receipt r s).1
    sealed :
        {signer : MacSigner} {s : EvidenceStore} (g : String) (anchor : WormAnchor)
        (locator : String)
        → Reachable signer s
        → Reachable signer (mark_sealed g anchor locator s).1
    purged :
        {signer : MacSigner} {s : EvidenceStore} (g : String) (n : ℕ)
        → Reachable signer s
        → Reachable signer (purge_before g n s).1
    purged_unsealed :
        {signer : MacSigner} {s : EvidenceStore} (g : String) (n : ℕ)
        → Reachable signer s
        → Reachable signer (seal_and_purge g n s).1

  abbrev pub IsSound : MacSigner → EvidenceStore → Type 0
  IsSound signer s = AreChained intent_payload signer s × AreRecorded outcome_payload signer s

  same_outcomes :
      (signer : MacSigner) (s t : EvidenceStore)
      → t.outcome_chain ≡ s.outcome_chain
      → AreRecorded outcome_payload signer s
      → AreRecorded outcome_payload signer t
  same_outcomes signer s t same h g =
      subst (λ m. IsChain outcome_payload signer 0 genesis_prev_hash (get [] g m)) (sym same) (h g)

  mark_sealed-IsSound :
      (signer : MacSigner) (s : EvidenceStore) (g : String) (anchor : WormAnchor) (locator : String)
      → IsSound signer s
      → IsSound signer (mark_sealed g anchor locator s).1
  unfolding mark_sealed expected_first
  mark_sealed-IsSound signer s g anchor locator h =
      elim (Bool-cases (is_some (lookup g s.segments))) [
        | inl there ↦ rw there h
        | inr missing ↦ rw missing h
      ]

  pub Reachable-IsSound :
      {signer : MacSigner} {s : EvidenceStore} → Reachable signer s → IsSound signer s
  unfolding get lookup
  Reachable-IsSound (created signer) = (λ g. tt {0}, λ g. tt {0})
  Reachable-IsSound {s = s} (rotated {signer = signer} next h more) =
      let (chained, outcomes) = Reachable-IsSound h in
      (
        λ g. IsChain-Extends intent_payload signer next _ _ (get [] g s.segments) more (chained g),
        λ g.
            IsChain-Extends outcome_payload signer next _ _ (get [] g s.outcome_chain) more
              (outcomes g),
      )
  Reachable-IsSound {signer} (appended {s = s} writer r h accepts live) =
      let (chained, outcomes) = Reachable-IsSound h in
      (
        append_intent-AreChained intent_payload signer writer r s accepts live chained,
        same_outcomes signer s (append_intent intent_payload writer r s).1
            (append_intent-outcome_chain intent_payload writer r s) outcomes,
      )
  Reachable-IsSound {signer} (recorded {s = s} writer receipt r h accepts) =
      let (chained, outcomes) = Reachable-IsSound h in
      (
        append_outcome-AreChained intent_payload outcome_payload signer writer receipt r s chained,
        append_outcome-AreRecorded outcome_payload signer writer receipt r s accepts outcomes,
      )
  Reachable-IsSound {signer} (sealed {s = s} g anchor locator h) =
      mark_sealed-IsSound signer s g anchor locator (Reachable-IsSound h)
  Reachable-IsSound {signer} (purged {s = s} g n h) =
      let (chained, outcomes) = Reachable-IsSound h in
      (
        purge_before-AreChained intent_payload signer g n s chained,
        same_outcomes signer s (purge_before g n s).1 (purge_before-outcome_chain g n s) outcomes,
      )
  Reachable-IsSound {signer} (purged_unsealed {s = s} g n h) =
      let (chained, outcomes) = Reachable-IsSound h in
      (
        seal_and_purge-AreChained intent_payload signer g n s chained,
        same_outcomes signer s (seal_and_purge g n s).1 (seal_and_purge-outcome_chain g n s)
            outcomes,
      )

  localises_acceptable :
      (status : IntegrityStatus) (field : String)
      → is_acceptable status ≡ true
      → localises status none field ≡ ok tt
  unfolding is_acceptable localises is_broken
  localises_acceptable intact field h = refl
  localises_acceptable sealed_purged field h = refl
  localises_acceptable IntegrityStatus.broken field h = absurd (cc)
  localises_acceptable IntegrityStatus.unverifiable field h = absurd (cc)

  intact_status-is_acceptable :
      (n : ℕ) (anchored : Bool) → is_acceptable (intact_status n anchored intact) ≡ true
  unfolding intact_status is_acceptable
  intact_status-is_acceptable n anchored = elim (Bool-cases (not (nat_beq n 0) && anchored)) [
    | inl gone ↦ rw gone refl
    | inr whole ↦ rw whole refl
  ]

  -- After every history of appends, outcomes, seals and purges, sealed or not, in which only MACs
  -- were written that the signer accepts, in which every change of the signer kept what was accepted
  -- before, and in which nothing was appended to a segment of which every record was purged: the
  -- verification of a segment that the store has, by that signer and for a name and a moment that
  -- are valid, returns a report. Both chains are acceptable in it, and all live records and all
  -- outcomes were checked.
  pub verify-Reachable :
      {signer : MacSigner} {s : EvidenceStore} (g : String) (now : ℕ) (xs : List StoredRecord)
      (name : List ℕ) (moment : ℕ)
      → Reachable signer s
      → lookup g s.segments ≡ some xs
      → require_identifier (codes g) "segment_id" ≡ ok name
      → require_timestamp now "verified_at" ≡ ok moment
      → (report : IntegrityReport) × (verify intent_payload outcome_payload signer g now s
          ≡ ok report)
        × (is_fully_acceptable report ≡ true)
        × (report.records_checked ≡ length xs)
        × (report.outcome_records_checked ≡ length (get [] g s.outcome_chain))
  unfolding verify verify_segment verify_outcome_chain make_report is_fully_acceptable is_acceptable
  verify-Reachable {signer} {s} g now xs name moment reached found named timely =
      let (chained, outcomes) = Reachable-IsSound reached in
      let read : get [] g s.segments ≡ xs = get-lookup [] g s.segments (some xs) found in
      let chain = get [] g s.outcome_chain in
      let n = get 0 g s.purged in
      let status = intact_status n (is_some (lookup g s.chain_anchor)) intact in
      let acceptable = intact_status-is_acceptable n (is_some (lookup g s.chain_anchor)) in
      let walked =
        verify_chain-IsChain intent_payload signer n (expected_first g s) 0 xs (
          subst (λ ys. IsChain intent_payload signer n (expected_first g s) ys) read (chained g)) in
      let outcomes_walked =
        verify_chain-IsChain outcome_payload signer 0 genesis_prev_hash 0 chain (outcomes g) in
      let report : IntegrityReport = record {
        segment_id = g;
        status = status;
        records_checked = 0 + length xs;
        verified_at = now;
        first_broken_seq = none;
        outcome_status = intact;
        outcome_records_checked = 0 + length chain;
        first_broken_outcome_seq = none;
      } in
      let localised : localises status none "first_broken_seq" ≡ ok tt =
        localises_acceptable status "first_broken_seq" acceptable in
      let outcomes_localised : localises intact none "first_broken_outcome_seq" ≡ ok tt =
        localises_acceptable intact "first_broken_outcome_seq" refl in
      (
        report,
        rw (outcomes_walked, found, walked, named, timely, localised, outcomes_localised) refl,
        rw acceptable refl,
        omega arith,
        omega arith,
      )
