-- ===== src/EvidenceStore/Outcomes.antt =====
-- glassbox/adapters/outbound/memory/evidence.py: an outcome continues the outcome chain of its
-- segment, and nothing else touches that chain.
use glassbox_agentic_governa.Prelude.{
  ℕ, ◌+◌, ◌≡◌, refl, sym, ap, ◌∙◌, String, List, [], ◌∷◌, ◌++◌, length, ◌==◌, string_eq, arith,
  Bool-cases, Option-cases, inl, inr,
}
use mathlib.Core.Path.{subst}
use glassbox_agentic_governa.Prelude.Dict.{lookup}
use glassbox_agentic_governa.Errors.{Result, ok, err}
use glassbox_agentic_governa.Evidence.{IntentRecord, OutcomeRecord, EvidenceReceipt}
use glassbox_agentic_governa.Merkle.{Bytes}
use glassbox_agentic_governa.EvidenceStore.{MacSigner, genesis_prev_hash, make_link, last_mac}
use glassbox_agentic_governa.EvidenceStore.Chains.{
  Accepts, IsChain, IsChain-append, make_link-IsLink,
}
use glassbox_agentic_governa.EvidenceStore.Reports.{make_receipt, is_some}
use glassbox_agentic_governa.EvidenceStore.Store.{
  StoredRecord, StoredOutcome, EvidenceStore, get, setdefault, open_segment, store_record,
  append_intent, append_outcome, on_link, on_receipt, on_outcome_link, next_link, receipt_of,
  has_outcome_key, expected_first,
}
use glassbox_agentic_governa.EvidenceStore.Retention.{
  purge_before, seal_and_purge, purge_prefix, purged_prefix, kept_suffix, is_anchored,
}
use glassbox_agentic_governa.EvidenceStore.Fields.{get-insert, get-setdefault, AreChained}

module _ (outcome_payload : ℕ → Bytes → OutcomeRecord → Bytes) where
  -- The outcomes of every segment are a chain from its start.
  abbrev pub AreRecorded : MacSigner → EvidenceStore → Type 0
  AreRecorded signer s =
      (g : String) → IsChain outcome_payload signer 0 genesis_prev_hash (get [] g s.outcome_chain)

  on_outcome_link-AreRecorded :
      (signer writer : MacSigner) (receipt : EvidenceReceipt) (r : OutcomeRecord)
      (s : EvidenceStore) (link : Result StoredOutcome)
      → Accepts signer writer
      → make_link outcome_payload writer
          (length (get [] receipt.segment_id s.outcome_chain))
          (last_mac genesis_prev_hash (get [] receipt.segment_id s.outcome_chain))
          r
        ≡ link
      → AreRecorded signer s
      → AreRecorded signer (on_outcome_link receipt r s link).1
  on_outcome_link-AreRecorded signer writer receipt r s (err e) own made h g = h g
  on_outcome_link-AreRecorded signer writer receipt r s (ok x) own made h g =
      let chain = get [] receipt.segment_id s.outcome_chain in
      let read = get-insert [] (chain ++ (x ∷ [])) receipt.segment_id g s.outcome_chain in
      let P : List StoredOutcome → Type 0 =
        λ xs. IsChain outcome_payload signer 0 genesis_prev_hash xs in
      elim (Bool-cases (receipt.segment_id == g)) [
        | inr different ↦ subst P (sym (read ∙ rw different refl)) (h g)
        | inl same ↦
            let (_, (here, linked, good)) =
              make_link-IsLink outcome_payload signer writer (length chain)
                (last_mac genesis_prev_hash chain) r x own made in
            let placed : x.seq ≡ 0 + length chain = omega arith in
            subst P (sym (read ∙ rw same refl)) (
              IsChain-append outcome_payload signer 0 genesis_prev_hash chain x
                (h receipt.segment_id) (placed, linked, good))
      ]

  pub append_outcome-AreRecorded :
      (signer writer : MacSigner) (receipt : EvidenceReceipt) (r : OutcomeRecord)
      (s : EvidenceStore)
      → Accepts signer writer
      → AreRecorded signer s
      → AreRecorded signer (append_outcome outcome_payload writer receipt r s).1
  unfolding append_outcome
  append_outcome-AreRecorded signer writer receipt r s own h =
      let chain = get [] receipt.segment_id s.outcome_chain in
      let opened : EvidenceStore = record s {
        outcome_chain = setdefault receipt.segment_id [] s.outcome_chain;
      } in
      let link =
        make_link outcome_payload writer (length chain) (last_mac genesis_prev_hash chain) r in
      let read = get-setdefault [] receipt.segment_id receipt.segment_id s.outcome_chain in
      let kept : AreRecorded signer opened = λ g.
        subst (λ xs. IsChain outcome_payload signer 0 genesis_prev_hash xs)
          (sym (get-setdefault [] receipt.segment_id g s.outcome_chain)) (h g) in
      elim (Bool-cases (receipt.decision_id == r.decision_id)) [
        | inr other ↦ rw other h
        | inl same ↦ elim (Bool-cases (is_some (lookup receipt.decision_id s.receipts))) [
          | inr unknown ↦ rw (same, unknown) h
          | inl known ↦
              elim (Bool-cases
                (has_outcome_key r.decision_id r.outcome.completed_at s.outcome_keys)) [
                  | inl repeated ↦ rw (same, known, repeated) h
                  | inr new ↦
                      rw (same, known, new)
                        (on_outcome_link-AreRecorded signer writer receipt r opened link own
                          (ap
                            (λ xs.
                              make_link outcome_payload writer (length xs)
                                (last_mac genesis_prev_hash xs) r)
                            read)
                          kept)
                ]
        ]
      ]

module _ (intent_payload : ℕ → Bytes → IntentRecord → Bytes) where
  on_outcome_link-AreChained :
      (signer : MacSigner) (receipt : EvidenceReceipt) (r : OutcomeRecord) (s : EvidenceStore)
      (link : Result StoredOutcome)
      → AreChained intent_payload signer s
      → AreChained intent_payload signer (on_outcome_link receipt r s link).1
  unfolding expected_first
  on_outcome_link-AreChained signer receipt r s (err e) h = h
  on_outcome_link-AreChained signer receipt r s (ok x) h = h

  pub append_outcome-AreChained :
      (outcome_payload : ℕ → Bytes → OutcomeRecord → Bytes) (signer writer : MacSigner)
      (receipt : EvidenceReceipt) (r : OutcomeRecord) (s : EvidenceStore)
      → AreChained intent_payload signer s
      → AreChained intent_payload signer (append_outcome outcome_payload writer receipt r s).1
  unfolding append_outcome expected_first
  append_outcome-AreChained outcome_payload signer writer receipt r s h =
      let chain = get [] receipt.segment_id s.outcome_chain in
      let opened : EvidenceStore = record s {
        outcome_chain = setdefault receipt.segment_id [] s.outcome_chain;
      } in
      elim (Bool-cases (receipt.decision_id == r.decision_id)) [
        | inr other ↦ rw other h
        | inl same ↦ elim (Bool-cases (is_some (lookup receipt.decision_id s.receipts))) [
          | inr unknown ↦ rw (same, unknown) h
          | inl known ↦
              elim (Bool-cases
                (has_outcome_key r.decision_id r.outcome.completed_at s.outcome_keys)) [
                  | inl repeated ↦ rw (same, known, repeated) h
                  | inr new ↦
                      rw (same, known, new)
                        (on_outcome_link-AreChained signer receipt r opened
                          (make_link outcome_payload writer (length chain)
                            (last_mac genesis_prev_hash chain) r)
                          h)
                ]
        ]
      ]

  on_receipt-outcome_chain :
      (s : EvidenceStore) (made : Result EvidenceReceipt)
      → (on_receipt s made).1.outcome_chain ≡ s.outcome_chain
  on_receipt-outcome_chain s (err e) = refl
  on_receipt-outcome_chain s (ok receipt) = refl

  on_link-outcome_chain :
      (r : IntentRecord) (s : EvidenceStore) (link : Result StoredRecord)
      → (on_link r s link).1.outcome_chain ≡ s.outcome_chain
  unfolding store_record
  on_link-outcome_chain r s (err e) = refl
  on_link-outcome_chain r s (ok x) =
      on_receipt-outcome_chain (store_record r x s) (make_receipt (receipt_of r x))

  pub append_intent-outcome_chain :
      (signer : MacSigner) (r : IntentRecord) (s : EvidenceStore)
      → (append_intent intent_payload signer r s).1.outcome_chain ≡ s.outcome_chain
  unfolding append_intent open_segment
  append_intent-outcome_chain signer r s = elim (Option-cases (lookup r.decision_id s.receipts)) [
    | inr (receipt, found) ↦ rw (found, append_intent) refl
    | inl missing ↦
        rw (missing, append_intent)
          (on_link-outcome_chain r (open_segment r s)
            (next_link intent_payload signer r (open_segment r s)))
  ]

purge_prefix-outcome_chain :
    (g : String) (xs kept : List StoredRecord) (s : EvidenceStore)
    → (purge_prefix g xs kept s).1.outcome_chain ≡ s.outcome_chain
unfolding purge_prefix
purge_prefix-outcome_chain g [] kept s = refl
purge_prefix-outcome_chain g (x ∷ xs) kept s = refl

pub seal_and_purge-outcome_chain :
    (g : String) (n : ℕ) (s : EvidenceStore)
    → (seal_and_purge g n s).1.outcome_chain ≡ s.outcome_chain
unfolding seal_and_purge
seal_and_purge-outcome_chain g n s =
    purge_prefix-outcome_chain g (purged_prefix n (get [] g s.segments))
      (kept_suffix n (get [] g s.segments)) s

pub purge_before-outcome_chain :
    (g : String) (n : ℕ) (s : EvidenceStore)
    → (purge_before g n s).1.outcome_chain ≡ s.outcome_chain
unfolding purge_before
purge_before-outcome_chain g n s = elim (Bool-cases (is_anchored n (lookup g s.worm_anchors))) [
  | inr loose ↦ rw loose refl
  | inl anchored ↦ rw anchored (seal_and_purge-outcome_chain g n s)
]
