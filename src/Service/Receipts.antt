-- ===== src/Service/Receipts.antt =====
-- glassbox/app/decision_service.py: what a caller holds when `_evaluate` returns.
use glassbox_agentic_governa.Prelude.{ℕ, ◌≡◌, refl, ◌∷◌, sym, ap, ◌∙◌, String}
use glassbox_agentic_governa.Errors.{Result, ok, err, err≢ok}
use glassbox_agentic_governa.Decision.{AuthorizationDecision, ExecutionOutcome}
use glassbox_agentic_governa.Evidence.{IntentRecord, make_intent, EvidenceReceipt}
use glassbox_agentic_governa.Service.Ports.{
  Ports, Config, World, Step, next, ◌>>=◌, checked, appended, appended_outcome, call, attempt,
}
use glassbox_agentic_governa.Service.Evaluate.{
  Request, DecisionOutcome, Judgement, authorise, constrain,
}
use glassbox_agentic_governa.Service.Conclude.{
  conclude, evaluate, finish, record_outcome, append_record, commit, materialize_approval_metadata,
  dispatch_if_permitted, intent_of, on_append, on_append_outcome,
}
use glassbox_agentic_governa.Service.Trace.{make_intent-eq_ok}
use glassbox_agentic_governa.Service.EvidenceFirst.{on_append-err}

next-eq-ok :
    {S A B : Type 0} (t : Result A × World S) (f : A → Step S B) {b : B}
    → (next t f).0 ≡ ok b
    → (a : A) × (t.0 ≡ ok a) × ((f a t.1).0 ≡ ok b)
next-eq-ok (ok a, v) f h = (a, refl, h)
next-eq-ok (err e, v) f h = absurd (err≢ok h)

module _ {S : Type 0} (decimal : ℕ → String) (ports : Ports S) (config : Config) where
  record_outcome-eq_ok :
      (r : Request) (d : AuthorizationDecision) (receipt : EvidenceReceipt) (x : ExecutionOutcome)
      (w : World S) (o : DecisionOutcome)
      → (record_outcome decimal ports config r d receipt x w).0 ≡ ok o
      → (o.receipt ≡ receipt) × (o.decision ≡ d) × (o.decision_id ≡ r.decision_id)
  unfolding record_outcome
  record_outcome-eq_ok r d receipt x w o h =
      let (_, _, made) =
        next-eq-ok
          ((attempt (
                call
                  (λ _.
                    appended_outcome receipt (record { decision_id = r.decision_id; outcome = x }))
                  (ports.append_outcome receipt
                    (record { decision_id = r.decision_id; outcome = x })))
              >>= on_append_outcome decimal ports config)
            w)
          _ h in
      (cc, cc, cc)

  -- The record that the store holds for an outcome.
  abbrev pub Stored : DecisionOutcome → Type 0
  Stored o =
      (i : IntentRecord) × (s : S) × ((ports.append_intent i s).0 ≡ ok o.receipt)
      × (i.decision ≡ o.decision)
      × (i.decision_id ≡ o.decision_id)

  on_append-eq_ok :
      (r : Request) (j : Judgement) (a : Result EvidenceReceipt) (w : World S)
      (receipt : EvidenceReceipt)
      → (on_append decimal ports config r j a w).0 ≡ ok receipt
      → a ≡ ok receipt
  unfolding on_append
  on_append-eq_ok r j (ok held) w receipt h = h
  on_append-eq_ok r j (err e) w receipt h =
      let (e2, raised) = on_append-err decimal ports config r j e w in
      absurd (err≢ok (sym raised ∙ h))

  append_record-eq_ok :
      (r : Request) (j : Judgement) (i : IntentRecord) (w : World S) (receipt : EvidenceReceipt)
      → (append_record decimal ports config r j i w).0 ≡ ok receipt
      → (ports.append_intent i w.state).0 ≡ ok receipt
  unfolding append_record
  append_record-eq_ok r j i w receipt h =
      on_append-eq_ok r j (ports.append_intent i w.state).0
        (record {
          state = (ports.append_intent i w.state).1;
          calls = appended i (ports.append_intent i w.state).0 ∷ w.calls;
        })
        receipt h

  commit-Stored :
      (r : Request) (j : Judgement) (d : AuthorizationDecision) (w : World S) (o : DecisionOutcome)
      → (commit decimal ports config r j d w).0 ≡ ok o
      → Stored o
  unfolding commit finish
  commit-Stored r j d w o h =
      let (receipt, held, finished) =
        next-eq-ok
          ((checked (make_intent (intent_of decimal ports config r j d))
              >>= append_record decimal ports config r j)
            w)
          (finish decimal ports config r d) h in
      let (i, made, written) =
        next-eq-ok (make_intent (intent_of decimal ports config r j d), w)
          (append_record decimal ports config r j) held in
      let same = make_intent-eq_ok (intent_of decimal ports config r j d) i made in
      let (x, _, told) =
        next-eq-ok
          (dispatch_if_permitted decimal ports config r.action d.effect d receipt r.now
            r.suppress_dispatch
            ((checked (make_intent (intent_of decimal ports config r j d))
                >>= append_record decimal ports config r j)
              w).1)
          (record_outcome decimal ports config r d receipt) finished in
      let (same_receipt, same_decision, same_id) = record_outcome-eq_ok r d receipt x _ o told in
      (
        i,
        w.state,
        append_record-eq_ok r j i w receipt written ∙ ap ok (sym same_receipt),
        ap (λ y. y.decision) same ∙ sym same_decision,
        ap (λ y. y.decision_id) same ∙ sym same_id,
      )

  -- The evaluation never returns without evidence: where it returns, the evidence store accepted an
  -- intent record with the decision and the id that are returned, and answered with the receipt that
  -- is returned.
  pub evaluate-Stored :
      (r : Request) (w : World S) (o : DecisionOutcome)
      → (evaluate decimal ports config r w).0 ≡ ok o
      → Stored o
  unfolding evaluate conclude
  evaluate-Stored r w o h =
      let (a, _, h1) =
        next-eq-ok (authorise ports config r w)
          (λ authorised.
            constrain ports config r authorised.0 authorised.1 >>= conclude decimal ports config r)
          h in
      let (j, _, h2) =
        next-eq-ok (constrain ports config r a.0 a.1 (authorise ports config r w).1)
          (conclude decimal ports config r) h1 in
      let (d, _, h3) =
        next-eq-ok
          (materialize_approval_metadata decimal ports config r j.risk j.decision.effect j.decision
            (constrain ports config r a.0 a.1 (authorise ports config r w).1).1)
          (commit decimal ports config r j) h2 in
      commit-Stored r j d _ o h3
