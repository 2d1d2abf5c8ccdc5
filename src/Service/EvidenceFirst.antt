-- ===== src/Service/EvidenceFirst.antt =====
-- glassbox/app/decision_service.py: evidence before effect, for the whole of `_evaluate`.
use glassbox_agentic_governa.Prelude.{
  ℕ, List, ◌≡◌, refl, ap, String, true, ◌||◌, ◌∷◌, inl, inr, Bool-cases,
}
use glassbox_agentic_governa.Errors.{
  GlassBoxError, Result, Result-cases, ok, err, is_evidence_write_error, is_signing_unavailable,
}
use glassbox_agentic_governa.Action.{with_redacted_parameters}
use glassbox_agentic_governa.Decision.{AuthorizationDecision}
use glassbox_agentic_governa.Evidence.{IntentRecord, make_intent, EvidenceReceipt}
use glassbox_agentic_governa.Service.Ports.{
  Ports, Config, World, Step, raise, next, ◌>>=◌, appended,
}
use glassbox_agentic_governa.Service.Evaluate.{Request, Judgement, authorise, constrain}
use glassbox_agentic_governa.Service.Conclude.{
  conclude, evaluate, finish, append_record, commit, materialize_approval_metadata, intent_of,
  on_append,
}
use glassbox_agentic_governa.Service.Budget.{release_limit_budget}
use glassbox_agentic_governa.Service.Quiet.{Preserves, Preserves-bind}
use glassbox_agentic_governa.Service.Stages.{authorise-Preserves, constrain-Preserves}
use glassbox_agentic_governa.Service.Trace.{
  Safe, quiet-Safe, make_intent-eq_ok, materialize-Safe, finish-Safe, on_append-Safe,
}

module _ {S : Type 0} (decimal : ℕ → String) (ports : Ports S) (config : Config) where
  -- After a failed write nothing is returned.
  raised_after-release :
      {A : Type 0} (t : Result (Unit {0}) × World S) (e : GlassBoxError)
      → (e2 : GlassBoxError) × ((next t (λ _. raise {A = A} e)).0 ≡ err e2)
  raised_after-release (ok u, v) e = (e, refl)
  raised_after-release (err e2, v) e = (e2, refl)

  pub on_append-err :
      (r : Request) (j : Judgement) (e : GlassBoxError) (w : World S)
      → (e2 : GlassBoxError) × ((on_append decimal ports config r j (err e) w).0 ≡ err e2)
  unfolding on_append
  on_append-err r j e w =
      elim (Bool-cases (is_evidence_write_error e || is_signing_unavailable e)) [
        | inl releases ↦ rw releases (
            raised_after-release
              (release_limit_budget ports config j.limit_key j.verdicts r.decision_id true w) e)
        | inr other ↦ rw other (e, refl)
      ]

module _ {S : Type 0} (Q : List String → Type 0) (decimal : ℕ → String) (ports : Ports S)
    (config : Config) where
  -- The answer of the evidence store, and the world that the call leaves.
  abbrev answer : IntentRecord → World S → Result EvidenceReceipt
  answer i w = (ports.append_intent i w.state).0

  abbrev asked : IntentRecord → World S → World S
  asked i w = record {
    state = (ports.append_intent i w.state).1;
    calls = appended i (answer i w) ∷ w.calls;
  }

  Safe-raised :
      {A B : Type 0} (t : Result A × World S) (f : A → Step S B) (e : GlassBoxError)
      → t.0 ≡ err e
      → Safe Q t.1.calls
      → Safe Q ((next t f).1).calls
  Safe-raised (ok a, v) f e h p = cc
  Safe-raised (err e2, v) f e h p = p

  after_append-Safe :
      (r : Request) (j : Judgement) (d : AuthorizationDecision) (i : IntentRecord) (w : World S)
      (a : Result EvidenceReceipt)
      → answer i w ≡ a
      → i.action ≡ with_redacted_parameters r.sensitive_parameter_fields r.action
      → i.decision ≡ d
      → Q r.sensitive_parameter_fields
      → Safe Q w.calls
      → Safe Q
          ((next
              (on_append decimal ports config r j a (asked i w))
              (finish decimal ports config r d)).1
            ).calls
  unfolding on_append
  after_append-Safe r j d i w (ok receipt) h same decided due p =
      finish-Safe Q decimal ports config r d receipt (asked i w)
        (i, w.calls, ap (λ x. appended i x ∷ w.calls) h, same, decided, due) (tt, p)
  after_append-Safe r j d i w (err e) h same decided due p =
      let (e2, raised) = on_append-err decimal ports config r j e (asked i w) in
      Safe-raised (on_append decimal ports config r j (err e) (asked i w))
        (finish decimal ports config r d) e2 raised
        (on_append-Safe Q decimal ports config r j e (asked i w) (tt, p))

  pub commit-Safe :
      (r : Request) (j : Judgement) (d : AuthorizationDecision)
      → Q r.sensitive_parameter_fields
      → Preserves (Safe Q) (commit decimal ports config r j d)
  unfolding commit append_record
  commit-Safe r j d due w p =
      elim (Result-cases (make_intent (intent_of decimal ports config r j d))) [
        | inl (e, refused) ↦ rw refused p
        | inr (i, made) ↦
            let same = make_intent-eq_ok (intent_of decimal ports config r j d) i made in
            rw made (
              after_append-Safe r j d i w (answer i w) refl (ap (λ x. x.action) same)
                (ap (λ x. x.decision) same) due p)
      ]

  conclude-Safe :
      (r : Request) (j : Judgement)
      → Q r.sensitive_parameter_fields
      → Preserves (Safe Q) (conclude decimal ports config r j)
  unfolding conclude
  conclude-Safe r j due =
      Preserves-bind (Safe Q)
        (materialize_approval_metadata decimal ports config r j.risk j.decision.effect j.decision)
        (commit decimal ports config r j)
        (materialize-Safe Q decimal ports config r j.risk j.decision.effect j.decision)
        (λ d. commit-Safe r j d due)

  -- Whatever the ports answer and wherever the evaluation of a request stops, returning or raising,
  -- every dispatch that it adds to the log is justified: the call right before it appended the
  -- intent record of that action, the store answered with the receipt that the dispatch presents,
  -- and the recorded decision allows the action and has no blocking obligation. The recorded
  -- action is the dispatched one with exactly the sensitive parameter fields of the request
  -- redacted: `Q` is any property of lists of fields that this list has, such as to be equal to it.
  pub evaluate-Safe :
      (r : Request)
      → Q r.sensitive_parameter_fields
      → Preserves (Safe Q) (evaluate decimal ports config r)
  unfolding evaluate
  evaluate-Safe r due =
      Preserves-bind (Safe Q) (authorise ports config r)
        (λ authorised.
          constrain ports config r authorised.0 authorised.1 >>= conclude decimal ports config r)
        (authorise-Preserves (Safe Q) (quiet-Safe Q) ports config r)
        (λ authorised.
          Preserves-bind (Safe Q) (constrain ports config r authorised.0 authorised.1)
            (conclude decimal ports config r)
            (constrain-Preserves (Safe Q) (quiet-Safe Q) ports config r authorised.0 authorised.1)
            (λ j. conclude-Safe r j due))
