-- ===== src/Service/Replay.antt =====
-- glassbox/app/decision_service.py: a replay has no effect. With dispatch suppressed, `_evaluate`
-- neither dispatches nor opens an approval workflow, on any path.
use glassbox_agentic_governa.Prelude.{
  ℕ, ◌≡◌, refl, String, Bool, true, false, Option, none, some, List, [], ◌∷◌, if◌then◌else◌, not,
  ◌||◌, is_empty,
}
use glassbox_agentic_governa.Errors.{
  Result, ok, err, is_evidence_write_error, is_signing_unavailable,
}
use glassbox_agentic_governa.Risk.{RiskScore}
use glassbox_agentic_governa.Decision.{
  AuthorizationDecision, DecisionEffect, deny, allow, require_approval, blocking_obligations,
  or_else, pending, ExecutionOutcome,
}
use glassbox_agentic_governa.Evidence.{make_intent, EvidenceReceipt}
use glassbox_agentic_governa.Service.Ports.{
  Ports, Port, Config, World, Call, Step, pure, raise, attempt, checked, call, ◌>>=◌, ◌>>◌,
  appended, dispatched, appended_outcome, created_workflow,
}
use glassbox_agentic_governa.Service.Budget.{release_limit_budget, holds_budget}
use glassbox_agentic_governa.Service.Evaluate.{Request, Judgement, authorise, constrain}
use glassbox_agentic_governa.Service.Conclude.{
  conclude, evaluate, finish, record_outcome, append_record, commit, dispatch_if_permitted,
  dispatch_allowed, on_append, on_append_outcome, materialize_approval_metadata, mint_approval_id,
  open_workflow, intent_of,
}
use glassbox_agentic_governa.Service.Quiet.{is_quiet, Preserves, Preserves-bind, Preserves-if}
use glassbox_agentic_governa.Service.Stages.{
  authorise-Preserves, constrain-Preserves, release_from-Preserves,
}

abbrev pub is_effect : Call → Bool
is_effect (dispatched a r) = true
is_effect (created_workflow i) = true
is_effect _ = false

abbrev pub effects : List Call → List Call
effects [] = []
effects (c ∷ calls) = if is_effect c then c ∷ effects calls else effects calls

quiet-effects : (c : Call) → is_quiet c ≡ true → is_effect c ≡ false
quiet-effects (dispatched a r) h = cc
quiet-effects (created_workflow i) h = cc
quiet-effects _ h = refl

abbrev pub Same : List Call → List Call → Type 0
Same before calls = effects calls ≡ before

other-Same :
    (before : List Call) (c : Call) (calls : List Call)
    → is_effect c ≡ false
    → Same before calls
    → Same before (c ∷ calls)
other-Same before c calls h p = rw h p

module _ {S : Type 0} (decimal : ℕ → String) (ports : Ports S) (config : Config)
    (before : List Call) where
  pub quiet-Same :
      (c : Call) (calls : List Call)
      → is_quiet c ≡ true
      → Same before calls
      → Same before (c ∷ calls)
  quiet-Same c calls h p = other-Same before c calls (quiet-effects c h) p

  ask-Same :
      {A B : Type 0} (log : Result A → Call) (port : Port S A) (k : Result A → Step S B)
      → ((a : Result A) → is_effect (log a) ≡ false)
      → ((a : Result A) → Preserves (Same before) (k a))
      → Preserves (Same before) (attempt (call log port) >>= k)
  ask-Same log port k h hk w p =
      hk (port w.state).0
        (record { state = (port w.state).1; calls = log (port w.state).0 ∷ w.calls })
        (other-Same before (log (port w.state).0) w.calls (h (port w.state).0) p)

  mint_approval_id-Same :
      (id : Option String) → Preserves (Same before) (mint_approval_id decimal ports config id)
  unfolding mint_approval_id
  mint_approval_id-Same none = λ w p. p
  mint_approval_id-Same (some id) = λ w p. p

  open_workflow-Same :
      (r : Request) (s : RiskScore) (d : AuthorizationDecision)
      → r.suppress_dispatch ≡ true
      → Preserves (Same before) (open_workflow decimal ports config r s d)
  unfolding open_workflow
  open_workflow-Same r s d h w p = rw h p

  materialize-Same :
      (r : Request) (s : RiskScore) (e : DecisionEffect) (d : AuthorizationDecision)
      → r.suppress_dispatch ≡ true
      → Preserves (Same before) (materialize_approval_metadata decimal ports config r s e d)
  unfolding materialize_approval_metadata
  materialize-Same r s require_approval d h =
      Preserves-bind (Same before) (mint_approval_id decimal ports config d.approval_id)
        (λ id. open_workflow decimal ports config r s (record d {
          approval_id = some id;
          approval_state = or_else d.approval_state (some pending);
        }))
        (mint_approval_id-Same d.approval_id) (λ id. open_workflow-Same r s _ h)
  materialize-Same r s deny d h = λ w p. p
  materialize-Same r s allow d h = λ w p. p

  dispatch_if_permitted-Same :
      (r : Request) (e : DecisionEffect) (d : AuthorizationDecision) (receipt : EvidenceReceipt)
      (b : Bool)
      → b ≡ true
      → Preserves
          (Same before)
          (dispatch_if_permitted decimal ports config r.action e d receipt r.now b)
  unfolding dispatch_if_permitted dispatch_allowed
  dispatch_if_permitted-Same r deny d receipt b h = λ w p. p
  dispatch_if_permitted-Same r require_approval d receipt b h = λ w p. p
  dispatch_if_permitted-Same r allow d receipt b h =
      Preserves-if (Same before) (not (is_empty (blocking_obligations d))) (pure _) _ (λ w p. p)
        (λ w p. rw h p)

  on_append_outcome-Same :
      (a : Result (Unit {0})) → Preserves (Same before) (on_append_outcome decimal ports config a)
  on_append_outcome-Same (ok u) = λ w p. p
  on_append_outcome-Same (err e) =
      Preserves-if (Same before) (is_evidence_write_error e) (pure tt) (raise e) (λ w p. p)
        (λ w p. p)

  record_outcome-Same :
      (r : Request) (d : AuthorizationDecision) (receipt : EvidenceReceipt) (x : ExecutionOutcome)
      → Preserves (Same before) (record_outcome decimal ports config r d receipt x)
  unfolding record_outcome
  record_outcome-Same r d receipt x =
      Preserves-bind (Same before)
        (attempt (
            call
              (λ _. appended_outcome receipt (record { decision_id = r.decision_id; outcome = x }))
              (ports.append_outcome receipt (record { decision_id = r.decision_id; outcome = x })))
          >>= on_append_outcome decimal ports config)
        (λ _. pure _)
        (ask-Same
          (λ _. appended_outcome receipt (record { decision_id = r.decision_id; outcome = x }))
          (ports.append_outcome receipt (record { decision_id = r.decision_id; outcome = x }))
          (on_append_outcome decimal ports config) (λ a. refl) on_append_outcome-Same)
        (λ u w p. p)

  on_append-Same :
      (r : Request) (j : Judgement) (a : Result EvidenceReceipt)
      → Preserves (Same before) (on_append decimal ports config r j a)
  unfolding on_append
  on_append-Same r j (ok receipt) = λ w p. p
  on_append-Same r j (err e) =
      Preserves-if (Same before) (is_evidence_write_error e || is_signing_unavailable e)
        (release_limit_budget ports config j.limit_key j.verdicts r.decision_id true >> raise e)
        (raise e)
        (Preserves-bind (Same before)
          (release_limit_budget ports config j.limit_key j.verdicts r.decision_id true)
          (λ _. raise e)
          (release_from-Preserves (Same before) quiet-Same ports config j.limit_key
            (holds_budget j.verdicts) r.decision_id true)
          (λ u w p. p))
        (λ w p. p)

  finish-Same :
      (r : Request) (d : AuthorizationDecision) (receipt : EvidenceReceipt)
      → r.suppress_dispatch ≡ true
      → Preserves (Same before) (finish decimal ports config r d receipt)
  unfolding finish
  finish-Same r d receipt h =
      Preserves-bind (Same before)
        (dispatch_if_permitted decimal ports config r.action d.effect d receipt r.now
          r.suppress_dispatch)
        (record_outcome decimal ports config r d receipt)
        (dispatch_if_permitted-Same r d.effect d receipt r.suppress_dispatch h)
        (record_outcome-Same r d receipt)

  commit-Same :
      (r : Request) (j : Judgement) (d : AuthorizationDecision)
      → r.suppress_dispatch ≡ true
      → Preserves (Same before) (commit decimal ports config r j d)
  unfolding commit append_record
  commit-Same r j d h =
      Preserves-bind (Same before)
        (checked (make_intent (intent_of decimal ports config r j d))
          >>= append_record decimal ports config r j)
        (finish decimal ports config r d)
        (Preserves-bind (Same before) (checked (make_intent (intent_of decimal ports config r j d)))
          (append_record decimal ports config r j) (λ w p. p)
          (λ i.
            ask-Same (appended i) (ports.append_intent i) (on_append decimal ports config r j)
              (λ a. refl) (on_append-Same r j)))
        (λ receipt. finish-Same r d receipt h)

  pub evaluate-Same :
      (r : Request)
      → r.suppress_dispatch ≡ true
      → Preserves (Same before) (evaluate decimal ports config r)
  unfolding evaluate conclude
  evaluate-Same r h =
      Preserves-bind (Same before) (authorise ports config r)
        (λ authorised.
          constrain ports config r authorised.0 authorised.1 >>= conclude decimal ports config r)
        (authorise-Preserves (Same before) quiet-Same ports config r)
        (λ authorised.
          Preserves-bind (Same before) (constrain ports config r authorised.0 authorised.1)
            (conclude decimal ports config r)
            (constrain-Preserves (Same before) quiet-Same ports config r authorised.0 authorised.1)
            (λ j.
              Preserves-bind (Same before)
                (materialize_approval_metadata decimal ports config r j.risk j.decision.effect
                  j.decision)
                (commit decimal ports config r j)
                (materialize-Same r j.risk j.decision.effect j.decision h)
                (λ d. commit-Same r j d h)))

-- A replay, which is an evaluation with dispatch suppressed, adds no dispatch and no approval
-- workflow to the call log, whatever the ports answer and wherever it stops.
pub evaluate-replay :
    {S : Type 0} (decimal : ℕ → String) (ports : Ports S) (config : Config) (r : Request)
    (w : World S)
    → r.suppress_dispatch ≡ true
    → effects ((evaluate decimal ports config r w).1).calls ≡ effects w.calls
evaluate-replay decimal ports config r w h =
    evaluate-Same decimal ports config (effects w.calls) r h w refl
