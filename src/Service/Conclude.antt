-- ===== src/Service/Conclude.antt =====
-- glassbox/app/decision_service.py: the end of `_evaluate`, from the decision on: the approval
-- metadata, the evidence of the intent, the dispatch and the evidence of the outcome.
use glassbox_agentic_governa.Prelude.{
  ℕ, String, Bool, true, not, ◌||◌, Option, none, some, if◌then◌else◌, is_empty,
}
use glassbox_agentic_governa.Errors.{
  GlassBoxError, Result, ok, err, is_evidence_write_error, is_signing_unavailable,
  is_dispatch_error, dispatch_timeout, dispatch_refused,
}
use glassbox_agentic_governa.Action.{ProposedAction, with_redacted_parameters}
use glassbox_agentic_governa.Risk.{RiskScore}
use glassbox_agentic_governa.Decision.{
  AuthorizationDecision, DecisionEffect, deny, allow, require_approval, or_else, pending,
  blocking_obligations, ExecutionOutcome, ExecutionStatus, outcome,
}
use glassbox_agentic_governa.Evidence.{IntentRecord, make_intent, EvidenceReceipt}
use glassbox_agentic_governa.Service.Ports.{
  Ports, Config, Step, pure, raise, attempt, checked, call, ◌>>=◌, ◌>>◌, appended, dispatched,
  appended_outcome, created_workflow, minted_id,
}
use glassbox_agentic_governa.Service.Budget.{release_limit_budget}
use glassbox_agentic_governa.Service.Evaluate.{
  Request, DecisionOutcome, Judgement, segment_id_for, authorise, constrain,
}

abbrev pub error_class_of : GlassBoxError → String
error_class_of dispatch_timeout = "DispatchTimeoutError"
error_class_of dispatch_refused = "DispatchRefusedError"
error_class_of _ = "ToolOutputQuarantinedError"

module _ {S : Type 0} (decimal : ℕ → String) (ports : Ports S) (config : Config) where
  -- Whatever the workflow engine raises, the decision stays pending approval.
  abbrev pub on_workflow : AuthorizationDecision → Result String → Step S AuthorizationDecision
  on_workflow d (ok workflow_id) =
      pure (record d { approval_id = some workflow_id; approval_state = some pending })
  on_workflow d (err e) = pure d

  unfoldable pub mint_approval_id : Option String → Step S String
  mint_approval_id none = call (λ _. minted_id) (ports.new_id "approval")
  mint_approval_id (some id) = pure id

  unfoldable pub open_workflow :
      Request → RiskScore → AuthorizationDecision → Step S AuthorizationDecision
  open_workflow r score d =
      if r.suppress_dispatch || not config.has_workflow_engine
      then pure d
      else (attempt (
            call (λ _. created_workflow r.decision_id)
              (ports.create_from_decision r.decision_id r.principal r.action score))
          >>= on_workflow d)

  -- _materialize_approval_metadata
  unfoldable pub materialize_approval_metadata :
      Request → RiskScore → DecisionEffect → AuthorizationDecision → Step S AuthorizationDecision
  materialize_approval_metadata r score require_approval d =
      mint_approval_id d.approval_id >>= λ id.
      open_workflow r score (record d {
        approval_id = some id;
        approval_state = or_else d.approval_state (some pending);
      })
  materialize_approval_metadata r score deny d = pure d
  materialize_approval_metadata r score allow d = pure d

  unfoldable pub on_dispatch : ℕ → Result ExecutionOutcome → Step S ExecutionOutcome
  on_dispatch now (ok o) = pure o
  on_dispatch now (err e) =
      if is_dispatch_error e
      then pure
          (record (outcome ExecutionStatus.failed now) { error_class = some (error_class_of e) })
      else raise e

  unfoldable pub dispatch_allowed :
      ProposedAction → AuthorizationDecision → EvidenceReceipt → ℕ → Bool → Step S ExecutionOutcome
  dispatch_allowed a d receipt now suppressed =
      if not (is_empty (blocking_obligations d))
      then pure (outcome ExecutionStatus.pending_approval now)
      else if suppressed
      then pure (outcome ExecutionStatus.replayed now)
      else (attempt (
            call (λ _. dispatched a receipt)
              (ports.dispatch a receipt config.default_timeout_s now))
          >>= on_dispatch now)

  -- _dispatch_if_permitted
  unfoldable pub dispatch_if_permitted :
      ProposedAction
      → DecisionEffect
      → AuthorizationDecision
      → EvidenceReceipt
      → ℕ
      → Bool
      → Step S ExecutionOutcome
  dispatch_if_permitted a deny d receipt now suppressed = pure (outcome ExecutionStatus.denied now)
  dispatch_if_permitted a require_approval d receipt now suppressed =
      pure (outcome ExecutionStatus.pending_approval now)
  dispatch_if_permitted a allow d receipt now suppressed =
      dispatch_allowed a d receipt now suppressed

  abbrev pub intent_of : Request → Judgement → AuthorizationDecision → IntentRecord
  intent_of r j d = record {
    decision_id = r.decision_id;
    segment_id = segment_id_for decimal config r.principal.tenant_id r.now;
    tenant_id = r.principal.tenant_id;
    created_at = r.now;
    principal = r.principal;
    action = with_redacted_parameters r.sensitive_parameter_fields r.action;
    decision = d;
    risk = j.risk;
    trace_id = r.trace_id;
    limits = j.verdicts;
    stages = j.stages;
    causation_id = r.causation_id;
  }

  -- A failed write releases the budget and goes on to the caller.
  unfoldable pub on_append : Request → Judgement → Result EvidenceReceipt → Step S EvidenceReceipt
  on_append r j (ok receipt) = pure receipt
  on_append r j (err e) =
      if is_evidence_write_error e || is_signing_unavailable e
      then (release_limit_budget ports config j.limit_key j.verdicts r.decision_id true >> raise e)
      else raise e

  abbrev pub on_append_outcome : Result (Unit {0}) → Step S (Unit {0})
  on_append_outcome (ok _) = pure tt
  on_append_outcome (err e) = if is_evidence_write_error e then pure tt else raise e

  -- The evidence of the outcome, off the critical path: a failed write is only logged.
  unfoldable pub record_outcome :
      Request → AuthorizationDecision → EvidenceReceipt → ExecutionOutcome → Step S DecisionOutcome
  record_outcome r d receipt execution =
      attempt (
        call
          (λ _.
            appended_outcome receipt (record { decision_id = r.decision_id; outcome = execution }))
          (ports.append_outcome receipt
            (record { decision_id = r.decision_id; outcome = execution })))
      >>= on_append_outcome
      >> pure (record {
        decision_id = r.decision_id;
        decision = d;
        receipt = receipt;
        execution = execution;
      })

  -- The dispatch, once a receipt is held.
  unfoldable pub finish : Request → AuthorizationDecision → EvidenceReceipt → Step S DecisionOutcome
  finish r d receipt =
      dispatch_if_permitted r.action d.effect d receipt r.now r.suppress_dispatch
      >>= record_outcome r d receipt

  unfoldable pub append_record : Request → Judgement → IntentRecord → Step S EvidenceReceipt
  append_record r j intent =
      attempt (call (appended intent) (ports.append_intent intent)) >>= on_append r j

  -- Once the decision is final: its record, and what follows from it.
  unfoldable pub commit : Request → Judgement → AuthorizationDecision → Step S DecisionOutcome
  commit r j d = checked (make_intent (intent_of r j d)) >>= append_record r j >>= finish r d

  unfoldable pub conclude : Request → Judgement → Step S DecisionOutcome
  conclude r j = materialize_approval_metadata r j.risk j.decision.effect j.decision >>= commit r j

  -- _evaluate
  unfoldable pub evaluate : Request → Step S DecisionOutcome
  evaluate r = authorise ports config r >>= λ authorised.
      constrain ports config r authorised.0 authorised.1 >>= conclude r
