-- ===== src/Service/Trace.antt =====
-- glassbox/app/decision_service.py: evidence before effect. What the call log of `_evaluate` looks
-- like, on every path and whatever the ports answer.
use glassbox_agentic_governa.Prelude.{
  ℕ, ◌≡◌, refl, ap, String, Bool, true, Option, none, some, List, [], ◌∷◌, not, ◌||◌, is_empty,
  ◌==◌, string_eq, Bool-cases, inl, inr,
}
use glassbox_agentic_governa.Prelude.Text.{codes}
use glassbox_agentic_governa.Errors.{
  GlassBoxError, Result, ok, err, require, >>=-eq-ok, is_evidence_write_error,
  is_signing_unavailable, is_dispatch_error,
}
use glassbox_agentic_governa.Serialization.{require_identifier, require_timestamp}
use glassbox_agentic_governa.Action.{ProposedAction, with_redacted_parameters}
use glassbox_agentic_governa.Risk.{RiskScore}
use glassbox_agentic_governa.Decision.{
  AuthorizationDecision, DecisionEffect, deny, allow, require_approval, is_allow,
  blocking_obligations, or_else, pending, optional_identifier, ExecutionOutcome,
}
use glassbox_agentic_governa.Evidence.{IntentRecord, make_intent, EvidenceReceipt}
use glassbox_agentic_governa.Service.Ports.{
  Ports, Port, Config, World, Call, Step, pure, raise, attempt, call, ◌>>=◌, ◌>>◌, appended,
  dispatched, appended_outcome, created_workflow,
}
use glassbox_agentic_governa.Service.Budget.{release_limit_budget, holds_budget}
use glassbox_agentic_governa.Service.Evaluate.{Request, Judgement}
use glassbox_agentic_governa.Service.Conclude.{
  finish, record_outcome, dispatch_if_permitted, dispatch_allowed, on_dispatch, on_append,
  on_append_outcome, materialize_approval_metadata, mint_approval_id, open_workflow, on_workflow,
}
use glassbox_agentic_governa.Service.Quiet.{
  is_quiet, Preserves, Preserves-next, Preserves-bind, Preserves-if,
}
use glassbox_agentic_governa.Service.Stages.{release_from-Preserves}

-- A dispatch is justified by the call right before it: the intent record of the same action was
-- appended, redacted by a list of fields that satisfies `Q`, it carries a decision that allows the
-- action and has no blocking obligation, and the store answered with the receipt that the dispatch
-- presents.
pub record Evidenced (Q : List String → Type 0) (a : ProposedAction) (receipt : EvidenceReceipt)
    (calls : List Call) : Type 0 where
  pub intent : IntentRecord
  pub earlier : List Call
  pub fields : List String
  pub is_due : Q fields
  pub is_last : calls ≡ appended intent (ok receipt) ∷ earlier
  pub same_action : intent.action ≡ with_redacted_parameters fields a
  pub allows : is_allow intent.decision.effect ≡ true
  pub unblocked : is_empty (blocking_obligations intent.decision) ≡ true

abbrev pub Justified : (List String → Type 0) → Call → List Call → Type 0
Justified Q (dispatched a receipt) calls = Evidenced Q a receipt calls
Justified Q _ calls = Unit

-- Every dispatch of a log is justified.
abbrev pub Safe : (List String → Type 0) → List Call → Type 0
Safe Q [] = Unit
Safe Q (c ∷ calls) = Justified Q c calls × Safe Q calls

pub quiet-Safe :
    (Q : List String → Type 0) (c : Call) (calls : List Call)
    → is_quiet c ≡ true
    → Safe Q calls
    → Safe Q (c ∷ calls)
quiet-Safe Q (dispatched a receipt) calls h s = cc
quiet-Safe Q _ calls h s = (tt, s)

pub make_intent-eq_ok : (i j : IntentRecord) → make_intent i ≡ ok j → j ≡ i
unfolding make_intent
make_intent-eq_ok i j h =
    let (_, _, h1) = >>=-eq-ok (require_identifier (codes i.decision_id) "decision_id") _ h in
    let (_, _, h2) = >>=-eq-ok (require_identifier (codes i.segment_id) "segment_id") _ h1 in
    let (_, _, h3) = >>=-eq-ok (require_identifier (codes i.tenant_id) "tenant_id") _ h2 in
    let (_, _, h4) = >>=-eq-ok (require_timestamp i.created_at "created_at") _ h3 in
    let (_, _, h5) = >>=-eq-ok (require_identifier (codes i.trace_id) "trace_id") _ h4 in
    let (_, _, h6) = >>=-eq-ok (optional_identifier i.causation_id "causation_id") _ h5 in
    let (_, _, h7) = >>=-eq-ok (require (i.principal.tenant_id == i.tenant_id) _) _ h6 in
    let (_, _, h8) = >>=-eq-ok (require (i.action.resource.tenant_id == i.tenant_id) _) _ h7 in cc

module _ {S : Type 0} (Q : List String → Type 0) (decimal : ℕ → String) (ports : Ports S)
    (config : Config) where
  -- A call that needs no justification, and what follows it.
  Safe-ask :
      {A B : Type 0} (c : Call) (port : Port S A) (k : Result A → Step S B)
      → ((calls : List Call) → Justified Q c calls)
      → ((a : Result A) → Preserves (Safe Q) (k a))
      → Preserves (Safe Q) (attempt (call (λ _. c) port) >>= k)
  Safe-ask c port k j hk w p =
      hk (port w.state).0 (record { state = (port w.state).1; calls = c ∷ w.calls }) (j w.calls, p)

  mint_approval_id-Safe :
      (id : Option String) → Preserves (Safe Q) (mint_approval_id decimal ports config id)
  unfolding mint_approval_id
  mint_approval_id-Safe none = λ w p. (tt, p)
  mint_approval_id-Safe (some id) = λ w p. p

  on_workflow-Safe :
      (d : AuthorizationDecision) (a : Result String)
      → Preserves (Safe Q) (on_workflow decimal ports config d a)
  on_workflow-Safe d (ok id) = λ w p. p
  on_workflow-Safe d (err e) = λ w p. p

  open_workflow-Safe :
      (r : Request) (s : RiskScore) (d : AuthorizationDecision)
      → Preserves (Safe Q) (open_workflow decimal ports config r s d)
  unfolding open_workflow
  open_workflow-Safe r s d =
      Preserves-if (Safe Q) (r.suppress_dispatch || not config.has_workflow_engine) (pure d)
        (attempt (
            call (λ _. created_workflow r.decision_id)
              (ports.create_from_decision r.decision_id r.principal r.action s))
          >>= on_workflow decimal ports config d)
        (λ w p. p)
        (Safe-ask (created_workflow r.decision_id)
          (ports.create_from_decision r.decision_id r.principal r.action s)
          (on_workflow decimal ports config d) (λ calls. tt) (on_workflow-Safe d))

  pub materialize-Safe :
      (r : Request) (s : RiskScore) (e : DecisionEffect) (d : AuthorizationDecision)
      → Preserves (Safe Q) (materialize_approval_metadata decimal ports config r s e d)
  unfolding materialize_approval_metadata
  materialize-Safe r s require_approval d =
      Preserves-bind (Safe Q) (mint_approval_id decimal ports config d.approval_id)
        (λ id. open_workflow decimal ports config r s (record d {
          approval_id = some id;
          approval_state = or_else d.approval_state (some pending);
        }))
        (mint_approval_id-Safe d.approval_id) (λ id. open_workflow-Safe r s _)
  materialize-Safe r s deny d = λ w p. p
  materialize-Safe r s allow d = λ w p. p

  on_dispatch-Safe :
      (now : ℕ) (a : Result ExecutionOutcome)
      → Preserves (Safe Q) (on_dispatch decimal ports config now a)
  unfolding on_dispatch
  on_dispatch-Safe now (ok o) = λ w p. p
  on_dispatch-Safe now (err e) =
      Preserves-if (Safe Q) (is_dispatch_error e) (pure _) (raise e) (λ w p. p) (λ w p. p)

  -- What the log says when a receipt is at hand: the last call appended the intent of the decision.
  abbrev pub Receipted : Request → AuthorizationDecision → EvidenceReceipt → World S → Type 0
  Receipted r d receipt w =
      (i : IntentRecord) × (earlier : List Call) × (w.calls ≡ appended i (ok receipt) ∷ earlier)
      × (i.action ≡ with_redacted_parameters r.sensitive_parameter_fields r.action)
      × (i.decision ≡ d)
      × Q r.sensitive_parameter_fields

  dispatch_allowed-Safe :
      (r : Request) (d : AuthorizationDecision) (receipt : EvidenceReceipt) (suppressed : Bool)
      (w : World S)
      → is_allow d.effect ≡ true
      → Receipted r d receipt w
      → Safe Q w.calls
      → Safe Q
          ((dispatch_allowed decimal ports config r.action d receipt r.now suppressed w).1).calls
  unfolding dispatch_allowed
  dispatch_allowed-Safe r d receipt suppressed w allows (i, earlier, last, same, decided, due) p =
      elim (Bool-cases (is_empty (blocking_obligations d))) [
        | inr blocked ↦ rw blocked p
        | inl free ↦ elim (Bool-cases suppressed) [
          | inl replay ↦ rw (free, replay) p
          | inr live ↦
              let log : List Call = dispatched r.action receipt ∷ w.calls in
              let port = ports.dispatch r.action receipt config.default_timeout_s r.now in
              let evidence : Evidenced Q r.action receipt w.calls = record {
                intent = i;
                earlier = earlier;
                fields = r.sensitive_parameter_fields;
                is_due = due;
                is_last = last;
                same_action = same;
                allows = rw decided allows;
                unblocked = rw decided free;
              } in
              rw (free, live)
                (on_dispatch-Safe r.now (port w.state).0
                  (record { state = (port w.state).1; calls = log }) (evidence, p))
        ]
      ]

  dispatch_if_permitted-Safe :
      (r : Request) (d : AuthorizationDecision) (e : DecisionEffect) (receipt : EvidenceReceipt)
      (suppressed : Bool) (w : World S)
      → d.effect ≡ e
      → Receipted r d receipt w
      → Safe Q w.calls
      → Safe Q
          ((dispatch_if_permitted decimal ports config r.action e d receipt r.now suppressed w).1
            ).calls
  unfolding dispatch_if_permitted
  dispatch_if_permitted-Safe r d deny receipt b w h held p = p
  dispatch_if_permitted-Safe r d require_approval receipt b w h held p = p
  dispatch_if_permitted-Safe r d allow receipt b w h held p =
      dispatch_allowed-Safe r d receipt b w (ap is_allow h) held p

  on_append_outcome-Safe :
      (a : Result (Unit {0})) → Preserves (Safe Q) (on_append_outcome decimal ports config a)
  on_append_outcome-Safe (ok u) = λ w p. p
  on_append_outcome-Safe (err e) =
      Preserves-if (Safe Q) (is_evidence_write_error e) (pure tt) (raise e) (λ w p. p) (λ w p. p)

  record_outcome-Safe :
      (r : Request) (d : AuthorizationDecision) (receipt : EvidenceReceipt) (x : ExecutionOutcome)
      → Preserves (Safe Q) (record_outcome decimal ports config r d receipt x)
  unfolding record_outcome
  record_outcome-Safe r d receipt x =
      Preserves-bind (Safe Q)
        (attempt (
            call
              (λ _. appended_outcome receipt (record { decision_id = r.decision_id; outcome = x }))
              (ports.append_outcome receipt (record { decision_id = r.decision_id; outcome = x })))
          >>= on_append_outcome decimal ports config)
        (λ _. pure _)
        (Safe-ask (appended_outcome receipt (record { decision_id = r.decision_id; outcome = x }))
          (ports.append_outcome receipt (record { decision_id = r.decision_id; outcome = x }))
          (on_append_outcome decimal ports config) (λ calls. tt) on_append_outcome-Safe)
        (λ u w p. p)

  pub finish-Safe :
      (r : Request) (d : AuthorizationDecision) (receipt : EvidenceReceipt) (w : World S)
      → Receipted r d receipt w
      → Safe Q w.calls
      → Safe Q ((finish decimal ports config r d receipt w).1).calls
  unfolding finish
  finish-Safe r d receipt w held p =
      Preserves-next (Safe Q)
        (dispatch_if_permitted decimal ports config r.action d.effect d receipt r.now
          r.suppress_dispatch w)
        (record_outcome decimal ports config r d receipt) (record_outcome-Safe r d receipt)
        (dispatch_if_permitted-Safe r d d.effect receipt r.suppress_dispatch w refl held p)

  pub on_append-Safe :
      (r : Request) (j : Judgement) (e : GlassBoxError)
      → Preserves (Safe Q) (on_append decimal ports config r j (err e))
  unfolding on_append
  on_append-Safe r j e =
      Preserves-if (Safe Q) (is_evidence_write_error e || is_signing_unavailable e)
        (release_limit_budget ports config j.limit_key j.verdicts r.decision_id true >> raise e)
        (raise e)
        (Preserves-bind (Safe Q)
          (release_limit_budget ports config j.limit_key j.verdicts r.decision_id true)
          (λ _. raise e)
          (release_from-Preserves (Safe Q) (quiet-Safe Q) ports config j.limit_key
            (holds_budget j.verdicts) r.decision_id true)
          (λ u w p. p))
        (λ w p. p)
