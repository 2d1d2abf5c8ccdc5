-- ===== src/Service/EntryQuiet.antt =====
-- glassbox/app/decision_service.py: the entry points keep every property of the call log that quiet
-- calls and `_evaluate` keep.
use glassbox_agentic_governa.Prelude.{
  ℕ, ◌≡◌, refl, String, Bool, true, false, not, Option, none, some, List, [], ◌∷◌, is_empty, ◌==◌,
  string_eq,
}
use glassbox_agentic_governa.Errors.{Result, ok, err, require, domain_validation}
use glassbox_agentic_governa.Action.{ProposedAction, ResourceRef, Parameters}
use glassbox_agentic_governa.Mandate.{Digest}
use glassbox_agentic_governa.Evidence.{VerifiedPrincipal}
use glassbox_agentic_governa.Catalogue.{ActionDefinition, validate_parameters}
use glassbox_agentic_governa.ToolRegistry.{ToolDefinition}
use glassbox_agentic_governa.Identity.{DelegationHop, require_valid_at}
use glassbox_agentic_governa.Service.Ports.{
  Ports, Config, Step, Call, pure, raise, checked, call, ◌>>◌, minted_id, read_clock,
  verified_identity, resolved_tool, resolved_action, resolved_attestation,
}
use glassbox_agentic_governa.Service.Evaluate.{Request}
use glassbox_agentic_governa.Service.Conclude.{evaluate}
use glassbox_agentic_governa.Service.Entry.{
  EntryPorts, action_of, Correlation, on_tool, check_tool_registry, is_attestation_unavailable,
  on_attestation, first_unsatisfied_attestation, scan_untrusted_text_fields, on_unsatisfied,
  vet_action, on_action, check_catalogue, id_or_new, on_verified, verify_principal, opened,
  decide_opened, decide_and_dispatch, request_resolved, decide_and_dispatch_for_request,
  tool_resolved, decide_and_dispatch_for_tool_call, moment, replay,
}
use glassbox_agentic_governa.Service.Quiet.{
  is_quiet, Preserves, Preserves-bind, Preserves-if, Preserves-ask,
}

module _ {S C : Type 0} (P : List Call → Type 0)
    (quiet : (c : Call) (cs : List Call) → is_quiet c ≡ true → P cs → P (c ∷ cs))
    (decimal : ℕ → String) (ports : Ports S) (entry : EntryPorts S C) (config : Config) where
  on_tool-Preserves :
      (x : ResourceRef) (name : String) (a : Parameters) (key : String) (r : Result ToolDefinition)
      → Preserves P (on_tool decimal ports entry config x name a key r)
  on_tool-Preserves x name a key (ok t) =
      Preserves-bind P (checked (action_of t.action x a key)) _ (λ w p. p) (λ action w p. p)
  on_tool-Preserves x name a key (err e) = λ w p. p

  pub check_tool_registry-Preserves :
      (x : ResourceRef) (name : String) (d : Digest) (a : Parameters) (key : String)
      → Preserves P (check_tool_registry decimal ports entry config x name d a key)
  unfolding check_tool_registry
  check_tool_registry-Preserves x name d a key =
      Preserves-ask P quiet ports config resolved_tool (entry.resolve_tool x.tenant_id name d)
        (on_tool decimal ports entry config x name a key) refl (on_tool-Preserves x name a key)

  on_attestation-Preserves :
      (name : String) (rest : Step S (Option String)) (r : Result Bool)
      → Preserves P rest
      → Preserves P (on_attestation decimal ports entry config name rest r)
  on_attestation-Preserves name rest (ok true) h = h
  on_attestation-Preserves name rest (ok false) h = λ w p. p
  on_attestation-Preserves name rest (err e) h =
      Preserves-if P (is_attestation_unavailable e) (pure _) (raise e) (λ w p. p) (λ w p. p)

  first_unsatisfied_attestation-Preserves :
      (x : ResourceRef) (now : ℕ) (names : List String)
      → Preserves P (first_unsatisfied_attestation decimal ports entry config x now names)
  unfolding first_unsatisfied_attestation
  first_unsatisfied_attestation-Preserves x now [] = λ w p. p
  first_unsatisfied_attestation-Preserves x now (name ∷ names) =
      let rest = first_unsatisfied_attestation decimal ports entry config x now names in
      Preserves-ask P quiet ports config resolved_attestation
        (entry.resolve_attestation x.tenant_id x name now)
        (on_attestation decimal ports entry config name rest) refl
        (λ r.
          on_attestation-Preserves name rest r
            (first_unsatisfied_attestation-Preserves x now names))

  on_unsatisfied-Preserves :
      (d : ActionDefinition) (action : ProposedAction) (unsatisfied : Option String)
      → Preserves P (on_unsatisfied decimal ports entry config d action unsatisfied)
  on_unsatisfied-Preserves d action none = λ w p. p
  on_unsatisfied-Preserves d action (some name) = λ w p. p

  vet_action-Preserves :
      (d : ActionDefinition) (action : ProposedAction) (x : ResourceRef) (a : Parameters) (now : ℕ)
      → Preserves P (vet_action decimal ports entry config d action x a now)
  unfolding vet_action
  vet_action-Preserves d action x a now =
      Preserves-if P (not (is_empty (validate_parameters d a))) (raise _) _ (λ w p. p)
        (Preserves-if P (not (is_empty (scan_untrusted_text_fields decimal ports entry config d a)))
          (pure _) _ (λ w p. p)
          (Preserves-bind P
            (first_unsatisfied_attestation decimal ports entry config x now d.required_attestations)
            (on_unsatisfied decimal ports entry config d action)
            (first_unsatisfied_attestation-Preserves x now d.required_attestations)
            (on_unsatisfied-Preserves d action)))

  on_action-Preserves :
      (x : ResourceRef) (name : String) (a : Parameters) (key : String) (now : ℕ)
      (r : Result ActionDefinition)
      → Preserves P (on_action decimal ports entry config x name a key now r)
  on_action-Preserves x name a key now (ok d) =
      Preserves-bind P (checked (action_of d x a key)) _ (λ w p. p)
        (λ action. vet_action-Preserves d action x a now)
  on_action-Preserves x name a key now (err e) = λ w p. p

  pub check_catalogue-Preserves :
      (x : ResourceRef) (name : String) (a : Parameters) (key : String) (now : ℕ)
      → Preserves P (check_catalogue decimal ports entry config x name a key now)
  unfolding check_catalogue
  check_catalogue-Preserves x name a key now =
      Preserves-ask P quiet ports config resolved_action (entry.resolve_action x.tenant_id name)
        (on_action decimal ports entry config x name a key now) refl
        (on_action-Preserves x name a key now)

  minted-Preserves :
      (prefix : String) → Preserves P (call {S = S} (λ _. minted_id) (ports.new_id prefix))
  minted-Preserves prefix w p = quiet minted_id w.calls refl p

  id_or_new-Preserves :
      (prefix : String) (id : Option String)
      → Preserves P (id_or_new decimal ports entry config prefix id)
  unfolding id_or_new
  id_or_new-Preserves prefix none = minted-Preserves prefix
  id_or_new-Preserves prefix (some given) =
      Preserves-if P (given == "") (call (λ _. minted_id) (ports.new_id prefix)) (pure given)
        (minted-Preserves prefix) (λ w p. p)

  pub opened-Preserves : (c : Correlation) → Preserves P (opened decimal ports entry config c)
  unfolding opened
  opened-Preserves c =
      Preserves-bind P (call (λ _. read_clock) entry.clock_now) _
        (λ w p. quiet read_clock w.calls refl p)
        (λ now.
          Preserves-bind P (id_or_new decimal ports entry config "decision" c.decision_id) _
            (id_or_new-Preserves "decision" c.decision_id)
            (λ decision_id.
              Preserves-bind P (id_or_new decimal ports entry config "trace" c.trace_id) _
                (id_or_new-Preserves "trace" c.trace_id) (λ trace_id w p. p)))

  moment-Preserves : (now : Option ℕ) → Preserves P (moment decimal ports entry config now)
  moment-Preserves none = λ w p. quiet read_clock w.calls refl p
  moment-Preserves (some given) = λ w p. p

  on_verified-Preserves :
      (tenant_id : String) (now : ℕ) (v : VerifiedPrincipal × List DelegationHop)
      → Preserves P (on_verified decimal ports entry config tenant_id now v)
  on_verified-Preserves tenant_id now (principal, chain) =
      Preserves-bind P
        (checked (require_valid_at principal chain now)
          >> checked (require (principal.tenant_id == tenant_id) (domain_validation "resource")))
        (λ _. pure principal)
        (Preserves-bind P (checked (require_valid_at principal chain now))
          (λ _. checked (require (principal.tenant_id == tenant_id) (domain_validation "resource")))
          (λ w p. p) (λ u w p. p))
        (λ u w p. p)

  pub verify_principal-Preserves :
      (credential : C) (tenant_id : String) (now : ℕ)
      → Preserves P (verify_principal decimal ports entry config credential tenant_id now)
  unfolding verify_principal
  verify_principal-Preserves credential tenant_id now =
      Preserves-bind P (call (λ _. verified_identity) (entry.verify credential now))
        (on_verified decimal ports entry config tenant_id now)
        (λ w p. quiet verified_identity w.calls refl p) (on_verified-Preserves tenant_id now)

  pub replay-Preserves :
      (principal : VerifiedPrincipal) (a : ProposedAction) (trace_id decision_id : Option String)
      (causation_id : Option String) (now : Option ℕ)
      → ((r : Request) → r.suppress_dispatch ≡ true → Preserves P (evaluate decimal ports config r))
      → Preserves P
          (replay decimal ports entry config principal a trace_id decision_id causation_id now)
  unfolding replay
  replay-Preserves principal a trace_id decision_id causation_id now evaluated =
      Preserves-bind P (moment decimal ports entry config now) _ (moment-Preserves now) (λ at.
        Preserves-bind P (id_or_new decimal ports entry config "replay" decision_id) _
          (id_or_new-Preserves "replay" decision_id)
          (λ id.
            Preserves-bind P (id_or_new decimal ports entry config "trace" trace_id) _
              (id_or_new-Preserves "trace" trace_id) (λ trace. evaluated _ refl)))

  -- What `_evaluate` keeps, the entry points keep.
  module _ (evaluated : (r : Request) → Preserves P (evaluate decimal ports config r)) where
    pub decide_and_dispatch-Preserves :
        (credential : C) (a : ProposedAction) (c : Correlation)
        → Preserves P (decide_and_dispatch decimal ports entry config credential a c)
    unfolding decide_and_dispatch
    decide_and_dispatch-Preserves credential a c =
        Preserves-bind P (opened decimal ports entry config c)
          (decide_opened decimal ports entry config credential a c) (opened-Preserves c)
          (λ o.
            Preserves-bind P
              (verify_principal decimal ports entry config credential a.resource.tenant_id o.0) _
              (verify_principal-Preserves credential a.resource.tenant_id o.0)
              (λ principal. evaluated _))

    pub decide_and_dispatch_for_request-Preserves :
        (credential : C) (name : String) (x : ResourceRef) (a : Parameters) (key : String)
        (c : Correlation)
        → Preserves P
            (decide_and_dispatch_for_request decimal ports entry config credential name x a key c)
    unfolding decide_and_dispatch_for_request
    decide_and_dispatch_for_request-Preserves credential name x a key c =
        Preserves-bind P (opened decimal ports entry config c) _ (opened-Preserves c) (λ o.
          Preserves-bind P (check_catalogue decimal ports entry config x name a key o.0)
            (request_resolved decimal ports entry config credential x c o)
            (check_catalogue-Preserves x name a key o.0)
            (λ r.
              Preserves-bind P
                (verify_principal decimal ports entry config credential x.tenant_id o.0) _
                (verify_principal-Preserves credential x.tenant_id o.0) (λ principal. evaluated _)))

    pub decide_and_dispatch_for_tool_call-Preserves :
        (credential : C) (name : String) (d : Digest) (x : ResourceRef) (a : Parameters)
        (key : String) (c : Correlation)
        → Preserves P (
            decide_and_dispatch_for_tool_call decimal ports entry config credential name d x a key
              c)
    unfolding decide_and_dispatch_for_tool_call
    decide_and_dispatch_for_tool_call-Preserves credential name d x a key c =
        Preserves-bind P (opened decimal ports entry config c) _ (opened-Preserves c) (λ o.
          Preserves-bind P (check_tool_registry decimal ports entry config x name d a key)
            (tool_resolved decimal ports entry config credential x c o)
            (check_tool_registry-Preserves x name d a key)
            (λ r.
              Preserves-bind P
                (verify_principal decimal ports entry config credential x.tenant_id o.0) _
                (verify_principal-Preserves credential x.tenant_id o.0) (λ principal. evaluated _)))
