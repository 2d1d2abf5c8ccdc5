-- ===== src/Service/Entry.antt =====
-- glassbox/app/decision_service.py: the entry points in front of `_evaluate`: an action that the
-- caller built, a request that the catalogue resolves, a tool call that the tool registry resolves,
-- and a replay. The verifier of credentials, the registries, the attestations and the clock are
-- further ports, on the same state; the scan of untrusted text is a parameter. A credential is not
-- read here. Parameters that the source sorts are kept in their order.
use glassbox_agentic_governa.Prelude.{
  ℕ, String, Bool, true, false, not, Option, none, some, List, [], ◌∷◌, keep, is_empty,
  if◌then◌else◌, ◌==◌, string_eq,
}
use glassbox_agentic_governa.Prelude.Dict.{lookup}
use glassbox_agentic_governa.Errors.{
  GlassBoxError, Result, ok, err, domain_validation, require, tool_registry_unavailable,
  tool_quarantined, tool_not_governed, catalogue_bundle_unavailable, action_not_governed,
  attestation_unavailable,
}
use glassbox_agentic_governa.Action.{
  ProposedAction, make_action, ResourceRef, Parameters, Value, irreversible, global,
}
use glassbox_agentic_governa.Mandate.{Digest}
use glassbox_agentic_governa.Decision.{
  AuthorizationDecision, StageOutcome, DenialReason, denial, dependency_unavailable,
}
use glassbox_agentic_governa.Evidence.{VerifiedPrincipal}
use glassbox_agentic_governa.Catalogue.{ActionDefinition, extract, validate_parameters}
use glassbox_agentic_governa.ToolRegistry.{ToolDefinition}
use glassbox_agentic_governa.Identity.{DelegationHop, require_valid_at}
use glassbox_agentic_governa.Service.Ports.{
  Ports, Port, Config, Step, pure, raise, attempt, checked, call, ◌>>=◌, ◌>>◌, minted_id,
  read_clock, verified_identity, resolved_tool, resolved_action, resolved_attestation,
}
use glassbox_agentic_governa.Service.Checks.{skipped, executed, failed}
use glassbox_agentic_governa.Service.Evaluate.{Request, DecisionOutcome}
use glassbox_agentic_governa.Service.Conclude.{evaluate}

pub record EntryPorts (S C : Type 0) : Type 0 where
  pub clock_now : Port S ℕ
  pub verify : C → ℕ → Port S (VerifiedPrincipal × List DelegationHop)
  pub resolve_tool : String → String → Digest → Port S ToolDefinition
  pub resolve_action : String → String → Port S ActionDefinition
  pub resolve_attestation : String → ResourceRef → String → ℕ → Port S Bool
  pub is_flagged : String → Value → Bool

-- The keyword arguments that all entry points share, less the provenance.
pub record Correlation : Type 0 where
  pub trace_id : Option String
  pub decision_id : Option String
  pub causation_id : Option String
  pub asserted_tenant_id : String
  pub asserted_subject : String

-- What stands before `_evaluate`: the action, the stage's outcome and denial, the sensitive fields.
pub record Resolved : Type 0 where
  pub action : ProposedAction
  pub stage : StageOutcome
  pub denied : Option AuthorizationDecision
  pub sensitive_parameter_fields : List String

-- _ungoverned_placeholder
unfoldable pub ungoverned_placeholder :
    ResourceRef → String → Parameters → String → Result ProposedAction
ungoverned_placeholder resource action_name parameters idempotency_key = make_action (record {
  action = action_name;
  resource = resource;
  consequence = irreversible;
  exposure = record { blast_radius = global; monetary = none; records = none };
  idempotency_key = idempotency_key;
  parameters = parameters;
})

unfoldable pub action_of :
    ActionDefinition → ResourceRef → Parameters → String → Result ProposedAction
action_of d resource parameters idempotency_key = make_action (record {
  action = d.action;
  resource = resource;
  consequence = d.consequence;
  exposure = extract d.exposure_rule parameters;
  idempotency_key = idempotency_key;
  parameters = parameters;
})

abbrev pub denied_for :
    StageOutcome → DenialReason → String → Result ProposedAction → Result Resolved
denied_for stage reason rationale (err e) = err e
denied_for stage reason rationale (ok placeholder) = ok (record {
  action = placeholder;
  stage = stage;
  denied = some (denial reason rationale);
  sensitive_parameter_fields = [];
})

abbrev pub ungoverned :
    ResourceRef
    → String
    → Parameters
    → String
    → StageOutcome
    → DenialReason
    → String
    → Result Resolved
ungoverned resource name parameters key stage reason rationale =
    denied_for stage reason rationale (ungoverned_placeholder resource name parameters key)

-- The handlers of _check_tool_registry.
unfoldable pub tool_refusal :
    ResourceRef → String → Parameters → String → GlassBoxError → Result Resolved
tool_refusal resource name parameters key tool_registry_unavailable =
    ungoverned resource name parameters key (failed "tool_registry" "registry unavailable")
      dependency_unavailable "tool registry unavailable"
tool_refusal resource name parameters key tool_quarantined =
    ungoverned resource name parameters key (executed "tool_registry")
      DenialReason.tool_definition_changed "definition changed and awaits re-approval"
tool_refusal resource name parameters key tool_not_governed =
    ungoverned resource name parameters key (executed "tool_registry")
      DenialReason.tool_not_governed "not a governed tool at the presented definition"
tool_refusal resource name parameters key e = err e

-- The handlers of _check_catalogue.
unfoldable pub action_refusal :
    ResourceRef → String → Parameters → String → GlassBoxError → Result Resolved
action_refusal resource name parameters key catalogue_bundle_unavailable =
    ungoverned resource name parameters key (failed "catalogue" "catalogue unavailable")
      dependency_unavailable "action catalogue unavailable"
action_refusal resource name parameters key action_not_governed =
    ungoverned resource name parameters key (executed "catalogue") DenialReason.action_not_governed
      "no entry in the governed action catalogue"
action_refusal resource name parameters key e = err e

unfoldable pub is_attestation_unavailable : GlassBoxError → Bool
is_attestation_unavailable attestation_unavailable = true
is_attestation_unavailable _ = false

module _ {S C : Type 0} (decimal : ℕ → String) (ports : Ports S) (entry : EntryPorts S C)
    (config : Config) where
  abbrev pub on_tool :
      ResourceRef → String → Parameters → String → Result ToolDefinition → Step S Resolved
  on_tool resource name parameters key (err e) =
      checked (tool_refusal resource name parameters key e)
  on_tool resource name parameters key (ok tool) =
      checked (action_of tool.action resource parameters key) >>= λ action. pure (record {
        action = action;
        stage = executed "tool_registry";
        denied = none;
        sensitive_parameter_fields = tool.action.sensitive_parameter_fields;
      })

  -- _check_tool_registry
  unfoldable pub check_tool_registry :
      ResourceRef → String → Digest → Parameters → String → Step S Resolved
  check_tool_registry resource name digest parameters key =
      attempt (call (λ _. resolved_tool) (entry.resolve_tool resource.tenant_id name digest))
      >>= on_tool resource name parameters key

  abbrev pub on_attestation : String → Step S (Option String) → Result Bool → Step S (Option String)
  on_attestation name rest (ok true) = rest
  on_attestation name rest (ok false) = pure (some name)
  on_attestation name rest (err e) =
      if is_attestation_unavailable e then pure (some name) else raise e

  -- _first_unsatisfied_attestation
  unfoldable pub first_unsatisfied_attestation :
      ResourceRef → ℕ → List String → Step S (Option String)
  first_unsatisfied_attestation resource now [] = pure none
  first_unsatisfied_attestation resource now (name ∷ names) =
      let rest = first_unsatisfied_attestation resource now names in
      attempt (
        call (λ _. resolved_attestation)
          (entry.resolve_attestation resource.tenant_id resource name now))
      >>= on_attestation name rest

  -- _scan_untrusted_text_fields
  abbrev pub is_flagged_field : Parameters → String → Bool
  is_flagged_field parameters field = elim (lookup field parameters) [
    | none ↦ false
    | some value ↦ entry.is_flagged field value
  ]

  unfoldable pub scan_untrusted_text_fields : ActionDefinition → Parameters → List String
  scan_untrusted_text_fields d parameters =
      keep (is_flagged_field parameters) d.untrusted_text_fields

  abbrev pub governed : ActionDefinition → ProposedAction → Option AuthorizationDecision → Resolved
  governed d action denied = record {
    action = action;
    stage = executed "catalogue";
    denied = denied;
    sensitive_parameter_fields = d.sensitive_parameter_fields;
  }

  abbrev pub on_unsatisfied : ActionDefinition → ProposedAction → Option String → Step S Resolved
  on_unsatisfied d action none = pure (governed d action none)
  on_unsatisfied d action (some name) = pure (
      governed d action (
        some
          (denial DenialReason.attestation_not_satisfied "required attestation was not satisfied")))

  -- The definition is there and the action is built: the schema, the scan and the attestations.
  unfoldable pub vet_action :
      ActionDefinition → ProposedAction → ResourceRef → Parameters → ℕ → Step S Resolved
  vet_action d action resource parameters now =
      if not (is_empty (validate_parameters d parameters))
      then raise (domain_validation "parameters")
      else if not (is_empty (scan_untrusted_text_fields d parameters))
      then pure (
          governed d action (
            some (
              denial DenialReason.prompt_injection_detected
                "untrusted text fields matched an injection pattern")))
      else (first_unsatisfied_attestation resource now d.required_attestations
          >>= on_unsatisfied d action)

  abbrev pub on_action :
      ResourceRef → String → Parameters → String → ℕ → Result ActionDefinition → Step S Resolved
  on_action resource name parameters key now (err e) =
      checked (action_refusal resource name parameters key e)
  on_action resource name parameters key now (ok d) =
      checked (action_of d resource parameters key) >>= λ action.
      vet_action d action resource parameters now

  -- _check_catalogue
  unfoldable pub check_catalogue : ResourceRef → String → Parameters → String → ℕ → Step S Resolved
  check_catalogue resource name parameters key now =
      attempt (call (λ _. resolved_action) (entry.resolve_action resource.tenant_id name))
      >>= on_action resource name parameters key now

  -- `decision_id or _new_id("decision")`; an empty text is not an id either.
  unfoldable pub id_or_new : String → Option String → Step S String
  id_or_new prefix none = call (λ _. minted_id) (ports.new_id prefix)
  id_or_new prefix (some given) =
      if given == "" then call (λ _. minted_id) (ports.new_id prefix) else pure given

  -- The verified principal, which is usable now and of the resource's tenant.
  abbrev pub on_verified :
      String → ℕ → VerifiedPrincipal × List DelegationHop → Step S VerifiedPrincipal
  on_verified tenant_id now (principal, chain) =
      checked (require_valid_at principal chain now)
      >> checked (require (principal.tenant_id == tenant_id) (domain_validation "resource"))
      >> pure principal

  unfoldable pub verify_principal : C → String → ℕ → Step S VerifiedPrincipal
  verify_principal credential tenant_id now =
      call (λ _. verified_identity) (entry.verify credential now) >>= on_verified tenant_id now

  abbrev pub request_of :
      Correlation → ℕ → String → String → VerifiedPrincipal → ProposedAction → List String → Request
  request_of c now decision_id trace_id principal action fields = record {
    principal = principal;
    action = action;
    tool_registry_stage = skipped "tool_registry" "not applicable";
    tool_registry_denial = none;
    catalogue_stage = skipped "catalogue" "not applicable";
    catalogue_denial = none;
    decision_id = decision_id;
    trace_id = trace_id;
    causation_id = c.causation_id;
    asserted_tenant_id = c.asserted_tenant_id;
    asserted_subject = c.asserted_subject;
    now = now;
    suppress_dispatch = false;
    sensitive_parameter_fields = fields;
  }

  -- The moment and the ids, before anything else.
  unfoldable pub opened : Correlation → Step S (ℕ × String × String)
  opened c = call (λ _. read_clock) entry.clock_now >>= λ now.
      id_or_new "decision" c.decision_id >>= λ decision_id.
      id_or_new "trace" c.trace_id >>= λ trace_id. pure (now, decision_id, trace_id)

  -- decide_and_dispatch
  abbrev pub decide_opened :
      C → ProposedAction → Correlation → ℕ × String × String → Step S DecisionOutcome
  decide_opened credential action c (now, decision_id, trace_id) =
      verify_principal credential action.resource.tenant_id now >>= λ principal.
      evaluate decimal ports config (request_of c now decision_id trace_id principal action [])

  unfoldable pub decide_and_dispatch : C → ProposedAction → Correlation → Step S DecisionOutcome
  decide_and_dispatch credential action c = opened c >>= decide_opened credential action c

  -- decide_and_dispatch_for_request
  abbrev pub request_resolved :
      C → ResourceRef → Correlation → ℕ × String × String → Resolved → Step S DecisionOutcome
  request_resolved credential resource c (now, decision_id, trace_id) r =
      verify_principal credential resource.tenant_id now >>= λ principal.
      evaluate decimal ports config
        (record (request_of c now decision_id trace_id principal r.action
          r.sensitive_parameter_fields) { catalogue_stage = r.stage; catalogue_denial = r.denied })

  unfoldable pub decide_and_dispatch_for_request :
      C → String → ResourceRef → Parameters → String → Correlation → Step S DecisionOutcome
  decide_and_dispatch_for_request credential name resource parameters key c = opened c >>= λ o.
      check_catalogue resource name parameters key o.0 >>= request_resolved credential resource c o

  -- decide_and_dispatch_for_tool_call
  abbrev pub tool_resolved :
      C → ResourceRef → Correlation → ℕ × String × String → Resolved → Step S DecisionOutcome
  tool_resolved credential resource c (now, decision_id, trace_id) r =
      verify_principal credential resource.tenant_id now >>= λ principal.
      evaluate decimal ports config
        (record (request_of c now decision_id trace_id principal r.action
          r.sensitive_parameter_fields) {
            tool_registry_stage = r.stage;
            tool_registry_denial = r.denied;
          })

  unfoldable pub decide_and_dispatch_for_tool_call :
      C → String → Digest → ResourceRef → Parameters → String → Correlation → Step S DecisionOutcome
  decide_and_dispatch_for_tool_call credential name digest resource parameters key c =
      opened c >>= λ o.
      check_tool_registry resource name digest parameters key
      >>= tool_resolved credential resource c o

  -- replay
  abbrev pub moment : Option ℕ → Step S ℕ
  moment none = call (λ _. read_clock) entry.clock_now
  moment (some given) = pure given

  abbrev pub replayed :
      VerifiedPrincipal → ProposedAction → Option String → ℕ → String → String → Request
  replayed principal action causation_id now decision_id trace_id = record {
    principal = principal;
    action = action;
    tool_registry_stage = skipped "tool_registry" "replay";
    tool_registry_denial = none;
    catalogue_stage = skipped "catalogue" "replay";
    catalogue_denial = none;
    decision_id = decision_id;
    trace_id = trace_id;
    causation_id = causation_id;
    asserted_tenant_id = "";
    asserted_subject = "";
    now = now;
    suppress_dispatch = true;
    sensitive_parameter_fields = [];
  }

  unfoldable pub replay :
      VerifiedPrincipal
      → ProposedAction
      → Option String
      → Option String
      → Option String
      → Option ℕ
      → Step S DecisionOutcome
  replay principal action trace_id decision_id causation_id now = moment now >>= λ at.
      id_or_new "replay" decision_id >>= λ id. id_or_new "trace" trace_id >>= λ trace.
      evaluate decimal ports config (replayed principal action causation_id at id trace)
