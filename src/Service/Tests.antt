-- ===== src/Service/Tests.antt =====
-- glassbox/app/decision_service.py at concrete inputs: a wire of 400, with ports that answer the
-- simplest way and count their calls.
use glassbox_agentic_governa.Prelude.{
  ℕ, suc, ◌≡◌, refl, String, true, false, none, some, [], ◌∷◌, ◌⊎◌,
}
use glassbox_agentic_governa.Errors.{ok}
use glassbox_agentic_governa.Risk.{low}
use glassbox_agentic_governa.Decision.{
  AuthorizationDecision, DecisionEffect, ExecutionStatus, outcome, denial, mandate_missing,
  tool_not_governed, optional_identifier,
}
use glassbox_agentic_governa.Evidence.{VerifiedPrincipal, EvidenceReceipt, make_intent}
use glassbox_agentic_governa.Mandate.Tests.{treasury, wire_400}
use glassbox_agentic_governa.Action.{with_redacted_parameters}
use glassbox_agentic_governa.Service.Ports.{make_request, Ports, Config, World}
use glassbox_agentic_governa.Service.Checks.{
  Checked, check_mandate, check_kill_switch, any_switch_engaged, on_kill_switch, executed, skipped,
  on_mandate, compute_risk, on_score,
}
use glassbox_agentic_governa.Service.Budget.{check_risk_threshold}
use glassbox_agentic_governa.Service.Evaluate.{
  Request, DecisionOutcome, authorise, policy_stage, constrain, thresholded, replaced_by,
  limits_stage, baseline_stage,
}
use glassbox_agentic_governa.Service.Conclude.{
  evaluate, conclude, commit, append_record, on_append, finish, record_outcome,
  dispatch_if_permitted, materialize_approval_metadata,
}
use glassbox_agentic_governa.Service.Trace.{Safe}
use glassbox_agentic_governa.Service.Receipts.{Stored, evaluate-Stored}
use glassbox_agentic_governa.Serialization.{
  require_non_empty, require_identifier, is_whitespace, is_blank, matches_identifier_pattern,
  matches_tail, is_identifier_char, is_alphanumeric, require_timestamp,
}
use glassbox_agentic_governa.Service.EvidenceFirst.{evaluate-Safe}
use glassbox_agentic_governa.Service.FailClosed.{
  Denied, MandateCleared, SwitchesOff, check_mandate-cleared, check_kill_switch-cleared,
}

abbrev pub agent_7 : VerifiedPrincipal
agent_7 = record {
  agent_ref = "agent-7";
  tenant_id = "t1";
  credential_id = "c1";
  issued_at = 0;
  expires_at = 1000;
  delegating_subject = none;
}

abbrev pub permission : AuthorizationDecision
permission = record {
  effect = DecisionEffect.allow;
  reasons = [];
  rationale = "rule";
  policy_bundle_id = some "b1";
  policy_bundle_sha256 = none;
  matched_rules = [];
  obligations = [];
  approval_id = none;
  approval_state = none;
}

abbrev stub_receipt : ℕ → EvidenceReceipt
stub_receipt n = record {
  decision_id = "d1";
  segment_id = "s1";
  seq = n;
  record_hmac = [];
  signer_key_id = "k1";
  persisted_at = 0;
}

abbrev pub stub : Ports ℕ
stub = record {
  assert_matches_assertion = λ p t s n. (ok tt, suc n);
  is_globally_engaged = λ n. (ok false, suc n);
  is_tenant_engaged = λ t n. (ok false, suc n);
  get_mandate = λ t a now n. (ok (some treasury), suc n);
  is_revoked = λ t a now n. (ok false, suc n);
  decide = λ q n. (ok permission, suc n);
  score = λ i n. (
    ok (record {
      value = 60;
      model_version = "v1";
      inputs = i;
      raw_value = 60;
      floor_applied = false;
    }),
    suc n,
  );
  try_consume = λ k id now n. (
    ok (record {
      admitted = true;
      key = k;
      limit = 10;
      observed = 1;
      evaluated_at = now;
      retry_after_s = none;
      cooldown_until = none;
    }),
    suc n,
  );
  release = λ k id n. (ok tt, suc n);
  evaluate_baseline = λ k amount peer threshold now n. (ok false, suc n);
  observe_baseline = λ k amount now n. (ok tt, suc n);
  new_id = λ prefix n. (ok prefix, suc n);
  create_from_decision = λ id p a s n. (ok "w1", suc n);
  append_intent = λ i n. (ok (stub_receipt n), suc n);
  append_outcome = λ r o n. (ok tt, suc n);
  dispatch = λ a r t now n. (ok (outcome ExecutionStatus.executed now), suc n);
}

abbrev pub settings : Config
settings = record {
  enforce_threshold = false;
  deny_level = low;
  default_window_seconds = 60;
  anomaly_threshold = 3;
  default_timeout_s = 30;
  segment_prefix = "seg";
  has_workflow_engine = false;
}

abbrev live : Request
live = record {
  principal = agent_7;
  action = wire_400;
  tool_registry_stage = skipped "tool_registry" "not applicable";
  tool_registry_denial = none;
  catalogue_stage = skipped "catalogue" "not applicable";
  catalogue_denial = none;
  decision_id = "d1";
  trace_id = "tr1";
  causation_id = none;
  asserted_tenant_id = "";
  asserted_subject = "";
  now = 200;
  suppress_dispatch = false;
  sensitive_parameter_fields = [];
}

abbrev replayed : Request
replayed = record live { suppress_dispatch = true }

abbrev pub day : ℕ → String
day n = "0"

abbrev pub start : World ℕ
start = record { state = 0; calls = [] }

-- The wire, with its parameter `iban` redacted in the record.
abbrev secret : Request
secret = record live { sensitive_parameter_fields = "iban" ∷ [] }

evaluate-Safe_example :
    Safe (λ fields. fields ≡ "iban" ∷ []) ((evaluate day stub settings secret start).1).calls
evaluate-Safe_example =
    evaluate-Safe (λ fields. fields ≡ "iban" ∷ []) day stub settings secret refl start tt

switch_clear : (check_kill_switch stub "t1" wire_400 start).0 ≡ ok (executed "kill_switch", none)
unfolding check_kill_switch any_switch_engaged on_kill_switch
switch_clear = refl

check_kill_switch-cleared_example : Denied (executed "kill_switch", none) ⊎ SwitchesOff stub "t1"
check_kill_switch-cleared_example =
    check_kill_switch-cleared stub "t1" wire_400 start (executed "kill_switch", none) refl
      switch_clear

abbrev no_mandate : Ports ℕ
no_mandate = record stub { get_mandate = λ t a now n. (ok none, suc n) }

abbrev missing : Checked
missing = (executed "mandate", some (denial mandate_missing "no active mandate for this agent"))

mandate_denied : (check_mandate no_mandate agent_7 wire_400 200 start).0 ≡ ok missing
unfolding check_mandate on_mandate
mandate_denied = refl

check_mandate-cleared_example : Denied missing ⊎ MandateCleared no_mandate agent_7 wire_400 200
check_mandate-cleared_example =
    check_mandate-cleared no_mandate agent_7 wire_400 200 start missing refl mandate_denied

abbrev ungoverned : AuthorizationDecision
ungoverned = denial tool_not_governed "not a governed tool"

abbrev refused : Request
refused = record live { tool_registry_denial = some ungoverned }

abbrev refusal : DecisionOutcome
refusal = record {
  decision_id = "d1";
  decision = ungoverned;
  receipt = stub_receipt 1;
  execution = outcome ExecutionStatus.denied 200;
}

refused_outcome : (evaluate day stub settings refused start).0 ≡ ok refusal
unfolding with_redacted_parameters evaluate conclude commit append_record on_append finish
    record_outcome dispatch_if_permitted materialize_approval_metadata authorise policy_stage
    make_request constrain thresholded replaced_by limits_stage baseline_stage compute_risk on_score
    check_risk_threshold make_intent optional_identifier require_identifier require_non_empty
    is_blank is_whitespace matches_identifier_pattern matches_tail is_identifier_char
    is_alphanumeric require_timestamp
refused_outcome = refl

evaluate-Stored_example : Stored day stub settings refusal
evaluate-Stored_example = evaluate-Stored day stub settings refused start refusal refused_outcome
