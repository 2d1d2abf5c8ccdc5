-- ===== src/Service/Evaluate.antt =====
-- glassbox/app/decision_service.py: `_evaluate`, in the order in which it runs: the stages, the
-- approval metadata, the evidence of the intent, the dispatch, the evidence of the outcome. Metrics
-- and logs are left out.
use glassbox_agentic_governa.Prelude.{
  ℕ, ◌/◌, String, Bool, false, Option, none, some, List, [], ◌∷◌, ◌++◌, if◌then◌else◌,
}
use Prim.Native.String.{◌++◌ as string_append}
use glassbox_agentic_governa.Action.{ProposedAction}
use glassbox_agentic_governa.Risk.{RiskScore}
use glassbox_agentic_governa.Decision.{
  AuthorizationDecision, is_deny, StageOutcome, ExecutionOutcome,
}
use glassbox_agentic_governa.Limits.{LimitKey, LimitVerdict}
use glassbox_agentic_governa.Evidence.{VerifiedPrincipal, EvidenceReceipt}
use glassbox_agentic_governa.Service.Ports.{
  Ports, Config, Step, pure, checked, make_request, ◌>>=◌, ◌>>◌,
}
use glassbox_agentic_governa.Service.Checks.{
  Checked, Assessed, skipped, check_identity_assertion, check_kill_switch, check_mandate,
  check_policy, compute_risk,
}
use glassbox_agentic_governa.Service.Budget.{
  Metered, limit_key_for, check_risk_threshold, check_limits, check_baseline, release_limit_budget,
}

-- The arguments of `_evaluate`, less the provenance.
pub record Request : Type 0 where
  pub principal : VerifiedPrincipal
  pub action : ProposedAction
  pub tool_registry_stage : StageOutcome
  pub tool_registry_denial : Option AuthorizationDecision
  pub catalogue_stage : StageOutcome
  pub catalogue_denial : Option AuthorizationDecision
  pub decision_id : String
  pub trace_id : String
  pub causation_id : Option String
  pub asserted_tenant_id : String
  pub asserted_subject : String
  pub now : ℕ
  pub suppress_dispatch : Bool
  pub sensitive_parameter_fields : List String

pub record DecisionOutcome : Type 0 where
  pub decision_id : String
  pub decision : AuthorizationDecision
  pub receipt : EvidenceReceipt
  pub execution : ExecutionOutcome

-- What the stages decide, with what they leave for the record and for the release of budget.
pub record Judgement : Type 0 where
  pub decision : AuthorizationDecision
  pub risk : RiskScore
  pub stages : List StageOutcome
  pub limit_key : Option LimitKey
  pub verdicts : List LimitVerdict

-- A stage that runs only while nothing has been decided.
abbrev pub unless_decided :
    {S : Type 0} → Option AuthorizationDecision → StageOutcome → Step S Checked → Step S Checked
unless_decided none instead stage = stage
unless_decided (some d) instead stage = pure (instead, some d)

-- The catalogue's outcome after the tool registry's.
abbrev pub screen : Request → Checked
screen r = elim r.tool_registry_denial [
  | none ↦ (r.catalogue_stage, r.catalogue_denial)
  | some d ↦ (skipped "catalogue" "action already denied by tool registry", some d)
]

unfoldable pub replaced_by :
    AuthorizationDecision → Option AuthorizationDecision → AuthorizationDecision
replaced_by d none = d
replaced_by d (some denial) = if is_deny d.effect then d else denial

abbrev pub optional_list {ℓ} : {A : Type ℓ} → Option A → List A
optional_list none = []
optional_list (some a) = a ∷ []

abbrev pub segment_id_for : (ℕ → String) → Config → String → ℕ → String
segment_id_for decimal config tenant now =
    string_append config.segment_prefix
      (string_append "-" (string_append tenant (string_append "-" (decimal (now / 86400)))))

module _ {S : Type 0} (ports : Ports S) (config : Config) where
  unfoldable pub policy_stage :
      Request → Option AuthorizationDecision → Step S (AuthorizationDecision × StageOutcome)
  policy_stage r (some d) = pure (d, skipped "policy" "action already denied by mandate")
  policy_stage r none =
      checked (
        make_request (record {
          decision_id = r.decision_id;
          principal = r.principal;
          action = r.action;
          evaluated_at = r.now;
        }))
      >>= check_policy ports

  abbrev pub identity_stage : Request → Option AuthorizationDecision → Step S Checked
  identity_stage r d =
      unless_decided d (skipped "identity" "action already denied before identity check")
        (check_identity_assertion ports r.principal r.asserted_tenant_id r.asserted_subject)

  abbrev pub kill_switch_stage : Request → Option AuthorizationDecision → Step S Checked
  kill_switch_stage r d =
      unless_decided d (skipped "kill_switch" "action already denied before identity check")
        (check_kill_switch ports r.principal.tenant_id r.action)

  abbrev pub mandate_stage : Request → Option AuthorizationDecision → Step S Checked
  mandate_stage r d =
      unless_decided d (skipped "mandate" "action already denied")
        (check_mandate ports r.principal r.action r.now)

  abbrev pub Authorised : Type 0
  Authorised = AuthorizationDecision × List StageOutcome

  -- The rest of the stages up to the policy, with the outcomes so far.
  abbrev pub after_mandate : Request → List StageOutcome → Checked → Step S Authorised
  after_mandate r stages (mandate, d) =
      policy_stage r d >>= λ policy. pure (policy.0, stages ++ (mandate ∷ policy.1 ∷ []))

  abbrev pub after_kill_switch : Request → List StageOutcome → Checked → Step S Authorised
  after_kill_switch r stages (switch, d) =
      mandate_stage r d >>= after_mandate r (stages ++ (switch ∷ []))

  abbrev pub after_identity : Request → List StageOutcome → Checked → Step S Authorised
  after_identity r stages (identity, d) =
      kill_switch_stage r d >>= after_kill_switch r (stages ++ (identity ∷ []))

  -- From the tool registry to the policy.
  unfoldable pub authorise : Request → Step S Authorised
  authorise r =
      identity_stage r (screen r).1 >>= after_identity r (r.tool_registry_stage ∷ (screen r).0 ∷ [])

  -- The limits, with the key that a later release needs.
  unfoldable pub limits_stage : Request → AuthorizationDecision → Step S (Option LimitKey × Metered)
  limits_stage r d =
      if is_deny d.effect
      then pure (none, (none, (skipped "limits" "action already denied", none)))
      else (let key = limit_key_for config r.principal r.action in
          check_limits ports config key r.action r.decision_id r.now >>= λ m. pure (some key, m))

  unfoldable pub release_after :
      Request → Option LimitKey → List LimitVerdict → Checked → Step S Checked
  release_after r key verdicts (stage, none) = pure (stage, none)
  release_after r key verdicts (stage, some d) =
      release_limit_budget ports config key verdicts r.decision_id false >> pure (stage, some d)

  unfoldable pub baseline_stage :
      Request → AuthorizationDecision → Option LimitKey → List LimitVerdict → Step S Checked
  baseline_stage r d key verdicts =
      if is_deny d.effect
      then pure (skipped "baseline" "action already denied", none)
      else (check_baseline ports config r.principal r.action r.now >>= release_after r key verdicts)

  abbrev pub settle :
      AuthorizationDecision
      → RiskScore
      → List StageOutcome
      → Option LimitKey
      → List LimitVerdict
      → Checked
      → Step S Judgement
  settle d score stages key verdicts (baseline, anomaly) = pure (record {
    decision = replaced_by d anomaly;
    risk = score;
    stages = stages ++ (baseline ∷ []);
    limit_key = key;
    verdicts = verdicts;
  })

  abbrev pub after_limits :
      Request
      → AuthorizationDecision
      → RiskScore
      → List StageOutcome
      → Option LimitKey × Metered
      → Step S Judgement
  after_limits r d score stages (key, (verdict, (limits, over))) =
      baseline_stage r (replaced_by d over) key (optional_list verdict)
      >>= settle (replaced_by d over) score (stages ++ (limits ∷ [])) key (optional_list verdict)

  unfoldable pub thresholded :
      AuthorizationDecision → RiskScore → Option AuthorizationDecision → AuthorizationDecision
  thresholded d score forced =
      replaced_by (replaced_by d forced) (check_risk_threshold ports config score)

  abbrev pub after_risk :
      Request → AuthorizationDecision → List StageOutcome → Assessed → Step S Judgement
  after_risk r d stages (score, risk, forced) =
      limits_stage r (thresholded d score forced)
      >>= after_limits r (thresholded d score forced) score (stages ++ (risk ∷ []))

  -- From the risk engine to the baseline.
  unfoldable pub constrain : Request → AuthorizationDecision → List StageOutcome → Step S Judgement
  constrain r d stages = compute_risk ports r.action r.now >>= after_risk r d stages
