-- ===== src/Service/Budget.antt =====
-- glassbox/app/decision_service.py: the stages that consume a budget or learn from an action (the
-- risk threshold, the limits and the baseline), and the release of a budget.
use glassbox_agentic_governa.Prelude.{
  ℕ, String, Bool, true, false, not, ◌&&◌, Option, none, some, List, [], ◌∷◌, if◌then◌else◌,
}
use glassbox_agentic_governa.Errors.{
  Result, ok, err, is_limit_store_unavailable, is_baseline_store_unavailable,
}
use glassbox_agentic_governa.Action.{ProposedAction}
use glassbox_agentic_governa.Risk.{RiskScore, score_exceeds}
use glassbox_agentic_governa.Decision.{
  AuthorizationDecision, denial, risk_threshold_exceeded, limit_exceeded, baseline_anomaly,
}
use glassbox_agentic_governa.Limits.{LimitKey, LimitVerdict, LimitScope}
use glassbox_agentic_governa.Evidence.{VerifiedPrincipal}
use glassbox_agentic_governa.Service.Ports.{
  Ports, Config, BaselineKey, Step, pure, raise, attempt, call, ◌>>=◌, ◌>>◌, evaluated_baseline,
  observed_baseline, consumed, released,
}
use glassbox_agentic_governa.Service.Checks.{Checked, skipped, executed, outage}

-- _limit_key_for
abbrev pub limit_key_for : Config → VerifiedPrincipal → ProposedAction → LimitKey
limit_key_for config p a = record {
  tenant_id = p.tenant_id;
  scope = LimitScope.agent;
  subject = p.agent_ref;
  window_seconds = config.default_window_seconds;
  action = a.action;
}

abbrev pub Metered : Type 0
Metered = Option LimitVerdict × Checked

-- Whether the last verdict consumed budget.
unfoldable pub holds_budget : List LimitVerdict → Bool
holds_budget [] = false
holds_budget (v ∷ []) = v.admitted
holds_budget (v ∷ vs) = holds_budget vs

module _ {S : Type 0} (ports : Ports S) (config : Config) where
  -- _check_risk_threshold
  unfoldable pub check_risk_threshold : RiskScore → Option AuthorizationDecision
  check_risk_threshold score =
      if not config.enforce_threshold
      then none
      else if score_exceeds score config.deny_level
      then some (denial risk_threshold_exceeded "risk score exceeds configured threshold")
      else none

  unfoldable pub on_limit : ProposedAction → Result LimitVerdict → Step S Metered
  on_limit a (ok v) =
      if v.admitted
      then pure (some v, (executed "limits", none))
      else pure
          (some v, (executed "limits", some (denial limit_exceeded "velocity limit exceeded")))
  on_limit a (err e) =
      if is_limit_store_unavailable e
      then pure (none, outage a "limits" "limit store unavailable")
      else raise e

  -- _check_limits
  unfoldable pub check_limits : LimitKey → ProposedAction → String → ℕ → Step S Metered
  check_limits key a decision_id now =
      attempt (call (λ _. consumed key decision_id) (ports.try_consume key decision_id now))
      >>= on_limit a

  unfoldable pub on_baseline : BaselineKey → ProposedAction → ℕ → ℕ → Result Bool → Step S Checked
  on_baseline key a amount now (ok true) =
      pure
        (executed "baseline", some (denial baseline_anomaly "observation deviates from baseline"))
  on_baseline key a amount now (ok false) =
      call (λ _. observed_baseline) (ports.observe_baseline key amount now)
      >> pure (executed "baseline", none)
  on_baseline key a amount now (err e) =
      if is_baseline_store_unavailable e
      then pure (outage a "baseline" "baseline store unavailable")
      else raise e

  unfoldable pub compare_with_baseline :
      VerifiedPrincipal → ProposedAction → ℕ → Option ℕ → Step S Checked
  compare_with_baseline p a now none =
      pure (skipped "baseline" "action carries no quantifiable exposure to baseline", none)
  compare_with_baseline p a now (some amount) =
      let key : BaselineKey = record { tenant_id = p.tenant_id; subject = p.agent_ref } in
      attempt (
        call (λ _. evaluated_baseline)
          (ports.evaluate_baseline key amount a.action config.anomaly_threshold now))
      >>= on_baseline key a amount now

  -- _check_baseline
  unfoldable pub check_baseline : VerifiedPrincipal → ProposedAction → ℕ → Step S Checked
  check_baseline p a now = compare_with_baseline p a now a.exposure.monetary

  unfoldable pub on_release : Bool → Result (Unit {0}) → Step S (Unit {0})
  on_release best_effort (ok _) = pure tt
  on_release best_effort (err e) =
      if is_limit_store_unavailable e && best_effort then pure tt else raise e

  unfoldable pub release_from : Option LimitKey → Bool → String → Bool → Step S (Unit {0})
  release_from none held decision_id best_effort = pure tt
  release_from (some key) false decision_id best_effort = pure tt
  release_from (some key) true decision_id best_effort =
      attempt (call (λ _. released key decision_id) (ports.release key decision_id))
      >>= on_release best_effort

  -- _release_limit_budget
  abbrev pub release_limit_budget :
      Option LimitKey → List LimitVerdict → String → Bool → Step S (Unit {0})
  release_limit_budget key verdicts decision_id best_effort =
      release_from key (holds_budget verdicts) decision_id best_effort
