-- ===== src/Service/Checks.antt =====
-- glassbox/app/decision_service.py: the stages of a decision. A stage returns how it ran and, where
-- it denies, the denial.
use glassbox_agentic_governa.Prelude.{
  ℕ, String, Bool, true, false, Option, none, some, if◌then◌else◌, string_eq,
}
use Prim.Native.String.{◌++◌ as string_append}
use glassbox_agentic_governa.Errors.{
  Result, ok, err, is_identity_error, is_mandate_error, is_kill_switch_unavailable,
  is_policy_bundle_unavailable, is_risk_model_unavailable,
}
use glassbox_agentic_governa.Action.{ProposedAction, may_degrade_on_dependency_failure}
use glassbox_agentic_governa.Mandate.{Mandate, MandateVerdict, permits}
use glassbox_agentic_governa.Risk.{RiskInputs, RiskScore, with_consequence_floor}
use glassbox_agentic_governa.Decision.{
  AuthorizationDecision, denial, StageOutcome, StageStatus, identity_unverified,
  kill_switch_engaged, dependency_unavailable, mandate_missing, mandate_revoked, mandate_exceeded,
  policy_bundle_unavailable,
}
use glassbox_agentic_governa.Evidence.{VerifiedPrincipal}
use glassbox_agentic_governa.Service.Ports.{
  Ports, AuthorizationRequest, Step, pure, raise, attempt, checked, call, ◌>>=◌, asserted_identity,
  read_global_switch, read_tenant_switch, read_mandate, read_revocation, decided, scored,
}

-- _skipped, and the two other outcomes that the stages build.
abbrev pub skipped : String → String → StageOutcome
skipped name reason = record { stage = name; status = StageStatus.skipped; reason = some reason }

abbrev pub executed : String → StageOutcome
executed name = record { stage = name; status = StageStatus.executed; reason = none }

abbrev pub failed : String → String → StageOutcome
failed name reason = record { stage = name; status = StageStatus.failed; reason = some reason }

abbrev pub Checked : Type 0
Checked = StageOutcome × Option AuthorizationDecision

abbrev pub degrades : ProposedAction → Bool
degrades a = may_degrade_on_dependency_failure a.consequence

-- An outage: the advisory action goes on without the stage, any other is denied.
unfoldable pub outage : ProposedAction → String → String → Checked
outage a name what =
    if degrades a
    then (skipped name (string_append what "; action is advisory"), none)
    else (failed name "store unavailable", some (denial dependency_unavailable what))

abbrev pub Assessed : Type 0
Assessed = RiskScore × StageOutcome × Option AuthorizationDecision

module _ {S : Type 0} (ports : Ports S) where
  unfoldable pub on_assertion : Result (Unit {0}) → Step S Checked
  on_assertion (ok _) = pure (executed "identity", none)
  on_assertion (err e) =
      if is_identity_error e
      then pure (
        failed "identity" "asserted identity mismatch",
        some
            (denial identity_unverified "asserted identity does not match the verified credential"),
      )
      else raise e

  -- _check_identity_assertion
  unfoldable pub check_identity_assertion : VerifiedPrincipal → String → String → Step S Checked
  check_identity_assertion p tenant subject =
      attempt (call (λ _. asserted_identity) (ports.assert_matches_assertion p tenant subject))
      >>= on_assertion

  abbrev pub or_tenant_switch : String → Bool → Step S Bool
  or_tenant_switch tenant true = pure true
  or_tenant_switch tenant false = call (λ _. read_tenant_switch) (ports.is_tenant_engaged tenant)

  unfoldable pub any_switch_engaged : String → Step S Bool
  any_switch_engaged tenant =
      call (λ _. read_global_switch) ports.is_globally_engaged >>= or_tenant_switch tenant

  unfoldable pub on_kill_switch : Result Bool → Step S Checked
  on_kill_switch (ok true) =
      pure (executed "kill_switch", some (denial kill_switch_engaged "emergency stop is engaged"))
  on_kill_switch (ok false) = pure (executed "kill_switch", none)
  on_kill_switch (err e) =
      if is_kill_switch_unavailable e
      then pure (
        failed "kill_switch" "switch unavailable",
        some (denial dependency_unavailable "kill switch unavailable"),
      )
      else raise e

  -- _check_kill_switch
  unfoldable pub check_kill_switch : String → ProposedAction → Step S Checked
  check_kill_switch tenant a =
      if degrades a
      then pure (skipped "kill_switch" "action is advisory", none)
      else attempt (any_switch_engaged tenant) >>= on_kill_switch

  unfoldable pub on_verdict : MandateVerdict → Step S Checked
  on_verdict v =
      if v.permitted
      then pure (executed "mandate", none)
      else pure
          (executed "mandate", some (denial mandate_exceeded "mandate does not permit this action"))

  unfoldable pub on_revocation : ProposedAction → ℕ → Mandate → Result Bool → Step S Checked
  on_revocation a now m (ok true) =
      pure (executed "mandate", some (denial mandate_revoked "agent's authority has been revoked"))
  on_revocation a now m (ok false) = checked (permits m a now) >>= on_verdict
  on_revocation a now m (err e) =
      if is_mandate_error e then pure (outage a "mandate" "mandate store unavailable") else raise e

  unfoldable pub on_mandate :
      VerifiedPrincipal → ProposedAction → ℕ → Result (Option Mandate) → Step S Checked
  on_mandate p a now (ok none) =
      pure (executed "mandate", some (denial mandate_missing "no active mandate for this agent"))
  on_mandate p a now (ok (some m)) =
      attempt (call (λ _. read_revocation) (ports.is_revoked p.tenant_id p.agent_ref now))
      >>= on_revocation a now m
  on_mandate p a now (err e) =
      if is_mandate_error e then pure (outage a "mandate" "mandate store unavailable") else raise e

  -- _check_mandate
  unfoldable pub check_mandate : VerifiedPrincipal → ProposedAction → ℕ → Step S Checked
  check_mandate p a now =
      attempt (call (λ _. read_mandate) (ports.get_mandate p.tenant_id p.agent_ref now))
      >>= on_mandate p a now

  unfoldable pub on_policy :
      Result AuthorizationDecision → Step S (AuthorizationDecision × StageOutcome)
  on_policy (ok d) = pure (d, executed "policy")
  on_policy (err e) =
      if is_policy_bundle_unavailable e
      then pure (
        denial policy_bundle_unavailable "no active policy bundle",
        failed "policy" "bundle unavailable",
      )
      else raise e

  -- _check_policy
  unfoldable pub check_policy : AuthorizationRequest → Step S (AuthorizationDecision × StageOutcome)
  check_policy request = attempt (call (λ _. decided) (ports.decide request)) >>= on_policy

  -- The placeholder for an unreachable engine, at the floor of the consequence class.
  abbrev pub risk_placeholder : RiskInputs → Result RiskScore
  risk_placeholder inputs =
      let zero_score : RiskScore = record {
        value = 0;
        model_version = "risk-engine-unavailable";
        inputs = inputs;
        raw_value = 0;
        floor_applied = false;
      } in
      with_consequence_floor zero_score

  abbrev pub unassessed : RiskScore → Step S Assessed
  unassessed score = pure (
    score,
    failed "risk" "engine unavailable",
    some (denial dependency_unavailable "risk engine unavailable"),
  )

  unfoldable pub on_score : RiskInputs → Result RiskScore → Step S Assessed
  on_score inputs (ok score) = pure (score, executed "risk", none)
  on_score inputs (err e) =
      if is_risk_model_unavailable e
      then checked (risk_placeholder inputs) >>= unassessed
      else raise e

  -- _compute_risk
  unfoldable pub compute_risk : ProposedAction → ℕ → Step S Assessed
  compute_risk a now =
      let inputs : RiskInputs = record {
        consequence = a.consequence;
        exposure = a.exposure;
        evaluated_at = now;
      } in
      attempt (call (λ _. scored) (ports.score inputs)) >>= on_score inputs
