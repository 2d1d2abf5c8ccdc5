-- ===== src/Service/Stages.antt =====
-- glassbox/app/decision_service.py: the whole of the stages keeps what the calls of its stages keep.
use glassbox_agentic_governa.Prelude.{
  ℕ, ◌≡◌, refl, String, Bool, true, false, Option, none, some, List, [], ◌∷◌, ◌++◌, ◌&&◌,
}
use glassbox_agentic_governa.Errors.{
  Result, ok, err, is_limit_store_unavailable, is_baseline_store_unavailable,
}
use glassbox_agentic_governa.Action.{ProposedAction}
use glassbox_agentic_governa.Risk.{RiskScore}
use glassbox_agentic_governa.Decision.{AuthorizationDecision, StageOutcome, is_deny}
use glassbox_agentic_governa.Limits.{LimitKey, LimitVerdict}
use glassbox_agentic_governa.Evidence.{VerifiedPrincipal}
use glassbox_agentic_governa.Service.Ports.{
  make_request, checked, Ports, Config, Call, Step, pure, raise, call, BaselineKey, consumed,
  released, evaluated_baseline, observed_baseline,
}
use glassbox_agentic_governa.Service.Checks.{
  check_policy, Checked, skipped, check_identity_assertion, check_kill_switch, check_mandate,
  compute_risk, Assessed,
}
use glassbox_agentic_governa.Service.Budget.{
  Metered, limit_key_for, check_limits, on_limit, check_baseline, compare_with_baseline,
  on_baseline, release_limit_budget, release_from, on_release, holds_budget,
}
use glassbox_agentic_governa.Service.Evaluate.{
  Request, screen, unless_decided, authorise, policy_stage, limits_stage, baseline_stage,
  release_after, constrain, replaced_by, optional_list, identity_stage, kill_switch_stage,
  mandate_stage, after_mandate, after_kill_switch, after_identity, settle, after_limits, after_risk,
  thresholded,
}
use glassbox_agentic_governa.Service.Quiet.{
  is_quiet, Preserves, Preserves-bind, Preserves-if, Preserves-ask,
  check_identity_assertion-Preserves, check_kill_switch-Preserves, check_mandate-Preserves,
  check_policy-Preserves, compute_risk-Preserves,
}

module _ {S : Type 0} (P : List Call → Type 0)
    (quiet : (c : Call) (cs : List Call) → is_quiet c ≡ true → P cs → P (c ∷ cs)) (ports : Ports S)
    (config : Config) where
  on_limit-Preserves :
      (a : ProposedAction) (r : Result LimitVerdict) → Preserves P (on_limit ports config a r)
  unfolding on_limit
  on_limit-Preserves a (ok v) = Preserves-if P v.admitted (pure _) (pure _) (λ w p. p) (λ w p. p)
  on_limit-Preserves a (err e) =
      Preserves-if P (is_limit_store_unavailable e) (pure _) (raise e) (λ w p. p) (λ w p. p)

  check_limits-Preserves :
      (k : LimitKey) (a : ProposedAction) (id : String) (now : ℕ)
      → Preserves P (check_limits ports config k a id now)
  unfolding check_limits
  check_limits-Preserves k a id now =
      Preserves-ask P quiet ports config (consumed k id) (ports.try_consume k id now)
        (on_limit ports config a) refl (on_limit-Preserves a)

  on_baseline-Preserves :
      (k : BaselineKey) (a : ProposedAction) (n now : ℕ) (r : Result Bool)
      → Preserves P (on_baseline ports config k a n now r)
  unfolding on_baseline
  on_baseline-Preserves k a n now (ok true) = λ w p. p
  on_baseline-Preserves k a n now (ok false) =
      Preserves-bind P (call (λ _. observed_baseline) (ports.observe_baseline k n now))
        (λ _. pure _) (λ w p. quiet observed_baseline w.calls refl p) (λ u w p. p)
  on_baseline-Preserves k a n now (err e) =
      Preserves-if P (is_baseline_store_unavailable e) (pure _) (raise e) (λ w p. p) (λ w p. p)

  compare_with_baseline-Preserves :
      (v : VerifiedPrincipal) (a : ProposedAction) (now : ℕ) (o : Option ℕ)
      → Preserves P (compare_with_baseline ports config v a now o)
  unfolding compare_with_baseline
  compare_with_baseline-Preserves v a now none = λ w p. p
  compare_with_baseline-Preserves v a now (some n) =
      let key : BaselineKey = record { tenant_id = v.tenant_id; subject = v.agent_ref } in
      Preserves-ask P quiet ports config evaluated_baseline
        (ports.evaluate_baseline key n a.action config.anomaly_threshold now)
        (on_baseline ports config key a n now) refl (on_baseline-Preserves key a n now)

  check_baseline-Preserves :
      (v : VerifiedPrincipal) (a : ProposedAction) (now : ℕ)
      → Preserves P (check_baseline ports config v a now)
  unfolding check_baseline
  check_baseline-Preserves v a now = compare_with_baseline-Preserves v a now a.exposure.monetary

  on_release-Preserves :
      (b : Bool) (r : Result (Unit {0})) → Preserves P (on_release ports config b r)
  unfolding on_release
  on_release-Preserves b (ok u) = λ w p. p
  on_release-Preserves b (err e) =
      Preserves-if P (is_limit_store_unavailable e && b) (pure tt) (raise e) (λ w p. p) (λ w p. p)

  pub release_from-Preserves :
      (k : Option LimitKey) (held : Bool) (id : String) (b : Bool)
      → Preserves P (release_from ports config k held id b)
  unfolding release_from
  release_from-Preserves none held id b = λ w p. p
  release_from-Preserves (some k) false id b = λ w p. p
  release_from-Preserves (some k) true id b =
      Preserves-ask P quiet ports config (released k id) (ports.release k id)
        (on_release ports config b) refl (on_release-Preserves b)

  unless_decided-Preserves :
      (d : Option AuthorizationDecision) (s : StageOutcome) (m : Step S Checked)
      → Preserves P m
      → Preserves P (unless_decided d s m)
  unless_decided-Preserves none s m hm = hm
  unless_decided-Preserves (some d) s m hm = λ w p. p

  policy_stage-Preserves :
      (r : Request) (d : Option AuthorizationDecision) → Preserves P (policy_stage ports config r d)
  unfolding policy_stage
  policy_stage-Preserves r none =
      Preserves-bind P (checked (make_request _)) (check_policy ports) (λ w p. p)
        (check_policy-Preserves P quiet ports config)
  policy_stage-Preserves r (some d) = λ w p. p

  after_mandate-Preserves :
      (r : Request) (ss : List StageOutcome) (c : Checked)
      → Preserves P (after_mandate ports config r ss c)
  after_mandate-Preserves r ss (m, d) =
      Preserves-bind P (policy_stage ports config r d) (λ policy. pure _)
        (policy_stage-Preserves r d) (λ q w p. p)

  after_kill_switch-Preserves :
      (r : Request) (ss : List StageOutcome) (c : Checked)
      → Preserves P (after_kill_switch ports config r ss c)
  after_kill_switch-Preserves r ss (k, d) =
      Preserves-bind P (mandate_stage ports config r d)
        (after_mandate ports config r (ss ++ (k ∷ [])))
        (unless_decided-Preserves d (skipped "mandate" "action already denied")
          (check_mandate ports r.principal r.action r.now)
          (check_mandate-Preserves P quiet ports config r.principal r.action r.now))
        (after_mandate-Preserves r (ss ++ (k ∷ [])))

  after_identity-Preserves :
      (r : Request) (ss : List StageOutcome) (c : Checked)
      → Preserves P (after_identity ports config r ss c)
  after_identity-Preserves r ss (i, d) =
      Preserves-bind P (kill_switch_stage ports config r d)
        (after_kill_switch ports config r (ss ++ (i ∷ [])))
        (unless_decided-Preserves d
          (skipped "kill_switch" "action already denied before identity check")
          (check_kill_switch ports r.principal.tenant_id r.action)
          (check_kill_switch-Preserves P quiet ports config r.principal.tenant_id r.action))
        (after_kill_switch-Preserves r (ss ++ (i ∷ [])))

  pub authorise-Preserves : (r : Request) → Preserves P (authorise ports config r)
  unfolding authorise
  authorise-Preserves r =
      Preserves-bind P (identity_stage ports config r (screen r).1)
        (after_identity ports config r (r.tool_registry_stage ∷ (screen r).0 ∷ []))
        (unless_decided-Preserves (screen r).1
          (skipped "identity" "action already denied before identity check")
          (check_identity_assertion ports r.principal r.asserted_tenant_id r.asserted_subject)
          (check_identity_assertion-Preserves P quiet ports config r.principal r.asserted_tenant_id
            r.asserted_subject))
        (after_identity-Preserves r (r.tool_registry_stage ∷ (screen r).0 ∷ []))

  limits_stage-Preserves :
      (r : Request) (d : AuthorizationDecision) → Preserves P (limits_stage ports config r d)
  unfolding limits_stage
  limits_stage-Preserves r d =
      Preserves-if P (is_deny d.effect) (pure _) _ (λ w p. p)
        (Preserves-bind P
          (check_limits ports config (limit_key_for config r.principal r.action) r.action
            r.decision_id r.now)
          (λ m. pure _) (check_limits-Preserves _ r.action r.decision_id r.now) (λ m w p. p))

  release_after-Preserves :
      (r : Request) (k : Option LimitKey) (vs : List LimitVerdict) (c : Checked)
      → Preserves P (release_after ports config r k vs c)
  unfolding release_after
  release_after-Preserves r k vs (s, none) = λ w p. p
  release_after-Preserves r k vs (s, some d) =
      Preserves-bind P (release_limit_budget ports config k vs r.decision_id false) (λ _. pure _)
        (release_from-Preserves k (holds_budget vs) r.decision_id false) (λ u w p. p)

  baseline_stage-Preserves :
      (r : Request) (d : AuthorizationDecision) (k : Option LimitKey) (vs : List LimitVerdict)
      → Preserves P (baseline_stage ports config r d k vs)
  unfolding baseline_stage
  baseline_stage-Preserves r d k vs =
      Preserves-if P (is_deny d.effect) (pure _) _ (λ w p. p)
        (Preserves-bind P (check_baseline ports config r.principal r.action r.now)
          (release_after ports config r k vs) (check_baseline-Preserves r.principal r.action r.now)
          (release_after-Preserves r k vs))

  after_limits-Preserves :
      (r : Request) (d : AuthorizationDecision) (score : RiskScore) (ss : List StageOutcome)
      (m : Option LimitKey × Metered)
      → Preserves P (after_limits ports config r d score ss m)
  after_limits-Preserves r d score ss (k, (v, (l, over))) =
      Preserves-bind P (baseline_stage ports config r (replaced_by d over) k (optional_list v))
        (settle ports config (replaced_by d over) score (ss ++ (l ∷ [])) k (optional_list v))
        (baseline_stage-Preserves r (replaced_by d over) k (optional_list v)) (λ b w p. p)

  after_risk-Preserves :
      (r : Request) (d : AuthorizationDecision) (ss : List StageOutcome) (a : Assessed)
      → Preserves P (after_risk ports config r d ss a)
  after_risk-Preserves r d ss (score, risk, forced) =
      Preserves-bind P (limits_stage ports config r (thresholded ports config d score forced))
        (after_limits ports config r (thresholded ports config d score forced) score
          (ss ++ (risk ∷ [])))
        (limits_stage-Preserves r (thresholded ports config d score forced))
        (after_limits-Preserves r (thresholded ports config d score forced) score
          (ss ++ (risk ∷ [])))

  pub constrain-Preserves :
      (r : Request) (d : AuthorizationDecision) (ss : List StageOutcome)
      → Preserves P (constrain ports config r d ss)
  unfolding constrain
  constrain-Preserves r d ss =
      Preserves-bind P (compute_risk ports r.action r.now) (after_risk ports config r d ss)
        (compute_risk-Preserves P quiet ports config r.action r.now) (after_risk-Preserves r d ss)
