-- ===== src/Service/Quiet.antt =====
-- glassbox/app/decision_service.py: the stages keep every property of the call log that their own
-- calls keep: none of them writes evidence, opens a workflow or dispatches.
use glassbox_agentic_governa.Prelude.{
  ℕ, ◌≡◌, refl, String, Bool, true, false, Option, none, some, List, ◌∷◌, if◌then◌else◌,
}
use glassbox_agentic_governa.Errors.{
  Result, ok, err, is_identity_error, is_mandate_error, is_kill_switch_unavailable,
  is_policy_bundle_unavailable, is_risk_model_unavailable,
}
use glassbox_agentic_governa.Action.{ProposedAction}
use glassbox_agentic_governa.Mandate.{Mandate, MandateVerdict, permits}
use glassbox_agentic_governa.Risk.{RiskInputs, RiskScore}
use glassbox_agentic_governa.Decision.{AuthorizationDecision}
use glassbox_agentic_governa.Evidence.{VerifiedPrincipal}
use glassbox_agentic_governa.Service.Ports.{
  Ports, Config, Port, World, Call, Step, pure, raise, attempt, checked, call, next, ◌>>=◌,
  appended, dispatched, appended_outcome, created_workflow, AuthorizationRequest, asserted_identity,
  read_global_switch, read_tenant_switch, read_mandate, read_revocation, decided, scored,
}
use glassbox_agentic_governa.Service.Checks.{
  degrades, check_identity_assertion, on_assertion, check_kill_switch, any_switch_engaged,
  or_tenant_switch, on_kill_switch, check_mandate, on_mandate, on_revocation, on_verdict,
  check_policy, on_policy, compute_risk, on_score, risk_placeholder, unassessed,
}

-- The calls of the stages.
abbrev pub is_quiet : Call → Bool
is_quiet (appended i r) = false
is_quiet (dispatched a r) = false
is_quiet (appended_outcome r o) = false
is_quiet (created_workflow i) = false
is_quiet _ = true

-- A step keeps a property of the log, whether it returns or raises.
abbrev pub Preserves : {S A : Type 0} → (List Call → Type 0) → Step S A → Type 0
Preserves {S} P m = (w : World S) → P w.calls → P ((m w).1).calls

module _ {S : Type 0} (P : List Call → Type 0) where
  pub Preserves-next :
      {A B : Type 0} (t : Result A × World S) (f : A → Step S B)
      → ((a : A) → Preserves P (f a))
      → P t.1.calls
      → P ((next t f).1).calls
  Preserves-next (ok a, v) f hf q = hf a v q
  Preserves-next (err e, v) f hf q = q

  pub Preserves-bind :
      {A B : Type 0} (m : Step S A) (f : A → Step S B)
      → Preserves P m
      → ((a : A) → Preserves P (f a))
      → Preserves P (m >>= f)
  Preserves-bind m f hm hf w p = Preserves-next (m w) f hf (hm w p)

  pub Preserves-attempt : {A : Type 0} (m : Step S A) → Preserves P m → Preserves P (attempt m)
  Preserves-attempt m hm w p = hm w p

  pub Preserves-if :
      {A : Type 0} (b : Bool) (m n : Step S A)
      → Preserves P m
      → Preserves P n
      → Preserves P (if b then m else n)
  Preserves-if true m n hm hn = hm
  Preserves-if false m n hm hn = hn

-- A property that the calls of the stages keep, and the stages.
module _ {S : Type 0} (P : List Call → Type 0)
    (quiet : (c : Call) (cs : List Call) → is_quiet c ≡ true → P cs → P (c ∷ cs)) (ports : Ports S)
    (config : Config) where
  pub Preserves-ask :
      {A B : Type 0} (c : Call) (port : Port S A) (k : Result A → Step S B)
      → is_quiet c ≡ true
      → ((r : Result A) → Preserves P (k r))
      → Preserves P (attempt (call (λ _. c) port) >>= k)
  Preserves-ask c port k h hk w p =
      hk (port w.state).0 (record { state = (port w.state).1; calls = c ∷ w.calls })
        (quiet c w.calls h p)

  on_assertion-Preserves : (r : Result (Unit {0})) → Preserves P (on_assertion ports r)
  unfolding on_assertion
  on_assertion-Preserves (ok u) = λ w p. p
  on_assertion-Preserves (err e) =
      Preserves-if P (is_identity_error e) (pure _) (raise e) (λ w p. p) (λ w p. p)

  pub check_identity_assertion-Preserves :
      (a : VerifiedPrincipal) (t s : String) → Preserves P (check_identity_assertion ports a t s)
  unfolding check_identity_assertion
  check_identity_assertion-Preserves a t s =
      Preserves-ask asserted_identity (ports.assert_matches_assertion a t s) (on_assertion ports)
        refl on_assertion-Preserves

  on_kill_switch-Preserves : (r : Result Bool) → Preserves P (on_kill_switch ports r)
  unfolding on_kill_switch
  on_kill_switch-Preserves (ok true) = λ w p. p
  on_kill_switch-Preserves (ok false) = λ w p. p
  on_kill_switch-Preserves (err e) =
      Preserves-if P (is_kill_switch_unavailable e) (pure _) (raise e) (λ w p. p) (λ w p. p)

  or_tenant_switch-Preserves : (t : String) (b : Bool) → Preserves P (or_tenant_switch ports t b)
  or_tenant_switch-Preserves t true = λ w p. p
  or_tenant_switch-Preserves t false = λ w p. quiet read_tenant_switch w.calls refl p

  any_switch_engaged-Preserves : (t : String) → Preserves P (any_switch_engaged ports t)
  unfolding any_switch_engaged
  any_switch_engaged-Preserves t =
      Preserves-bind P (call (λ _. read_global_switch) ports.is_globally_engaged)
        (or_tenant_switch ports t) (λ w p. quiet read_global_switch w.calls refl p)
        (or_tenant_switch-Preserves t)

  pub check_kill_switch-Preserves :
      (t : String) (a : ProposedAction) → Preserves P (check_kill_switch ports t a)
  unfolding check_kill_switch
  check_kill_switch-Preserves t a =
      Preserves-if P (degrades a) (pure _)
        (attempt (any_switch_engaged ports t) >>= on_kill_switch ports) (λ w p. p)
        (λ w p.
          on_kill_switch-Preserves (any_switch_engaged ports t w).0 (any_switch_engaged ports t w).1
            (any_switch_engaged-Preserves t w p))

  on_verdict-Preserves : (v : MandateVerdict) → Preserves P (on_verdict ports v)
  unfolding on_verdict
  on_verdict-Preserves v = Preserves-if P v.permitted (pure _) (pure _) (λ w p. p) (λ w p. p)

  on_revocation-Preserves :
      (a : ProposedAction) (now : ℕ) (m : Mandate) (r : Result Bool)
      → Preserves P (on_revocation ports a now m r)
  unfolding on_revocation
  on_revocation-Preserves a now m (ok true) = λ w p. p
  on_revocation-Preserves a now m (ok false) =
      Preserves-bind P (checked (permits m a now)) (on_verdict ports) (λ w p. p)
        on_verdict-Preserves
  on_revocation-Preserves a now m (err e) =
      Preserves-if P (is_mandate_error e) (pure _) (raise e) (λ w p. p) (λ w p. p)

  on_mandate-Preserves :
      (v : VerifiedPrincipal) (a : ProposedAction) (now : ℕ) (r : Result (Option Mandate))
      → Preserves P (on_mandate ports v a now r)
  unfolding on_mandate
  on_mandate-Preserves v a now (ok none) = λ w p. p
  on_mandate-Preserves v a now (ok (some m)) =
      Preserves-ask read_revocation (ports.is_revoked v.tenant_id v.agent_ref now)
        (on_revocation ports a now m) refl (on_revocation-Preserves a now m)
  on_mandate-Preserves v a now (err e) =
      Preserves-if P (is_mandate_error e) (pure _) (raise e) (λ w p. p) (λ w p. p)

  pub check_mandate-Preserves :
      (v : VerifiedPrincipal) (a : ProposedAction) (now : ℕ)
      → Preserves P (check_mandate ports v a now)
  unfolding check_mandate
  check_mandate-Preserves v a now =
      Preserves-ask read_mandate (ports.get_mandate v.tenant_id v.agent_ref now)
        (on_mandate ports v a now) refl (on_mandate-Preserves v a now)

  on_policy-Preserves : (r : Result AuthorizationDecision) → Preserves P (on_policy ports r)
  unfolding on_policy
  on_policy-Preserves (ok d) = λ w p. p
  on_policy-Preserves (err e) =
      Preserves-if P (is_policy_bundle_unavailable e) (pure _) (raise e) (λ w p. p) (λ w p. p)

  pub check_policy-Preserves : (q : AuthorizationRequest) → Preserves P (check_policy ports q)
  unfolding check_policy
  check_policy-Preserves q =
      Preserves-ask decided (ports.decide q) (on_policy ports) refl on_policy-Preserves

  on_score-Preserves : (i : RiskInputs) (r : Result RiskScore) → Preserves P (on_score ports i r)
  unfolding on_score
  on_score-Preserves i (ok s) = λ w p. p
  on_score-Preserves i (err e) =
      Preserves-if P (is_risk_model_unavailable e)
        (checked (risk_placeholder ports i) >>= unassessed ports) (raise e)
        (Preserves-bind P (checked (risk_placeholder ports i)) (unassessed ports) (λ w p. p)
          (λ s w p. p))
        (λ w p. p)

  pub compute_risk-Preserves :
      (a : ProposedAction) (now : ℕ) → Preserves P (compute_risk ports a now)
  unfolding compute_risk
  compute_risk-Preserves a now =
      let inputs : RiskInputs = record {
        consequence = a.consequence;
        exposure = a.exposure;
        evaluated_at = now;
      } in
      Preserves-ask scored (ports.score inputs) (on_score ports inputs) refl
        (on_score-Preserves inputs)
