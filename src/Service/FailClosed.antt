-- ===== src/Service/FailClosed.antt =====
-- glassbox/app/decision_service.py: outages deny. What a stage has established when it lets an
-- action pass that is not advisory.
use glassbox_agentic_governa.Prelude.{
  ℕ, ◌≡◌, refl, ◌∷◌, sym, ap, String, Bool, true, false, Option, none, some, ◌⊎◌, inl, inr,
  Bool-cases,
}
use glassbox_agentic_governa.Errors.{
  Result, Result-cases, err≢ok, ok, err, is_mandate_error, is_kill_switch_unavailable,
}
use glassbox_agentic_governa.Action.{ProposedAction}
use glassbox_agentic_governa.Mandate.{Mandate, MandateVerdict, permits}
use glassbox_agentic_governa.Decision.{
  AuthorizationDecision, denial, dependency_unavailable, mandate_exceeded, mandate_missing,
  mandate_revoked, kill_switch_engaged, is_deny, StageOutcome,
}
use glassbox_agentic_governa.Evidence.{VerifiedPrincipal}
use glassbox_agentic_governa.Service.Ports.{Ports, World, read_revocation, read_mandate}
use glassbox_agentic_governa.Service.Checks.{
  Checked, degrades, outage, check_mandate, on_mandate, on_revocation, on_verdict,
  check_kill_switch, any_switch_engaged, on_kill_switch, executed, failed,
}

-- The stage denied.
abbrev pub Denied : Checked → Type 0
Denied c = (d : AuthorizationDecision) × (c.1 ≡ some d) × (is_deny d.effect ≡ true)

abbrev answered : Checked → Result Checked
answered c = ok c

ok-Denied :
    (s : StageOutcome) (d : AuthorizationDecision) (c : Checked)
    → is_deny d.effect ≡ true
    → answered (s, some d) ≡ ok c
    → Denied c
ok-Denied s d c g h = let same : (s, some d) ≡ c = cc in (d, sym (ap (λ x. x.1) same), g)

module _ {S : Type 0} (ports : Ports S) where
  -- The store gave a mandate, it did not say that the agent is revoked, and the mandate permits.
  pub record MandateCleared (p : VerifiedPrincipal) (a : ProposedAction) (now : ℕ) : Type 0 where
    pub mandate : Mandate
    pub verdict : MandateVerdict
    pub read_in : S
    pub asked_in : S
    pub active : (ports.get_mandate p.tenant_id p.agent_ref now read_in).0 ≡ ok (some mandate)
    pub standing : (ports.is_revoked p.tenant_id p.agent_ref now asked_in).0 ≡ ok false
    pub judged : permits mandate a now ≡ ok verdict
    pub permitted : verdict.permitted ≡ true

  outage-Denied :
      (a : ProposedAction) (name what : String) (c : Checked)
      → degrades a ≡ false
      → ok (outage a name what) ≡ ok c
      → Denied c
  unfolding outage
  outage-Denied a name what c g h =
      ok-Denied (failed name "store unavailable") (denial dependency_unavailable what) c refl
        (rw g at h)

  on_verdict-cleared :
      (v : MandateVerdict) (w : World S) (c : Checked)
      → (on_verdict ports v w).0 ≡ ok c
      → Denied c ⊎ (v.permitted ≡ true)
  unfolding on_verdict
  on_verdict-cleared v w c h = elim (Bool-cases v.permitted) [
    | inl passes ↦ inr passes
    | inr refused ↦ inl (
        ok-Denied (executed "mandate")
          (denial mandate_exceeded "mandate does not permit this action") c refl (rw refused at h))
  ]

  on_revocation-cleared :
      (a : ProposedAction) (now : ℕ) (m : Mandate) (x : Result Bool) (w : World S) (c : Checked)
      → degrades a ≡ false
      → (on_revocation ports a now m x w).0 ≡ ok c
      → Denied c
        ⊎ ((v : MandateVerdict) × (x ≡ ok false) × (permits m a now ≡ ok v) × (v.permitted ≡ true))
  unfolding on_revocation
  on_revocation-cleared a now m (ok true) w c g h = inl (
      ok-Denied (executed "mandate") (denial mandate_revoked "agent's authority has been revoked") c
        refl h)
  on_revocation-cleared a now m (ok false) w c g h = elim (Result-cases (permits m a now)) [
    | inl (e, stops) ↦ absurd (err≢ok (rw stops at h))
    | inr (v, judged) ↦ elim (on_verdict-cleared v w c (rw judged at h)) [
      | inl denied ↦ inl denied
      | inr passes ↦ inr (v, refl, judged, passes)
    ]
  ]
  on_revocation-cleared a now m (err e) w c g h = elim (Bool-cases (is_mandate_error e)) [
    | inl known ↦ inl (outage-Denied a "mandate" "mandate store unavailable" c g (rw known at h))
    | inr other ↦ absurd (err≢ok (rw other at h))
  ]

  on_mandate-cleared :
      (p : VerifiedPrincipal) (a : ProposedAction) (now : ℕ) (s : S) (w : World S) (c : Checked)
      (x : Result (Option Mandate))
      → (ports.get_mandate p.tenant_id p.agent_ref now s).0 ≡ x
      → degrades a ≡ false
      → (on_mandate ports p a now x w).0 ≡ ok c
      → Denied c ⊎ MandateCleared p a now
  unfolding on_mandate
  on_mandate-cleared p a now s w c (ok none) got g h = inl (
      ok-Denied (executed "mandate") (denial mandate_missing "no active mandate for this agent") c
        refl h)
  on_mandate-cleared p a now s w c (ok (some m)) got g h =
      elim (on_revocation-cleared a now m (ports.is_revoked p.tenant_id p.agent_ref now w.state).0
        (record {
          state = (ports.is_revoked p.tenant_id p.agent_ref now w.state).1;
          calls = read_revocation ∷ w.calls;
        })
        c g h) [
          | inl denied ↦ inl denied
          | inr (v, standing, judged, passes) ↦ inr (record {
            mandate = m;
            verdict = v;
            read_in = s;
            asked_in = w.state;
            active = got;
            standing = standing;
            judged = judged;
            permitted = passes;
          })
        ]
  on_mandate-cleared p a now s w c (err e) got g h = elim (Bool-cases (is_mandate_error e)) [
    | inl known ↦ inl (outage-Denied a "mandate" "mandate store unavailable" c g (rw known at h))
    | inr other ↦ absurd (err≢ok (rw other at h))
  ]

  -- For an action that is not advisory the mandate stage, where it returns, either denies or has
  -- read an active mandate, been told that the agent is not revoked, and found that the mandate
  -- permits the action: an outage of the mandate store never lets it pass.
  pub check_mandate-cleared :
      (p : VerifiedPrincipal) (a : ProposedAction) (now : ℕ) (w : World S) (c : Checked)
      → degrades a ≡ false
      → (check_mandate ports p a now w).0 ≡ ok c
      → Denied c ⊎ MandateCleared p a now
  unfolding check_mandate
  check_mandate-cleared p a now w c g h =
      on_mandate-cleared p a now w.state
        (record {
          state = (ports.get_mandate p.tenant_id p.agent_ref now w.state).1;
          calls = read_mandate ∷ w.calls;
        })
        c (ports.get_mandate p.tenant_id p.agent_ref now w.state).0 refl g h

  -- Both switches were read, in some states, and neither is engaged.
  abbrev pub SwitchesOff : String → Type 0
  SwitchesOff tenant =
      (s t : S) × ((ports.is_globally_engaged s).0 ≡ ok false)
      × ((ports.is_tenant_engaged tenant t).0 ≡ ok false)

  any_switch_engaged-false :
      (tenant : String) (w : World S)
      → (any_switch_engaged ports tenant w).0 ≡ ok false
      → SwitchesOff tenant
  unfolding any_switch_engaged
  any_switch_engaged-false tenant w h = elim (Result-cases (ports.is_globally_engaged w.state).0) [
    | inl (e, stops) ↦ absurd (err≢ok (rw stops at h))
    | inr (true, engaged) ↦ cc
    | inr (false, clear) ↦ (w.state, (ports.is_globally_engaged w.state).1, clear, rw clear at h)
  ]

  on_kill_switch-cleared :
      (x : Result Bool) (w : World S) (c : Checked)
      → (on_kill_switch ports x w).0 ≡ ok c
      → Denied c ⊎ (x ≡ ok false)
  unfolding on_kill_switch
  on_kill_switch-cleared (ok true) w c h = inl (
      ok-Denied (executed "kill_switch") (denial kill_switch_engaged "emergency stop is engaged") c
        refl h)
  on_kill_switch-cleared (ok false) w c h = inr refl
  on_kill_switch-cleared (err e) w c h = elim (Bool-cases (is_kill_switch_unavailable e)) [
    | inl known ↦ inl (
        ok-Denied (failed "kill_switch" "switch unavailable")
          (denial dependency_unavailable "kill switch unavailable") c refl (rw known at h))
    | inr other ↦ absurd (err≢ok (rw other at h))
  ]

  -- For an action that is not advisory the emergency stop, where it returns, either denies or has
  -- read the global and the tenant's switch and found both off: an unreachable switch denies.
  pub check_kill_switch-cleared :
      (tenant : String) (a : ProposedAction) (w : World S) (c : Checked)
      → degrades a ≡ false
      → (check_kill_switch ports tenant a w).0 ≡ ok c
      → Denied c ⊎ SwitchesOff tenant
  unfolding check_kill_switch
  check_kill_switch-cleared tenant a w c g h =
      elim (on_kill_switch-cleared (any_switch_engaged ports tenant w).0
        (any_switch_engaged ports tenant w).1 c (rw g at h)) [
          | inl denied ↦ inl denied
          | inr off ↦ inr (any_switch_engaged-false tenant w off)
        ]
