-- ===== src/Mandate/Reasons.antt =====
-- glassbox/domain/mandate.py: which reasons a refusal reports, and what an active mandate is.
use glassbox_agentic_governa.Prelude.{
  ℕ, ◌≡◌, ◌↔◌, Bool, true, false, ◌&&◌, ◌||◌, not, List, [], ◌++◌, any, ltb, leb, ◌==◌, string_eq,
  nat_beq, any-append, ◌∙◌, arith,
}
use mathlib.Core.Path.{ap₂}
use glassbox_agentic_governa.Action.{ProposedAction, severity, exceeds}
use glassbox_agentic_governa.Mandate.{
  Mandate, MandateDenialReason, is_revoked, is_expired, is_active, matches_any, resource_name, when,
  lifecycle_reasons, lacks_pair, refusal_reasons, not_yet_valid, expired, revoked, wrong_tenant,
  wrong_agent, action_not_granted, resource_not_granted, action_resource_pair_not_granted,
  consequence_exceeds_ceiling, exposure_exceeds_ceiling, tool_not_granted, tool_definition_changed,
}

abbrev reason_code : MandateDenialReason → ℕ
reason_code not_yet_valid = 0
reason_code expired = 1
reason_code revoked = 2
reason_code wrong_tenant = 3
reason_code wrong_agent = 4
reason_code action_not_granted = 5
reason_code resource_not_granted = 6
reason_code action_resource_pair_not_granted = 7
reason_code consequence_exceeds_ceiling = 8
reason_code exposure_exceeds_ceiling = 9
reason_code tool_not_granted = 10
reason_code tool_definition_changed = 11

abbrev pub same_reason : MandateDenialReason → MandateDenialReason → Bool
same_reason a b = nat_beq (reason_code a) (reason_code b)

abbrev pub reports : MandateDenialReason → List MandateDenialReason → Bool
reports r rs = any (same_reason r) rs

-- The test that a reason stands for. A mandate is in one lifecycle state at a time: revoked
-- before not yet valid before expired.
abbrev pub fails : Mandate → ProposedAction → ℕ → MandateDenialReason → Bool
fails m a now revoked = is_revoked m now
fails m a now not_yet_valid = not (is_revoked m now) && ltb now m.valid_from
fails m a now expired = not (is_revoked m now) && (leb m.valid_from now && is_expired m now)
fails m a now wrong_tenant = not (a.resource.tenant_id == m.tenant_id)
fails m a now action_not_granted = not (matches_any m.allowed_actions a.action)
fails m a now resource_not_granted = not (matches_any m.allowed_resources (resource_name a))
fails m a now action_resource_pair_not_granted = lacks_pair m a
fails m a now consequence_exceeds_ceiling =
    ltb (severity m.max_consequence) (severity a.consequence)
fails m a now exposure_exceeds_ceiling = exceeds a.exposure m.max_exposure
fails m a now _ = false

abbrev lifecycle_part : Mandate → ProposedAction → ℕ → MandateDenialReason → Bool
lifecycle_part m a now not_yet_valid = fails m a now not_yet_valid
lifecycle_part m a now expired = fails m a now expired
lifecycle_part m a now revoked = fails m a now revoked
lifecycle_part m a now _ = false

reports-lifecycle :
    (m : Mandate) (a : ProposedAction) (now : ℕ) (r : MandateDenialReason)
    → reports r (lifecycle_reasons m now) ≡ lifecycle_part m a now r
unfolding lifecycle_reasons
reports-lifecycle m a now not_yet_valid = ground arith
reports-lifecycle m a now r = ground arith

abbrev other_reasons : Bool → Bool → Bool → Bool → Bool → Bool → List MandateDenialReason
other_reasons t a r p c e =
    when t wrong_tenant
    ++ (when a action_not_granted
        ++ (when r resource_not_granted
            ++ (when p action_resource_pair_not_granted
                ++ (when c consequence_exceeds_ceiling ++ when e exposure_exceeds_ceiling))))

abbrev other_part : Bool → Bool → Bool → Bool → Bool → Bool → MandateDenialReason → Bool
other_part t a r p c e wrong_tenant = t
other_part t a r p c e action_not_granted = a
other_part t a r p c e resource_not_granted = r
other_part t a r p c e action_resource_pair_not_granted = p
other_part t a r p c e consequence_exceeds_ceiling = c
other_part t a r p c e exposure_exceeds_ceiling = e
other_part t a r p c e _ = false

-- The first clause makes the second one split on the reason.
reports-other :
    (t a r p c e : Bool) (x : MandateDenialReason)
    → reports x (other_reasons t a r p c e) ≡ other_part t a r p c e x
reports-other t a r p c e wrong_tenant = ground arith
reports-other t a r p c e x = ground arith

part_or_part :
    (m : Mandate) (a : ProposedAction) (now : ℕ) (r : MandateDenialReason)
    → (lifecycle_part m a now r
        || other_part
            (fails m a now wrong_tenant)
            (fails m a now action_not_granted)
            (fails m a now resource_not_granted)
            (fails m a now action_resource_pair_not_granted)
            (fails m a now consequence_exceeds_ceiling)
            (fails m a now exposure_exceeds_ceiling)
            r)
      ≡ fails m a now r
part_or_part m a now not_yet_valid = ground arith
part_or_part m a now r = ground arith

-- A refusal reports every dimension that fails, and nothing else: each reason is in the list
-- exactly when the test that it stands for fails. The reasons about the agent and about tools
-- are never reported by `permits`.
pub refusal_reasons_complete :
    (m : Mandate) (a : ProposedAction) (now : ℕ) (r : MandateDenialReason)
    → reports r (refusal_reasons m a now) ≡ fails m a now r
unfolding refusal_reasons
refusal_reasons_complete m a now r =
    any-append (same_reason r) (lifecycle_reasons m now) _
    ∙ ap₂ ◌||◌ (reports-lifecycle m a now r) (reports-other _ _ _ _ _ _ r)
    ∙ part_or_part m a now r

-- A mandate is active exactly when no lifecycle reason is reported.
pub is_active_iff :
    (m : Mandate) (now : ℕ) → (is_active m now ≡ true) ↔ (lifecycle_reasons m now ≡ [])
unfolding is_active lifecycle_reasons is_expired
is_active_iff m now = ground arith
