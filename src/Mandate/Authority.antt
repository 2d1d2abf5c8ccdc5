-- ===== src/Mandate/Authority.antt =====
-- glassbox/domain/mandate.py: `permits` against the authority that a mandate grants.
use glassbox_agentic_governa.Prelude.{
  ℕ, ◌≤◌, ◌<◌, ◌≡◌, refl, ◌↔◌, Bool, true, false, not, some, List, [], ◌∷◌, ◌++◌, any, is_empty,
  ltb, leb, ◌==◌, string_eq, arith, ◌⊎◌, inl, inr, Option-cases, Bool-cases,
}
use glassbox_agentic_governa.Errors.{ok}
use glassbox_agentic_governa.Serialization.{require_timestamp, max_timestamp}
use glassbox_agentic_governa.Action.{ProposedAction, severity, exceeds}
use glassbox_agentic_governa.Action.Exposures.{Within, exceeds_iff}
use glassbox_agentic_governa.Mandate.{
  Mandate, MandateVerdict, MandateDenialReason, is_revoked, is_expired, matches_any, pair_matches,
  resource_name, when, lifecycle_reasons, lacks_pair, refusal_reasons, verdict_of, permits, permit,
  refuse,
}

-- The authority to perform an action at a moment, condition by condition.
pub record Authorises (m : Mandate) (a : ProposedAction) (moment : ℕ) : Type 0 where
  pub begun : m.valid_from ≤ moment
  pub not_over : (stop : ℕ) → m.valid_until ≡ some stop → moment < stop
  pub not_revoked : (at : ℕ) → m.revoked_at ≡ some at → moment < at
  pub same_tenant : a.resource.tenant_id ≡ m.tenant_id
  pub action_granted : matches_any m.allowed_actions a.action ≡ true
  pub resource_granted : matches_any m.allowed_resources (resource_name a) ≡ true
  pub pair_granted :
      (m.resource_scoped_grants ≡ [])
      ⊎ (any (λ g. pair_matches g a.action (resource_name a)) m.resource_scoped_grants ≡ true)
  pub consequence_within : severity a.consequence ≤ severity m.max_consequence
  pub exposure_within : Within a.exposure m.max_exposure

is_empty_iff : {A : Type 0} (xs : List A) → (is_empty xs ≡ true) ↔ (xs ≡ [])
is_empty_iff [] = (λ h. refl, λ h. refl)
is_empty_iff (x ∷ xs) = ((λ h. cc), (λ h. cc))

lifecycle_clear :
    (m : Mandate) (moment : ℕ)
    → lifecycle_reasons m moment ≡ []
    → (m.valid_from ≤ moment)
      × ((stop : ℕ) → m.valid_until ≡ some stop → moment < stop)
      × ((at : ℕ) → m.revoked_at ≡ some at → moment < at)
unfolding lifecycle_reasons is_revoked is_expired
lifecycle_clear m moment h = (ground arith, (λ stop e. ground arith), (λ at e. ground arith))

not_revoked_lem :
    (m : Mandate) (moment : ℕ)
    → ((at : ℕ) → m.revoked_at ≡ some at → moment < at)
    → is_revoked m moment ≡ false
unfolding is_revoked
not_revoked_lem m moment h = elim (Option-cases m.revoked_at) [
  | inl e ↦ rw (e, is_revoked)
  | inr (at, e) ↦ ground (arith, h at e)
]

not_expired_lem :
    (m : Mandate) (moment : ℕ)
    → ((stop : ℕ) → m.valid_until ≡ some stop → moment < stop)
    → is_expired m moment ≡ false
unfolding is_expired
not_expired_lem m moment h = elim (Option-cases m.valid_until) [
  | inl e ↦ rw (e, is_expired)
  | inr (stop, e) ↦ ground (arith, h stop e)
]

lifecycle_none :
    (m : Mandate) (a : ProposedAction) (moment : ℕ)
    → Authorises m a moment
    → lifecycle_reasons m moment ≡ []
unfolding lifecycle_reasons
lifecycle_none m a moment h =
    let begun : ltb moment m.valid_from ≡ false = ground arith in
    rw (not_revoked_lem m moment h.not_revoked, begun, not_expired_lem m moment h.not_over) refl

when-empty : (b : Bool) (r : MandateDenialReason) → when b r ≡ [] → b ≡ false
when-empty b r h = ground arith

append-empty : {A : Type 0} (xs ys : List A) → xs ++ ys ≡ [] → (xs ≡ []) × (ys ≡ [])
append-empty [] ys h = (refl, h)
append-empty (x ∷ xs) ys h = cc

abbrev AllFalse : Bool → Bool → Bool → Bool → Bool → Bool → Type 0
AllFalse t a r p c e =
    (t ≡ false) × (a ≡ false) × (r ≡ false) × (p ≡ false) × (c ≡ false) × (e ≡ false)

verdict_of_iff :
    (rs : List MandateDenialReason) (version : ℕ)
    → (v : MandateVerdict) × (verdict_of rs version ≡ ok v)
      × (v.mandate_version ≡ version)
      × ((v.permitted ≡ true) ↔ (rs ≡ []))
unfolding verdict_of permit refuse
verdict_of_iff [] version = (_, refl, refl, ((λ h. refl), (λ h. refl)))
verdict_of_iff (r ∷ rs) version = (_, refl, refl, ((λ h. cc), (λ h. cc)))

module _ (m : Mandate) (a : ProposedAction) (moment : ℕ) where
  no_reason :
      refusal_reasons m a moment ≡ []
      → (lifecycle_reasons m moment ≡ [])
        × AllFalse
            (not (a.resource.tenant_id == m.tenant_id))
            (not (matches_any m.allowed_actions a.action))
            (not (matches_any m.allowed_resources (resource_name a)))
            (lacks_pair m a)
            (ltb (severity m.max_consequence) (severity a.consequence))
            (exceeds a.exposure m.max_exposure)
  unfolding refusal_reasons
  no_reason h =
      let parts = append-empty (lifecycle_reasons m moment) _ h in ground (arith, parts.0, parts.1)

  pair_found :
      lacks_pair m a ≡ false
      → (m.resource_scoped_grants ≡ [])
        ⊎ (any (λ g. pair_matches g a.action (resource_name a)) m.resource_scoped_grants ≡ true)
  unfolding lacks_pair
  pair_found h = elim (Bool-cases (is_empty m.resource_scoped_grants)) [
    | inl e ↦ inl ((is_empty_iff _).0 e)
    | inr e ↦ inr (ground arith)
  ]

  pair_kept : Authorises m a moment → lacks_pair m a ≡ false
  unfolding lacks_pair
  pair_kept h = ground (arith, h.pair_granted)

  clear-Authorises : refusal_reasons m a moment ≡ [] → Authorises m a moment
  clear-Authorises h =
      let (life, rest) = no_reason h in
      let (t, ac, re, pa, co, ex) = rest in
      let (begun, over, rev) = lifecycle_clear m moment life in
      record {
        begun = begun;
        not_over = over;
        not_revoked = rev;
        same_tenant = (string_eq.beq_iff _ _).0 (ground (arith, t));
        action_granted = ground (arith, ac);
        resource_granted = ground (arith, re);
        pair_granted = pair_found pa;
        consequence_within = ground (arith, co);
        exposure_within = (exceeds_iff _ _).0 ex;
      }

  Authorises-clear : Authorises m a moment → refusal_reasons m a moment ≡ []
  unfolding refusal_reasons
  Authorises-clear h =
      let same : (a.resource.tenant_id == m.tenant_id) ≡ true =
        (string_eq.beq_iff _ _).1 h.same_tenant in
      let within : ltb (severity m.max_consequence) (severity a.consequence) ≡ false =
        ground arith in
      rw
        (
          lifecycle_none m a moment h,
          same,
          h.action_granted,
          h.resource_granted,
          pair_kept h,
          within,
          (exceeds_iff _ _).1 h.exposure_within,
        )
        refl

  -- At a moment that is a timestamp, `permits` gives a verdict, and the verdict permits exactly
  -- when the mandate grants the action on every dimension: it is live, of the action's tenant,
  -- some pattern grants the action, the resource and, where pairs are declared, the pair, and the
  -- consequence and the exposure are within their ceilings. It carries the mandate's version.
  pub permits_iff :
      moment ≤ max_timestamp
      → (v : MandateVerdict) × (permits m a moment ≡ ok v)
        × (v.mandate_version ≡ m.version)
        × ((v.permitted ≡ true) ↔ Authorises m a moment)
  unfolding permits require_timestamp
  permits_iff h =
      let inside : leb moment max_timestamp ≡ true = ground arith in
      let (v, made, version, iff) = verdict_of_iff (refusal_reasons m a moment) m.version in
      (
        v,
        rw inside made,
        version,
        (λ p. clear-Authorises (iff.0 p), λ g. iff.1 (Authorises-clear g)),
      )
