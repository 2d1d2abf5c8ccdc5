-- ===== src/Policy/Decisions.antt =====
-- glassbox/adapters/outbound/memory/policy.py: what the decision point decides, and what loading a
-- bundle changes.
use glassbox_agentic_governa.Prelude.{
  ℕ, ◌≡◌, refl, sym, ap, ◌∙◌, leb, length, String, Bool, true, false, ◌&&◌, Option, none, some,
  List, [], ◌∷◌, if◌then◌else◌, ◌==◌, string_eq, Bool-cases, inl, inr,
}
use mathlib.Core.Path.{subst}
use glassbox_agentic_governa.Prelude.Dict.{lookup-insert}
use glassbox_agentic_governa.Errors.{
  Result, ok, Result-cases, err≢ok, >>=-eq-ok, require, domain_validation,
}
use glassbox_agentic_governa.Action.{ProposedAction}
use glassbox_agentic_governa.Decision.{
  AuthorizationDecision, permits_dispatch, make_decision, optional_digest,
}
use glassbox_agentic_governa.Decision.Validity.{make_decision-kept}
use glassbox_agentic_governa.Prelude.Text.{codes}
use glassbox_agentic_governa.Serialization.{require_identifier}
use glassbox_agentic_governa.Policy.{
  PolicyBundle, PolicyRule, SignedPolicyBundle, DecisionPoint, RuleEffect, matching_rule,
  decision_for, decision_by, with_bundle, load_bundle, make_signed_bundle, load_signed_bundle,
  activate, active, decide,
}

decision_by-permits :
    (b : PolicyBundle) (digest : List ℕ) (r : PolicyRule) (e : RuleEffect)
    → permits_dispatch (decision_by b digest r e) ≡ true
    → e ≡ RuleEffect.allow
unfolding decision_by
decision_by-permits b digest r RuleEffect.allow h = refl
decision_by-permits b digest r RuleEffect.deny h = cc
decision_by-permits b digest r RuleEffect.require_approval h = cc

decision_by-cites :
    (b : PolicyBundle) (digest : List ℕ) (r : PolicyRule) (e : RuleEffect)
    → ((decision_by b digest r e).policy_bundle_sha256 ≡ some digest)
      × ((decision_by b digest r e).matched_rules ≡ r.name ∷ [])
unfolding decision_by
decision_by-cites b digest r RuleEffect.allow = (refl, refl)
decision_by-cites b digest r RuleEffect.deny = (refl, refl)
decision_by-cites b digest r RuleEffect.require_approval = (refl, refl)

module _ (digest_of : PolicyBundle → List ℕ)
    (verify : PolicyBundle → List ℕ → String → Result Bool) where
  -- The grounds on which a decision allows.
  pub record Granted (tenant : String) (a : ProposedAction) (p : DecisionPoint)
      (d : AuthorizationDecision) : Type 0 where
    pub signed : SignedPolicyBundle
    pub rule : PolicyRule
    pub is_active : active digest_of verify tenant p ≡ ok signed
    pub applies : matching_rule signed.bundle a ≡ some rule
    pub grants : rule.effect ≡ RuleEffect.allow
    pub cites :
        optional_digest (some (digest_of signed.bundle)) "policy_bundle_sha256"
        ≡ ok d.policy_bundle_sha256
    pub names : d.matched_rules ≡ rule.name ∷ []

  Granted-by :
      (tenant : String) (a : ProposedAction) (p : DecisionPoint) (s : SignedPolicyBundle)
      (o : Option PolicyRule) (d : AuthorizationDecision)
      → active digest_of verify tenant p ≡ ok s
      → matching_rule s.bundle a ≡ o
      → make_decision (decision_for s.bundle (digest_of s.bundle) o) ≡ ok d
      → permits_dispatch d ≡ true
      → Granted tenant a p d
  unfolding decision_for
  Granted-by tenant a p s none d h m made g = let effect = (make_decision-kept _ d made).0 in cc
  Granted-by tenant a p s (some r) d h m made g =
      let digest = digest_of s.bundle in
      let (effect, rules, cited) =
        make_decision-kept (decision_by s.bundle digest r r.effect) d made in
      let drafted = decision_by-cites s.bundle digest r r.effect in
      record {
        signed = s;
        rule = r;
        is_active = h;
        applies = m;
        grants = decision_by-permits s.bundle digest r r.effect (rw effect at g);
        cites =
            subst (λ x. optional_digest x "policy_bundle_sha256" ≡ ok d.policy_bundle_sha256)
              drafted.0 cited;
        names = rules ∙ drafted.1;
      }

  -- The decision point allows nothing by default: where it decides to allow, the tenant has an
  -- active bundle, the rule that this bundle applies to the action has the effect to allow, and the
  -- decision cites the digest of that bundle, in canonical form, and the name of that rule.
  pub decide-Granted :
      (tenant : String) (a : ProposedAction) (p : DecisionPoint) (d : AuthorizationDecision)
      → decide digest_of verify tenant a p ≡ ok d
      → permits_dispatch d ≡ true
      → Granted tenant a p d
  unfolding decide
  decide-Granted tenant a p d h g =
      let (s, found, made) = >>=-eq-ok (active digest_of verify tenant p) _ h in
      Granted-by tenant a p s (matching_rule s.bundle a) d found refl made g

  -- What a bundle decides, with the checks of the decision's constructor.
  abbrev pub decided_by : SignedPolicyBundle → ProposedAction → Result AuthorizationDecision
  decided_by signed a =
      make_decision
        (decision_for signed.bundle (digest_of signed.bundle) (matching_rule signed.bundle a))

  decide-with_bundle :
      (signed : SignedPolicyBundle) (p : DecisionPoint) (tenant : String) (a : ProposedAction)
      → decide digest_of verify tenant a (with_bundle signed p) ≡ (
          if signed.bundle.tenant_id == tenant && p.available
          then decided_by signed a
          else decide digest_of verify tenant a p)
  unfolding decide active
  decide-with_bundle signed p tenant a =
      let found = lookup-insert signed.bundle.tenant_id tenant signed p.bundles in
      elim (Bool-cases p.available) [
        | inl up ↦ elim (Bool-cases (signed.bundle.tenant_id == tenant)) [
          | inl mine ↦ rw (up, found, mine) refl
          | inr other ↦ rw (up, found, other) refl
        ]
        | inr down ↦ elim (Bool-cases (signed.bundle.tenant_id == tenant)) [
          | inl mine ↦ rw (down, mine) refl
          | inr other ↦ rw (down, other) refl
        ]
      ]

  -- load_signed_bundle succeeds only for a bundle whose signature verifies. From then on, while the
  -- point is available, the bundle's tenant is decided by that bundle, an error of the decision's
  -- constructor included, and every other tenant as before.
  pub decide-load_signed_bundle :
      (signed : SignedPolicyBundle) (p q : DecisionPoint) (tenant : String) (a : ProposedAction)
      → load_signed_bundle digest_of verify signed p ≡ ok q
      → (verify signed.bundle signed.mac signed.signer_key_id ≡ ok true)
        × (decide digest_of verify tenant a q ≡ (
            if signed.bundle.tenant_id == tenant && p.available
            then decided_by signed a
            else decide digest_of verify tenant a p))
  unfolding load_signed_bundle activate decide active
  decide-load_signed_bundle signed p q tenant a h =
      elim (Result-cases (verify signed.bundle signed.mac signed.signer_key_id)) [
        | inl (e, stops) ↦ absurd (err≢ok (rw stops at h))
        | inr (false, invalid) ↦ absurd (err≢ok (rw invalid at h))
        | inr (true, valid) ↦
            let loaded : ok (with_bundle signed p) ≡ ok q = rw valid at h in
            let same : with_bundle signed p ≡ q = cc in
            (valid, rw (← same) (decide-with_bundle signed p tenant a))
      ]

  -- load_bundle trusts its publisher: the bundle decides its tenant from then on, under the MAC that
  -- the signer made, and nothing is verified.
  pub decide-load_bundle :
      (sign : PolicyBundle → Result (List ℕ)) (key_id : String) (b : PolicyBundle)
      (signed : SignedPolicyBundle) (p q : DecisionPoint) (tenant : String) (a : ProposedAction)
      → load_bundle sign key_id b p ≡ ok (signed, q)
      → (signed.bundle ≡ b)
        × (sign b ≡ ok signed.mac)
        × (decide digest_of verify tenant a q ≡ (
            if signed.bundle.tenant_id == tenant && p.available
            then decided_by signed a
            else decide digest_of verify tenant a p))
  unfolding load_bundle make_signed_bundle
  decide-load_bundle sign key_id b signed p q tenant a h =
      let (mac, made, h1) = >>=-eq-ok (sign b) _ h in
      let drafted : SignedPolicyBundle = record { bundle = b; mac = mac; signer_key_id = key_id } in
      let (s, kept, h2) = >>=-eq-ok (make_signed_bundle drafted) _ h1 in
      let (_, _, k1) = >>=-eq-ok (require (leb 32 (length mac)) (domain_validation "mac")) _ kept in
      let (_, _, k2) = >>=-eq-ok (require_identifier (codes key_id) "signer_key_id") _ k1 in
      let signed_as : s ≡ signed = cc in
      let loaded : with_bundle s p ≡ q = cc in
      let drawn : drafted ≡ signed = cc in
      (
        ap (λ x. x.bundle) (sym drawn),
        made ∙ ap (λ x. ok x.mac) drawn,
        subst
            (λ e. decide digest_of verify tenant a e ≡ (
              if signed.bundle.tenant_id == tenant && p.available
              then decided_by signed a
              else decide digest_of verify tenant a p))
            (ap (λ x. with_bundle x p) (sym signed_as) ∙ loaded)
            (decide-with_bundle signed p tenant a),
      )
