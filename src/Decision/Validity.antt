-- ===== src/Decision/Validity.antt =====
-- glassbox/domain/decision.py: what every constructed decision satisfies (deny by default).
use glassbox_agentic_governa.Prelude.{
  ◌≡◌, ◌≢◌, refl, sym, ap, ◌∙◌, String, true, false, ◌&&◌, ◌||◌, not, Option, none, some, is_empty,
  arith,
}
use mathlib.Core.Path.{subst}
use glassbox_agentic_governa.Prelude.Text.{codes}
use glassbox_agentic_governa.Errors.{ok, >>=-eq-ok}
use glassbox_agentic_governa.Serialization.{require_non_empty}
use glassbox_agentic_governa.Mandate.{each_ok}
use glassbox_agentic_governa.Decision.{
  DecisionEffect, deny, require_approval, allow, ApprovalState, AuthorizationDecision, is_deny,
  is_some, optional_identifier, optional_digest, approval_metadata, check_effect, make_decision,
}

-- The invariants of a decision.
pub record IsDecision (d : AuthorizationDecision) : Type 0 where
  pub denial_states_reason : is_deny d.effect ≡ true → is_empty d.reasons ≡ false
  pub only_denial_has_reasons : is_deny d.effect ≡ false → is_empty d.reasons ≡ true
  pub cites_bundle :
      is_deny d.effect ≡ false
      → (is_some d.policy_bundle_id ≡ true) × (is_some d.policy_bundle_sha256 ≡ true)
  pub denial_has_no_obligation : is_deny d.effect ≡ true → is_empty d.obligations ≡ true
  pub approval_has_state : d.effect ≡ require_approval → is_some d.approval_state ≡ true
  pub only_approval_has_metadata :
      d.effect ≢ require_approval → (d.approval_id ≡ none) × (d.approval_state ≡ none)

abbrev MetadataOk : DecisionEffect → Option String → Option ApprovalState → Type 0
MetadataOk effect id state =
    (effect ≡ require_approval → is_some state ≡ true)
    × (effect ≢ require_approval → (id ≡ none) × (state ≡ none))

approval_metadata-ok :
    (effect : DecisionEffect) (id : Option String) (given state : Option ApprovalState)
    → approval_metadata effect id given ≡ ok state
    → MetadataOk effect id state
unfolding approval_metadata
approval_metadata-ok require_approval id none state h = (λ e. ground arith, λ n. absurd (n refl))
approval_metadata-ok require_approval id (some g) state h =
    (λ e. ground arith, λ n. absurd (n refl))
approval_metadata-ok deny none none state h = (λ e. cc, λ n. (refl, ground arith))
approval_metadata-ok deny none (some g) state h = cc
approval_metadata-ok deny (some i) g state h = cc
approval_metadata-ok allow none none state h = (λ e. cc, λ n. (refl, ground arith))
approval_metadata-ok allow none (some g) state h = cc
approval_metadata-ok allow (some i) g state h = cc

check_effect-tests :
    (d e : AuthorizationDecision)
    → check_effect d ≡ ok e
    → (e ≡ d)
      × (not (is_deny d.effect && is_empty d.reasons) ≡ true)
      × ((is_deny d.effect || is_empty d.reasons) ≡ true)
      × ((is_deny d.effect || (is_some d.policy_bundle_id && is_some d.policy_bundle_sha256))
          ≡ true)
      × ((is_empty d.obligations || not (is_deny d.effect)) ≡ true)
unfolding check_effect
check_effect-tests d e h = ground arith

check_effect-IsDecision :
    (d e : AuthorizationDecision)
    → check_effect d ≡ ok e
    → MetadataOk d.effect d.approval_id d.approval_state
    → IsDecision e
check_effect-IsDecision d e h m =
    let (same, reason, bare, cited, free) = check_effect-tests d e h in
    subst IsDecision (sym same) (record {
      denial_states_reason = λ t. ground (arith, reason);
      only_denial_has_reasons = λ t. ground (arith, bare);
      cites_bundle = λ t. ground (arith, cited);
      denial_has_no_obligation = λ t. ground (arith, free);
      approval_has_state = m.0;
      only_approval_has_metadata = m.1;
    })

-- Whatever the arguments, a decision that the constructor accepts satisfies the invariants: a
-- denial states a reason and carries no obligation, any other decision states none and cites its
-- policy bundle, and approval metadata stands on require-approval decisions alone. It has the
-- effect, the reasons and the obligations that were asked for.
pub make_decision-IsDecision :
    (d e : AuthorizationDecision)
    → make_decision d ≡ ok e
    → IsDecision e
      × (e.effect ≡ d.effect)
      × (e.reasons ≡ d.reasons)
      × (e.obligations ≡ d.obligations)
unfolding make_decision
make_decision-IsDecision d e h =
    let (_, _, h1) = >>=-eq-ok (require_non_empty (codes d.rationale) "rationale") _ h in
    let (_, _, h2) = >>=-eq-ok (each_ok _ d.matched_rules) _ h1 in
    let (_, _, h3) = >>=-eq-ok (optional_identifier d.policy_bundle_id _) _ h2 in
    let (digest, _, h4) = >>=-eq-ok (optional_digest d.policy_bundle_sha256 _) _ h3 in
    let (_, _, h5) = >>=-eq-ok (optional_identifier d.approval_id _) _ h4 in
    let (state, meta, h6) =
      >>=-eq-ok (approval_metadata d.effect d.approval_id d.approval_state) _ h5 in
    let same = (check_effect-tests _ e h6).0 in
    (check_effect-IsDecision _ e h6 (approval_metadata-ok _ _ _ _ meta), cc, cc, cc)

-- What the constructor keeps of its arguments; the digest is in its canonical form.
pub make_decision-kept :
    (d e : AuthorizationDecision)
    → make_decision d ≡ ok e
    → (e.effect ≡ d.effect)
      × (e.matched_rules ≡ d.matched_rules)
      × (optional_digest d.policy_bundle_sha256 "policy_bundle_sha256" ≡ ok e.policy_bundle_sha256)
unfolding make_decision
make_decision-kept d e h =
    let (_, _, h1) = >>=-eq-ok (require_non_empty (codes d.rationale) "rationale") _ h in
    let (_, _, h2) = >>=-eq-ok (each_ok _ d.matched_rules) _ h1 in
    let (_, _, h3) = >>=-eq-ok (optional_identifier d.policy_bundle_id _) _ h2 in
    let (digest, canonical, h4) = >>=-eq-ok (optional_digest d.policy_bundle_sha256 _) _ h3 in
    let (_, _, h5) = >>=-eq-ok (optional_identifier d.approval_id _) _ h4 in
    let (state, _, h6) =
      >>=-eq-ok (approval_metadata d.effect d.approval_id d.approval_state) _ h5 in
    let same = (check_effect-tests _ e h6).0 in
    (cc, cc, canonical ∙ ap (λ x. ok x.policy_bundle_sha256) (sym same))
