-- ===== src/Policy.antt =====
-- glassbox/domain/policy_bundle.py and glassbox/adapters/outbound/memory/policy.py: rules, bundles,
-- conflicts between rules, and the decision point. Amounts and priorities are naturals; the source
-- has floats and integers, of which only the order is read. The digest of a bundle and the MAC
-- signer are parameters.
pub mod Matching
pub mod Decisions
pub mod Tests
use glassbox_agentic_governa.Prelude.{
  ℕ, String, Bool, true, false, not, ◌&&◌, ◌||◌, Option, none, some, List, [], ◌∷◌, ◌++◌,
  if◌then◌else◌, ltb, leb, any, find, length, keep, map, ◌==◌, string_eq, nat_beq,
}
use Prim.Native.String.{◌++◌ as string_append}
use glassbox_agentic_governa.Prelude.Text.{codes, starts_with}
use glassbox_agentic_governa.Prelude.Dict.{Dict, lookup, insert}
use glassbox_agentic_governa.Errors.{
  GlassBoxError, Result, ok, err, domain_validation, policy_bundle_unavailable,
  policy_bundle_signature, is_signing_unavailable, ◌>>=◌, ◌>>◌, require,
}
use glassbox_agentic_governa.Serialization.{
  require_identifier, require_non_empty, require_timestamp,
}
use glassbox_agentic_governa.Glob.{fnmatchcase}
use glassbox_agentic_governa.Action.{ProposedAction, ConsequenceClass, severity}
use glassbox_agentic_governa.Mandate.{resource_name}
use glassbox_agentic_governa.Decision.{
  pending, AuthorizationDecision, DecisionEffect, DenialReason, policy_denied, make_decision,
}

pub data RuleEffect : Type 0 where
  allow deny require_approval : RuleEffect

pub record PolicyRule : Type 0 where
  pub name : String
  pub effect : RuleEffect
  pub action_pattern : String
  pub resource_pattern : String
  pub max_consequence : Option ConsequenceClass
  pub max_monetary : Option ℕ
  pub priority : ℕ
  pub rationale : String

-- PolicyRule.__post_init__
unfoldable pub make_rule : PolicyRule → Result PolicyRule
make_rule r = do
  require_identifier (codes r.name) "name"
  require_non_empty (codes r.action_pattern) "action_pattern"
  require_non_empty (codes r.resource_pattern) "resource_pattern"
  ok r

unfoldable pub above_consequence : Option ConsequenceClass → ConsequenceClass → Bool
above_consequence none c = false
above_consequence (some ceiling) c = ltb (severity ceiling) (severity c)

unfoldable pub above_monetary : Option ℕ → Option ℕ → Bool
above_monetary none amount = false
above_monetary (some ceiling) none = true
above_monetary (some ceiling) (some amount) = ltb ceiling amount

-- PolicyRule.matches
unfoldable pub matches : PolicyRule → ProposedAction → Bool
matches r a =
    if not (fnmatchcase a.action r.action_pattern)
    then false
    else if not (fnmatchcase (resource_name a) r.resource_pattern)
    then false
    else if above_consequence r.max_consequence a.consequence
    then false
    else if above_monetary r.max_monetary a.exposure.monetary
    then false
    else true

pub record PolicyBundle : Type 0 where
  pub bundle_id : String
  pub tenant_id : String
  pub version : ℕ
  pub created_at : ℕ
  pub rules : List PolicyRule

abbrev pub max_rules_per_bundle : ℕ
max_rules_per_bundle = 10000

-- The loop over the names seen so far.
unfoldable pub repeats_name : List String → List PolicyRule → Bool
repeats_name seen [] = false
repeats_name seen (r ∷ rs) =
    let rest = repeats_name (r.name ∷ seen) rs in if any (λ n. n == r.name) seen then true else rest

-- Python's stable `sorted` by priority, as an insertion from the end: a rule goes before those of
-- its own priority, which came after it.
unfoldable pub insert_rule : PolicyRule → List PolicyRule → List PolicyRule
insert_rule r [] = r ∷ []
insert_rule r (q ∷ qs) =
    let rest = insert_rule r qs in if leb r.priority q.priority then r ∷ q ∷ qs else q ∷ rest

unfoldable pub sort_rules : List PolicyRule → List PolicyRule
sort_rules [] = []
sort_rules (r ∷ rs) = insert_rule r (sort_rules rs)

-- PolicyBundle.__post_init__
unfoldable pub make_bundle : PolicyBundle → Result PolicyBundle
make_bundle b = do
  require_identifier (codes b.bundle_id) "bundle_id"
  require_identifier (codes b.tenant_id) "tenant_id"
  require_timestamp b.created_at "created_at"
  require (leb (length b.rules) max_rules_per_bundle) (domain_validation "rules")
  require (not (repeats_name [] b.rules)) (domain_validation "rules")
  ok (record b { rules = sort_rules b.rules })

-- PolicyBundle.matching_rule
unfoldable pub matching_rule : PolicyBundle → ProposedAction → Option PolicyRule
matching_rule b a = find (λ r. matches r a) b.rules

-- _patterns_overlap, with the test `"*" in pattern` and the part before the first star.
unfoldable pub has_star : List ℕ → Bool
has_star cs = any (λ c. nat_beq c b'*') cs

unfoldable pub prefix_of : List ℕ → List ℕ
prefix_of [] = []
prefix_of (c ∷ cs) = let rest = prefix_of cs in if nat_beq c b'*' then [] else c ∷ rest

unfoldable pub patterns_overlap : String → String → Bool
patterns_overlap p q =
    if not (has_star (codes p)) && not (has_star (codes q))
    then p == q
    else (starts_with (prefix_of (codes q)) (prefix_of (codes p))
        || starts_with (prefix_of (codes p)) (prefix_of (codes q)))

abbrev pub same_effect : RuleEffect → RuleEffect → Bool
same_effect allow allow = true
same_effect deny deny = true
same_effect require_approval require_approval = true
same_effect _ _ = false

unfoldable pub contradicts : PolicyRule → PolicyRule → Bool
contradicts a b =
    if same_effect a.effect b.effect
    then false
    else (patterns_overlap a.action_pattern b.action_pattern
        && patterns_overlap a.resource_pattern b.resource_pattern)

-- The loops of detect_conflicts, over the rules of a bundle; a conflict is given by its two names.
unfoldable pub conflicts_among : List PolicyRule → List (String × String)
conflicts_among [] = []
conflicts_among (a ∷ rules) =
    map (λ (b : PolicyRule). (a.name, b.name)) (keep (λ b. contradicts a b) rules)
    ++ conflicts_among rules

abbrev pub detect_conflicts : PolicyBundle → List (String × String)
detect_conflicts b = conflicts_among b.rules

abbrev pub or_default : String → String → String
or_default text default = if text == "" then default else text

-- The arguments of the decision that the effect of a matching rule makes.
unfoldable pub decision_by : PolicyBundle → List ℕ → PolicyRule → RuleEffect → AuthorizationDecision
decision_by b digest r deny = record {
  effect = DecisionEffect.deny;
  reasons = policy_denied ∷ [];
  rationale = or_default r.rationale (string_append "denied by rule '" (string_append r.name "'"));
  policy_bundle_id = some b.bundle_id;
  policy_bundle_sha256 = some digest;
  matched_rules = r.name ∷ [];
  obligations = [];
  approval_id = none;
  approval_state = none;
}
decision_by b digest r require_approval = record {
  effect = DecisionEffect.require_approval;
  reasons = [];
  rationale =
      or_default r.rationale
        (string_append "rule '" (string_append r.name "' requires human approval"));
  policy_bundle_id = some b.bundle_id;
  policy_bundle_sha256 = some digest;
  matched_rules = r.name ∷ [];
  obligations = [];
  approval_id = none;
  approval_state = some pending;
}
decision_by b digest r allow = record {
  effect = DecisionEffect.allow;
  reasons = [];
  rationale =
      or_default r.rationale (string_append "permitted by rule '" (string_append r.name "'"));
  policy_bundle_id = some b.bundle_id;
  policy_bundle_sha256 = some digest;
  matched_rules = r.name ∷ [];
  obligations = [];
  approval_id = none;
  approval_state = none;
}

-- Those of AuthorizationDecision.deny, for an action that no rule matches.
abbrev pub default_denial : PolicyBundle → List ℕ → AuthorizationDecision
default_denial b digest = record {
  effect = DecisionEffect.deny;
  reasons = policy_denied ∷ [];
  rationale = "no rule in the active bundle matches this action; deny by default";
  policy_bundle_id = some b.bundle_id;
  policy_bundle_sha256 = some digest;
  matched_rules = [];
  obligations = [];
  approval_id = none;
  approval_state = none;
}

unfoldable pub decision_for : PolicyBundle → List ℕ → Option PolicyRule → AuthorizationDecision
decision_for b digest none = default_denial b digest
decision_for b digest (some r) = decision_by b digest r r.effect

pub record SignedPolicyBundle : Type 0 where
  pub bundle : PolicyBundle
  pub mac : List ℕ
  pub signer_key_id : String

-- SignedPolicyBundle.__post_init__
unfoldable pub make_signed_bundle : SignedPolicyBundle → Result SignedPolicyBundle
make_signed_bundle s = do
  require (leb 32 (length s.mac)) (domain_validation "mac")
  require_identifier (codes s.signer_key_id) "signer_key_id"
  ok s

-- DeclarativePolicyDecisionPoint
pub record DecisionPoint : Type 0 where
  pub bundles : Dict String SignedPolicyBundle
  pub available : Bool

abbrev pub with_bundle : SignedPolicyBundle → DecisionPoint → DecisionPoint
with_bundle signed p = record p { bundles = insert signed.bundle.tenant_id signed p.bundles }

-- DeclarativePolicyDecisionPoint.load_bundle, with the signer's `mac`, which may raise, and its key.
-- The bundle that it signs becomes active without a verification.
unfoldable pub load_bundle :
    (PolicyBundle → Result (List ℕ))
    → String
    → PolicyBundle
    → DecisionPoint
    → Result (SignedPolicyBundle × DecisionPoint)
load_bundle sign key_id b p = do
  mac ← sign b
  signed ← make_signed_bundle (record { bundle = b; mac = mac; signer_key_id = key_id })
  ok (signed, with_bundle signed p)

-- DeclarativePolicyDecisionPoint.set_available
unfoldable pub set_available : Bool → DecisionPoint → DecisionPoint
set_available available p = record p { available = available }

-- The digest of a bundle, and the signer: `verify` may raise.
module _ (digest_of : PolicyBundle → List ℕ)
    (verify : PolicyBundle → List ℕ → String → Result Bool) where
  unfoldable pub activate : SignedPolicyBundle → DecisionPoint → Result Bool → Result DecisionPoint
  activate signed p (ok true) = ok (with_bundle signed p)
  activate signed p (ok false) = err policy_bundle_signature
  activate signed p (err e) =
      err (if is_signing_unavailable e then policy_bundle_unavailable else e)

  -- DeclarativePolicyDecisionPoint.load_signed_bundle
  unfoldable pub load_signed_bundle : SignedPolicyBundle → DecisionPoint → Result DecisionPoint
  load_signed_bundle signed p =
      activate signed p (verify signed.bundle signed.mac signed.signer_key_id)

  -- DeclarativePolicyDecisionPoint._active
  unfoldable pub active : String → DecisionPoint → Result SignedPolicyBundle
  active tenant p =
      if not p.available
      then err policy_bundle_unavailable
      else elim (lookup tenant p.bundles) [ none ↦ err policy_bundle_unavailable | some s ↦ ok s ]

  -- DeclarativePolicyDecisionPoint.decide
  unfoldable pub decide : String → ProposedAction → DecisionPoint → Result AuthorizationDecision
  decide tenant a p = do
    signed ← active tenant p
    make_decision
        (decision_for signed.bundle (digest_of signed.bundle) (matching_rule signed.bundle a))

  -- DeclarativePolicyDecisionPoint.active_bundle_digest
  unfoldable pub active_bundle_digest : String → DecisionPoint → Result (List ℕ)
  active_bundle_digest tenant p = do signed ← active tenant p; ok (digest_of signed.bundle)
