-- ===== src/Policy/Tests.antt =====
-- glassbox/domain/policy_bundle.py and glassbox/adapters/outbound/memory/policy.py at concrete
-- inputs: a bundle that denies wires and allows the rest.
use glassbox_agentic_governa.Prelude.{
  ℕ, ◌≡◌, refl, String, Bool, true, false, none, some, List, [], ◌∷◌, All, string_eq,
}
use glassbox_agentic_governa.Prelude.Dict.{insert, lookup}
use glassbox_agentic_governa.Errors.{Result, ok}
use glassbox_agentic_governa.Serialization.{
  require_non_empty, require_identifier, is_whitespace, is_blank, matches_identifier_pattern,
  matches_tail, is_identifier_char, is_alphanumeric, require_timestamp, require_sha256_hex, is_hex,
}
use glassbox_agentic_governa.Mandate.Tests.{wire_400}
use glassbox_agentic_governa.Glob.Laws.{fnmatchcase-star}
use glassbox_agentic_governa.Decision.{
  AuthorizationDecision, DecisionEffect, make_decision, optional_identifier, optional_digest,
  approval_metadata, check_effect,
}
use glassbox_agentic_governa.Prelude.Text.{lower, to_lower}
use glassbox_agentic_governa.Mandate.{each_ok}
use glassbox_agentic_governa.Serialization.Tests.{zero_digest}
use glassbox_agentic_governa.Policy.{
  PolicyRule, PolicyBundle, RuleEffect, make_bundle, repeats_name, sort_rules, insert_rule,
  matching_rule, matches, SignedPolicyBundle, DecisionPoint, decide, active, decision_for,
  decision_by, load_signed_bundle, activate, above_consequence, above_monetary,
}
use glassbox_agentic_governa.Policy.Matching.{Best, matching_rule-Best}
use glassbox_agentic_governa.Policy.Decisions.{Granted, decide-Granted, decide-load_signed_bundle}

abbrev rule : String → RuleEffect → String → ℕ → PolicyRule
rule name effect pattern priority = record {
  name = name;
  effect = effect;
  action_pattern = pattern;
  resource_pattern = "*";
  max_consequence = none;
  max_monetary = none;
  priority = priority;
  rationale = "";
}

abbrev draft : PolicyBundle
draft = record {
  bundle_id = "b1";
  tenant_id = "t1";
  version = 1;
  created_at = 0;
  rules = rule "rest" RuleEffect.allow "*" 100 ∷ rule "wires" RuleEffect.deny "payments.*" 10 ∷ [];
}

abbrev built : PolicyBundle
built = record draft {
  rules = rule "wires" RuleEffect.deny "payments.*" 10 ∷ rule "rest" RuleEffect.allow "*" 100 ∷ [];
}

draft-built : make_bundle draft ≡ ok built
unfolding make_bundle repeats_name sort_rules insert_rule require_identifier require_non_empty
    is_blank is_whitespace matches_identifier_pattern matches_tail is_identifier_char
    is_alphanumeric require_timestamp
draft-built = refl

matching_rule-Best_example :
    (matching_rule built wire_400 ≡ none → All (λ q. matches q wire_400 ≡ false) draft.rules)
    × ((r : PolicyRule)
        → matching_rule built wire_400 ≡ some r
        → (matches r wire_400 ≡ true)
          × Best wire_400 r draft.rules
          × ((P : PolicyRule → Type 0) → All P draft.rules → P r))
matching_rule-Best_example = matching_rule-Best draft built wire_400 draft-built

abbrev stub_digest : PolicyBundle → List ℕ
stub_digest b = zero_digest

abbrev stub_verify : PolicyBundle → List ℕ → String → Result Bool
stub_verify b mac key = ok true

abbrev signed_bundle : SignedPolicyBundle
signed_bundle = record { bundle = built; mac = []; signer_key_id = "k1" }

abbrev empty_point : DecisionPoint
empty_point = record { bundles = []; available = true }

abbrev loaded_point : DecisionPoint
loaded_point = record { bundles = ("t1", signed_bundle) ∷ []; available = true }

bundle_loads :
    load_signed_bundle stub_digest stub_verify signed_bundle empty_point ≡ ok loaded_point
unfolding load_signed_bundle activate insert
bundle_loads = refl

decide-load_signed_bundle_example :
    (stub_verify built [] "k1" ≡ ok true)
    × (decide stub_digest stub_verify "t1" wire_400 loaded_point
        ≡ make_decision (decision_for built (stub_digest built) (matching_rule built wire_400)))
decide-load_signed_bundle_example =
    decide-load_signed_bundle stub_digest stub_verify signed_bundle empty_point loaded_point "t1"
      wire_400 bundle_loads

abbrev open_bundle : PolicyBundle
open_bundle = record draft { rules = rule "rest" RuleEffect.allow "*" 100 ∷ [] }

abbrev open_point : DecisionPoint
open_point = record {
  bundles = ("t1", record { bundle = open_bundle; mac = []; signer_key_id = "k1" }) ∷ [];
  available = true;
}

abbrev open_decision : AuthorizationDecision
open_decision = record {
  effect = DecisionEffect.allow;
  reasons = [];
  rationale = "permitted by rule 'rest'";
  policy_bundle_id = some "b1";
  policy_bundle_sha256 = some zero_digest;
  matched_rules = "rest" ∷ [];
  obligations = [];
  approval_id = none;
  approval_state = none;
}

open_matches : matches (rule "rest" RuleEffect.allow "*" 100) wire_400 ≡ true
unfolding matches above_consequence above_monetary
open_matches = rw (fnmatchcase-star "payments.wire", fnmatchcase-star "account/ACC-1") refl

open_decided : decide stub_digest stub_verify "t1" wire_400 open_point ≡ ok open_decision
unfolding decide active lookup matching_rule decision_for decision_by make_decision
    require_non_empty is_blank is_whitespace each_ok require_identifier matches_identifier_pattern
    is_alphanumeric matches_tail is_identifier_char optional_identifier optional_digest
    require_sha256_hex is_hex lower to_lower approval_metadata check_effect
open_decided = rw open_matches refl

decide-Granted_example : Granted stub_digest stub_verify "t1" wire_400 open_point open_decision
decide-Granted_example =
    decide-Granted stub_digest stub_verify "t1" wire_400 open_point open_decision open_decided refl
