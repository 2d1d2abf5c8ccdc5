-- ===== src/Decision/Tests.antt =====
-- glassbox/domain/decision.py at concrete inputs: a denial, and an approval from pending to approved.
use glassbox_agentic_governa.Prelude.{◌≡◌, refl, true, none, some, []}
use glassbox_agentic_governa.Errors.{ok}
use glassbox_agentic_governa.Serialization.{
  require_non_empty, require_identifier, is_whitespace, is_blank, matches_identifier_pattern,
  matches_tail, is_identifier_char, is_alphanumeric, require_timestamp,
}
use glassbox_agentic_governa.Action.{reversible, single}
use glassbox_agentic_governa.Mandate.{each_ok, optional_timestamp}
use glassbox_agentic_governa.Decision.{
  AuthorizationDecision, policy_denied, denial, make_decision, check_effect, optional_identifier,
  optional_digest, approval_metadata, pending, in_review, approved, Approval, make_approval,
  transition, can_become, is_terminal,
}
use glassbox_agentic_governa.Decision.Validity.{IsDecision, make_decision-IsDecision}
use glassbox_agentic_governa.Decision.Lifecycle.{Run, stay, step, Kept, Run-Kept, Run-approved}

abbrev refusal : AuthorizationDecision
refusal = denial policy_denied "no rule matches"

refusal_made : make_decision refusal ≡ ok refusal
unfolding make_decision require_non_empty is_blank is_whitespace each_ok optional_identifier
    optional_digest approval_metadata check_effect
refusal_made = refl

make_decision-IsDecision_example :
    IsDecision refusal
    × (refusal.effect ≡ refusal.effect)
    × (refusal.reasons ≡ refusal.reasons)
    × (refusal.obligations ≡ refusal.obligations)
make_decision-IsDecision_example = make_decision-IsDecision refusal refusal refusal_made

abbrev request : Approval
request = record {
  approval_id = "a1";
  decision_id = "d1";
  tenant_id = "t1";
  action = record {
    action = "payments.wire";
    resource = record { kind = "account"; id = "ACC-1"; tenant_id = "t1" };
    consequence = reversible;
    exposure = record { blast_radius = single; monetary = none; records = none };
    idempotency_key = "k1";
    parameters = [];
  };
  rationale = "large transfer";
  state = pending;
  requested_at = 10;
  reviewed_at = none;
  reviewed_by = none;
  notes = "";
  expires_at = none;
  revoked_at = none;
}

abbrev reviewing : Approval
reviewing = record request { state = in_review; reviewed_by = some "cfo" }

abbrev granted : Approval
granted = record reviewing { state = approved; reviewed_at = some 20 }

to_review : transition request in_review (some "cfo") "" none ≡ ok reviewing
unfolding transition can_become make_approval require_identifier require_non_empty is_blank
    is_whitespace matches_identifier_pattern matches_tail is_identifier_char is_alphanumeric
    require_timestamp optional_timestamp optional_identifier
to_review = refl

to_granted : transition reviewing approved none "" (some 20) ≡ ok granted
unfolding transition can_become make_approval require_identifier require_non_empty is_blank
    is_whitespace matches_identifier_pattern matches_tail is_identifier_char is_alphanumeric
    require_timestamp optional_timestamp optional_identifier
to_granted = refl

abbrev history : Run request granted
history =
    step reviewing granted approved none "" (some 20)
      (step request reviewing in_review (some "cfo") "" none stay to_review) to_granted

Run-Kept_example : Kept request granted × (is_terminal request.state ≡ true → granted ≡ request)
Run-Kept_example = Run-Kept history

Run-approved_example :
    (m : Approval) × Run request m
    × Run m granted
    × (m.state ≡ in_review)
    × (m.decision_id ≡ request.decision_id)
Run-approved_example = Run-approved history refl refl
