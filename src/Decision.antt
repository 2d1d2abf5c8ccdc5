-- ===== src/Decision.antt =====
-- glassbox/domain/decision.py: decisions with the checks of their constructor, obligations, stage
-- and execution outcomes, and the lifecycle of an approval.
pub mod Validity
pub mod Lifecycle
pub mod Tests
use glassbox_agentic_governa.Prelude.{
  ℕ, String, Bool, true, false, ◌&&◌, ◌||◌, not, Option, none, some, List, [], ◌∷◌, keep, is_empty,
  ◌==◌, string_eq, if◌then◌else◌,
}
use glassbox_agentic_governa.Prelude.Text.{codes}
use glassbox_agentic_governa.Errors.{Result, ok, err, domain_validation, ◌>>=◌, ◌>>◌, require}
use glassbox_agentic_governa.Serialization.{
  require_non_empty, require_identifier, require_sha256_hex, require_timestamp,
}
use glassbox_agentic_governa.Action.{ProposedAction}
use glassbox_agentic_governa.Mandate.{Digest, each_ok, optional_timestamp}

pub data DecisionEffect : Type 0 where
  deny require_approval allow : DecisionEffect

pub data DenialReason : Type 0 where
  identity_unverified credential_expired delegation_invalid : DenialReason
  action_not_governed attestation_not_satisfied : DenialReason
  mandate_missing mandate_revoked mandate_exceeded : DenialReason
  tool_not_governed tool_definition_changed : DenialReason
  policy_denied policy_bundle_unavailable risk_threshold_exceeded : DenialReason
  limit_exceeded baseline_anomaly dependency_unavailable : DenialReason
  mandatory_stage_skipped evidence_write_failed kill_switch_engaged : DenialReason
  parameters_invalid prompt_injection_detected : DenialReason

pub data ApprovalState : Type 0 where
  pending in_review approved rejected revoked expired : ApprovalState

pub data ObligationKind : Type 0 where
  notify redact rate_cap dual_control record_justification post_execution_review : ObligationKind

pub record Obligation : Type 0 where
  pub kind : ObligationKind
  pub obligation_id : String
  pub blocking : Bool

pub record AuthorizationDecision : Type 0 where
  pub effect : DecisionEffect
  pub reasons : List DenialReason
  pub rationale : String
  pub policy_bundle_id : Option String
  pub policy_bundle_sha256 : Option Digest
  pub matched_rules : List String
  pub obligations : List Obligation
  pub approval_id : Option String
  pub approval_state : Option ApprovalState

abbrev pub is_deny : DecisionEffect → Bool
is_deny deny = true
is_deny _ = false

abbrev pub is_allow : DecisionEffect → Bool
is_allow allow = true
is_allow _ = false

-- DecisionEffect.permits_dispatch and AuthorizationDecision.permits_dispatch
abbrev pub permits_dispatch : AuthorizationDecision → Bool
permits_dispatch d = is_allow d.effect

abbrev pub is_some {ℓ} : {A : Type ℓ} → Option A → Bool
is_some none = false
is_some (some a) = true

unfoldable pub optional_identifier : Option String → String → Result (Unit {0})
optional_identifier none field = ok tt
optional_identifier (some s) field = do require_identifier (codes s) field; ok tt

unfoldable pub optional_digest : Option Digest → String → Result (Option Digest)
optional_digest none field = ok none
optional_digest (some d) field = do digest ← require_sha256_hex d field; ok (some digest)

-- The approval metadata: a require-approval decision starts pending, no other may carry any.
unfoldable pub approval_metadata :
    DecisionEffect → Option String → Option ApprovalState → Result (Option ApprovalState)
approval_metadata require_approval id none = ok (some pending)
approval_metadata require_approval id (some state) = ok (some state)
approval_metadata _ none none = ok none
approval_metadata _ _ _ = err (domain_validation "approval_id")

-- The last checks of the constructor, which tie the fields to the effect.
unfoldable pub check_effect : AuthorizationDecision → Result AuthorizationDecision
check_effect d = do
  require (not (is_deny d.effect && is_empty d.reasons)) (domain_validation "reasons")
  require (is_deny d.effect || is_empty d.reasons) (domain_validation "reasons")
  require (is_deny d.effect || (is_some d.policy_bundle_id && is_some d.policy_bundle_sha256))
      (domain_validation "policy_bundle_sha256")
  require (is_empty d.obligations || not (is_deny d.effect)) (domain_validation "obligations")
  ok d

-- AuthorizationDecision.__post_init__
unfoldable pub make_decision : AuthorizationDecision → Result AuthorizationDecision
make_decision d = do
  require_non_empty (codes d.rationale) "rationale"
  each_ok (λ r. require_identifier (codes r) "matched_rules") d.matched_rules
  optional_identifier d.policy_bundle_id "policy_bundle_id"
  digest ← optional_digest d.policy_bundle_sha256 "policy_bundle_sha256"
  optional_identifier d.approval_id "approval_id"
  state ← approval_metadata d.effect d.approval_id d.approval_state
  check_effect (record d { policy_bundle_sha256 = digest; approval_state = state })

-- AuthorizationDecision.blocking_obligations
abbrev pub blocking_obligations : AuthorizationDecision → List Obligation
blocking_obligations d = keep (λ o. o.blocking) d.obligations

-- AuthorizationDecision.deny, allow and require_approval
abbrev pub denial : DenialReason → String → AuthorizationDecision
denial reason rationale = record {
  effect = deny;
  reasons = reason ∷ [];
  rationale = rationale;
  policy_bundle_id = none;
  policy_bundle_sha256 = none;
  matched_rules = [];
  obligations = [];
  approval_id = none;
  approval_state = none;
}

pub data StageStatus : Type 0 where
  executed skipped failed : StageStatus

pub record StageOutcome : Type 0 where
  pub stage : String
  pub status : StageStatus
  pub reason : Option String

unfoldable pub check_reason : StageStatus → Option String → Result (Unit {0})
check_reason StageStatus.executed reason = ok tt
check_reason _ none = err (domain_validation "reason")
check_reason _ (some r) = do require_non_empty (codes r) "reason"; ok tt

-- StageOutcome.__post_init__: a stage that did not run says why.
unfoldable pub make_stage : StageOutcome → Result StageOutcome
make_stage s = do require_identifier (codes s.stage) "stage"; check_reason s.status s.reason; ok s

pub data ExecutionStatus : Type 0 where
  executed failed indeterminate abandoned denied pending_approval replayed : ExecutionStatus

pub record ExecutionOutcome : Type 0 where
  pub status : ExecutionStatus
  pub completed_at : ℕ
  pub result_digest : Option Digest
  pub error_class : Option String

abbrev pub outcome : ExecutionStatus → ℕ → ExecutionOutcome
outcome status now = record {
  status = status;
  completed_at = now;
  result_digest = none;
  error_class = none;
}

-- The table of Approval.transition.
unfoldable pub can_become : ApprovalState → ApprovalState → Bool
can_become pending in_review = true
can_become pending rejected = true
can_become pending revoked = true
can_become pending expired = true
can_become in_review approved = true
can_become in_review rejected = true
can_become in_review revoked = true
can_become in_review expired = true
can_become _ _ = false

abbrev pub is_terminal : ApprovalState → Bool
is_terminal pending = false
is_terminal in_review = false
is_terminal _ = true

pub record Approval : Type 0 where
  pub approval_id : String
  pub decision_id : String
  pub tenant_id : String
  pub action : ProposedAction
  pub rationale : String
  pub state : ApprovalState
  pub requested_at : ℕ
  pub reviewed_at : Option ℕ
  pub reviewed_by : Option String
  pub notes : String
  pub expires_at : Option ℕ
  pub revoked_at : Option ℕ

-- Approval.__post_init__
unfoldable pub make_approval : Approval → Result Approval
make_approval a = do
  require_identifier (codes a.approval_id) "approval_id"
  require_identifier (codes a.decision_id) "decision_id"
  require_identifier (codes a.tenant_id) "tenant_id"
  require_non_empty (codes a.rationale) "rationale"
  require_timestamp a.requested_at "requested_at"
  optional_timestamp a.reviewed_at "reviewed_at"
  optional_identifier a.reviewed_by "reviewed_by"
  optional_timestamp a.expires_at "expires_at"
  optional_timestamp a.revoked_at "revoked_at"
  require (a.action.resource.tenant_id == a.tenant_id) (domain_validation "action")
  ok a

abbrev pub or_else {ℓ} : {A : Type ℓ} → Option A → Option A → Option A
or_else none b = b
or_else (some a) b = some a

-- `actor or self.reviewed_by`: an empty text counts as none.
abbrev pub or_text : Option String → Option String → Option String
or_text none b = b
or_text (some t) b = if t == "" then b else some t

-- Approval.transition
unfoldable pub transition :
    Approval → ApprovalState → Option String → String → Option ℕ → Result Approval
transition a state actor notes reviewed_at =
    if can_become a.state state
    then make_approval (record a {
      state = state;
      reviewed_at = or_else reviewed_at a.reviewed_at;
      reviewed_by = or_text actor a.reviewed_by;
      notes = (if notes == "" then a.notes else notes);
    })
    else err (domain_validation "state")
