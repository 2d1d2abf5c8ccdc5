-- ===== src/Evidence.antt =====
-- glassbox/domain/evidence.py: the records of a decision and of its outcome, and the receipt. The
-- principal is modelled by the fields that the records and the decision service read; provenance
-- and attributes are left out.
use glassbox_agentic_governa.Prelude.{ℕ, String, Option, List, ◌==◌, string_eq}
use glassbox_agentic_governa.Prelude.Text.{codes}
use glassbox_agentic_governa.Errors.{Result, ok, domain_validation, ◌>>◌, require}
use glassbox_agentic_governa.Serialization.{require_identifier, require_timestamp}
use glassbox_agentic_governa.Action.{ProposedAction}
use glassbox_agentic_governa.Risk.{RiskScore}
use glassbox_agentic_governa.Limits.{LimitVerdict}
use glassbox_agentic_governa.Decision.{
  AuthorizationDecision, StageOutcome, ExecutionOutcome, optional_identifier,
}

pub record VerifiedPrincipal : Type 0 where
  pub agent_ref : String
  pub tenant_id : String
  pub credential_id : String
  pub issued_at : ℕ
  pub expires_at : ℕ
  pub delegating_subject : Option String

pub record IntentRecord : Type 0 where
  pub decision_id : String
  pub segment_id : String
  pub tenant_id : String
  pub created_at : ℕ
  pub principal : VerifiedPrincipal
  pub action : ProposedAction
  pub decision : AuthorizationDecision
  pub risk : RiskScore
  pub trace_id : String
  pub limits : List LimitVerdict
  pub stages : List StageOutcome
  pub causation_id : Option String

-- IntentRecord.__post_init__
unfoldable pub make_intent : IntentRecord → Result IntentRecord
make_intent r = do
  require_identifier (codes r.decision_id) "decision_id"
  require_identifier (codes r.segment_id) "segment_id"
  require_identifier (codes r.tenant_id) "tenant_id"
  require_timestamp r.created_at "created_at"
  require_identifier (codes r.trace_id) "trace_id"
  optional_identifier r.causation_id "causation_id"
  require (r.principal.tenant_id == r.tenant_id) (domain_validation "tenant_id")
  require (r.action.resource.tenant_id == r.tenant_id) (domain_validation "action")
  ok r

pub record EvidenceReceipt : Type 0 where
  pub decision_id : String
  pub segment_id : String
  pub seq : ℕ
  pub record_hmac : List ℕ
  pub signer_key_id : String
  pub persisted_at : ℕ

pub record OutcomeRecord : Type 0 where
  pub decision_id : String
  pub outcome : ExecutionOutcome
