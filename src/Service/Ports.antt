-- ===== src/Service/Ports.antt =====
-- glassbox/ports: what the decision service calls, as a record of operations on a state of their
-- own, and the steps of the service, which log each call that they make.
use glassbox_agentic_governa.Prelude.{ℕ, String, Bool, Option, List, ◌∷◌}
use glassbox_agentic_governa.Errors.{GlassBoxError, Result, ok, err, ◌>>=◌ as and_then}
use glassbox_agentic_governa.Prelude.Text.{codes}
use glassbox_agentic_governa.Serialization.{require_identifier, require_timestamp}
use glassbox_agentic_governa.Action.{ProposedAction}
use glassbox_agentic_governa.Mandate.{Mandate}
use glassbox_agentic_governa.Risk.{RiskInputs, RiskScore, RiskLevel}
use glassbox_agentic_governa.Decision.{AuthorizationDecision, ExecutionOutcome}
use glassbox_agentic_governa.Limits.{LimitKey, LimitVerdict}
use glassbox_agentic_governa.Evidence.{
  VerifiedPrincipal, IntentRecord, EvidenceReceipt, OutcomeRecord,
}

-- AuthorizationRequest
pub record AuthorizationRequest : Type 0 where
  pub decision_id : String
  pub principal : VerifiedPrincipal
  pub action : ProposedAction
  pub evaluated_at : ℕ

-- AuthorizationRequest.__post_init__
unfoldable pub make_request : AuthorizationRequest → Result AuthorizationRequest
make_request r =
    and_then (require_identifier (codes r.decision_id) "decision_id")
      (λ id. and_then (require_timestamp r.evaluated_at "evaluated_at") (λ moment. ok r))

-- BaselineKey, whose scope, metric and window are constants here.
pub record BaselineKey : Type 0 where
  pub tenant_id : String
  pub subject : String

-- The settings of GlassBoxConfig that the service reads.
pub record Config : Type 0 where
  pub enforce_threshold : Bool
  pub deny_level : RiskLevel
  pub default_window_seconds : ℕ
  pub anomaly_threshold : ℕ
  pub default_timeout_s : ℕ
  pub segment_prefix : String
  pub has_workflow_engine : Bool

-- An operation of a port: it may raise, and it may change the state behind the ports.
abbrev pub Port : Type 0 → Type 0 → Type 0
Port S A = S → Result A × S

pub record Ports (S : Type 0) : Type 0 where
  pub assert_matches_assertion : VerifiedPrincipal → String → String → Port S (Unit {0})
  pub is_globally_engaged : Port S Bool
  pub is_tenant_engaged : String → Port S Bool
  pub get_mandate : String → String → ℕ → Port S (Option Mandate)
  pub is_revoked : String → String → ℕ → Port S Bool
  pub decide : AuthorizationRequest → Port S AuthorizationDecision
  pub score : RiskInputs → Port S RiskScore
  pub try_consume : LimitKey → String → ℕ → Port S LimitVerdict
  pub release : LimitKey → String → Port S (Unit {0})
  pub evaluate_baseline : BaselineKey → ℕ → String → ℕ → ℕ → Port S Bool
  pub observe_baseline : BaselineKey → ℕ → ℕ → Port S (Unit {0})
  pub new_id : String → Port S String
  pub create_from_decision : String → VerifiedPrincipal → ProposedAction → RiskScore → Port S String
  pub append_intent : IntentRecord → Port S EvidenceReceipt
  pub append_outcome : EvidenceReceipt → OutcomeRecord → Port S (Unit {0})
  pub dispatch : ProposedAction → EvidenceReceipt → ℕ → ℕ → Port S ExecutionOutcome

pub data Call : Type 0 where
  asserted_identity read_global_switch read_tenant_switch read_mandate read_revocation : Call
  decided scored evaluated_baseline observed_baseline minted_id : Call
  read_clock verified_identity resolved_tool resolved_action resolved_attestation : Call
  consumed released : LimitKey → String → Call
  created_workflow : String → Call
  appended : IntentRecord → Result EvidenceReceipt → Call
  dispatched : ProposedAction → EvidenceReceipt → Call
  appended_outcome : EvidenceReceipt → OutcomeRecord → Call

-- The state behind the ports, and the calls made so far, the last one first.
pub record World (S : Type 0) : Type 0 where
  pub state : S
  pub calls : List Call

abbrev pub Step : Type 0 → Type 0 → Type 0
Step S A = World S → Result A × World S

module _ {S : Type 0} where
  abbrev pub pure : {A : Type 0} → A → Step S A
  pure a w = (ok a, w)

  abbrev pub raise : {A : Type 0} → GlassBoxError → Step S A
  raise e w = (err e, w)

  abbrev pub next : {A B : Type 0} → Result A × World S → (A → Step S B) → Result B × World S
  next (ok a, w) f = f a w
  next (err e, w) f = (err e, w)

  infixl 5 ◌>>=◌ ◌>>◌
  abbrev pub ◌>>=◌ : {A B : Type 0} → Step S A → (A → Step S B) → Step S B
  (m >>= f) w = next (m w) f

  abbrev pub ◌>>◌ : {A B : Type 0} → Step S A → Step S B → Step S B
  (m >> k) w = next (m w) (λ _. k)

  -- `try: m` with the exception as a value for the handlers.
  abbrev pub attempt : {A : Type 0} → Step S A → Step S (Result A)
  attempt m w = let (r, after) = m w in (ok r, after)

  -- A value that a constructor checks, inside a step.
  abbrev pub checked : {A : Type 0} → Result A → Step S A
  checked r w = (r, w)

  abbrev pub note : {A : Type 0} → List Call → (Result A → Call) → Result A × S → Result A × World S
  note calls log (r, s) = (r, record { state = s; calls = log r ∷ calls })

  -- A call of a port, with its entry in the log.
  abbrev pub call : {A : Type 0} → (Result A → Call) → Port S A → Step S A
  call log port w = note w.calls log (port w.state)
