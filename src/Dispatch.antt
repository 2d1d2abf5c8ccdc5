-- ===== src/Dispatch.antt =====
-- glassbox/adapters/outbound/memory/dispatch.py: InMemoryDispatcher. A dispatch checks the receipt
-- without the lock, and takes the lock three times: to reserve the key, after the handler's run to
-- release its place in flight, and to store the outcome. Each is a function on the state here, and
-- `dispatch` is all of them without another call in between. A handler, the digest of its result
-- and the scan of its output for injected prompts are parameters.
pub mod Interleaving
pub mod Repeats
pub mod Tests
use glassbox_agentic_governa.Prelude.{
  ℕ, ◌+◌, ◌-◌, String, Bool, true, false, not, ◌&&◌, Option, none, some, if◌then◌else◌, leb, ◌==◌,
  string_eq,
}
use glassbox_agentic_governa.Prelude.Dict.{Dict, lookup, insert}
use glassbox_agentic_governa.Errors.{
  GlassBoxError, Result, ok, err, dispatch_refused, domain_validation, ◌>>=◌, ◌>>◌, require,
}
use glassbox_agentic_governa.Serialization.{
  require_timestamp, require_non_empty, require_sha256_hex,
}
use glassbox_agentic_governa.Prelude.Text.{codes}
use glassbox_agentic_governa.Action.{ProposedAction}
use glassbox_agentic_governa.Mandate.{Digest}
use glassbox_agentic_governa.Decision.{ExecutionStatus, ExecutionOutcome}
use glassbox_agentic_governa.Evidence.{EvidenceReceipt}

-- What waiting for the handler ends with: its result, the class of what it raised, or a timeout.
pub data Run (R : Type 0) : Type 0 where
  returned : R → Run R
  raised : String → Run R
  timed_out : Run R

-- ExecutionOutcome.__post_init__
unfoldable pub check_error_class : ExecutionStatus → Option String → Result (Unit {0})
check_error_class ExecutionStatus.failed none = err (domain_validation "error_class")
check_error_class status none = ok tt
check_error_class status (some name) = do require_non_empty (codes name) "error_class"; ok tt

unfoldable pub check_digest : Option Digest → Result (Option Digest)
check_digest none = ok none
check_digest (some digest) = do text ← require_sha256_hex digest "result_digest"; ok (some text)

unfoldable pub make_outcome : ExecutionOutcome → Result ExecutionOutcome
make_outcome o = do
  require_timestamp o.completed_at "completed_at"
  digest ← check_digest o.result_digest
  check_error_class o.status o.error_class
  ok (record o { result_digest = digest })

-- The sentinel of a key whose execution has started and not finished.
abbrev pub pending_outcome : ExecutionOutcome
pending_outcome = record {
  status = ExecutionStatus.pending_approval;
  completed_at = 0;
  result_digest = none;
  error_class = none;
}

pub record Dispatcher (H : Type 0) : Type 0 where
  pub handlers : Dict String H
  pub outcomes : Dict String ExecutionOutcome
  pub receipt_check : Option (EvidenceReceipt → Bool)
  pub require_receipt : Bool
  pub max_in_flight : ℕ
  pub in_flight : ℕ

-- What the first section under the lock decides.
pub data Begun (H : Type 0) : Type 0 where
  refused : GlassBoxError → Begun H
  recorded : ExecutionOutcome → Begun H
  admitted : H → Begun H

abbrev pub passes : EvidenceReceipt → Option (EvidenceReceipt → Bool) → Bool
passes receipt none = true
passes receipt (some check) = check receipt

-- Whether an outcome is the sentinel; no outcome of a run has its status.
unfoldable pub is_pending : ExecutionOutcome → Bool
is_pending o = elim o.status [ ExecutionStatus.pending_approval ↦ true | _ ↦ false ]

module _ {H : Type 0} where
  -- _require_valid_receipt
  unfoldable pub accepts_receipt : EvidenceReceipt → Dispatcher H → Bool
  accepts_receipt receipt d = if not d.require_receipt then true else passes receipt d.receipt_check

  abbrev pub on_handler : ProposedAction → Dispatcher H → Option H → Begun H × Dispatcher H
  on_handler action d none = (refused dispatch_refused, d)
  on_handler action d (some handler) =
      if leb d.max_in_flight d.in_flight then (refused dispatch_refused, d) else (
        admitted handler,
        record d {
          in_flight = d.in_flight + 1;
          outcomes = insert action.idempotency_key pending_outcome d.outcomes;
        },
      )

  abbrev pub on_recorded :
      ProposedAction → Dispatcher H → Option ExecutionOutcome → Begun H × Dispatcher H
  on_recorded action d (some outcome) = (recorded outcome, d)
  on_recorded action d none = on_handler action d (lookup action.action d.handlers)

  -- dispatch, the section under the lock that reserves the key
  unfoldable pub reserve : ProposedAction → Dispatcher H → Begun H × Dispatcher H
  reserve action d = on_recorded action d (lookup action.idempotency_key d.outcomes)

  -- dispatch, up to the submission of the handler
  unfoldable pub begin : ProposedAction → EvidenceReceipt → Dispatcher H → Begun H × Dispatcher H
  begin action receipt d =
      if not (accepts_receipt receipt d) then (refused dispatch_refused, d) else reserve action d

  -- dispatch, the two sections after the run: the place in flight, and the outcome over the sentinel
  unfoldable pub release : Dispatcher H → Dispatcher H
  release d = record d { in_flight = d.in_flight - 1 }

  unfoldable pub store : String → ExecutionOutcome → Dispatcher H → Dispatcher H
  store key outcome d = record d { outcomes = insert key outcome d.outcomes }

  -- dispatch, from the end of the run. An outcome that cannot be built is not stored.
  unfoldable pub finish :
      String → Result ExecutionOutcome → Dispatcher H → Result ExecutionOutcome × Dispatcher H
  finish key (err e) d = (err e, release d)
  finish key (ok outcome) d = (ok outcome, store key outcome (release d))

  -- register, set_receipt_check and outcome_for
  unfoldable pub register : String → H → Dispatcher H → Dispatcher H
  register action handler d = record d { handlers = insert action handler d.handlers }

  unfoldable pub set_receipt_check : (EvidenceReceipt → Bool) → Dispatcher H → Dispatcher H
  set_receipt_check check d = record d { receipt_check = some check }

  unfoldable pub outcome_for : String → Dispatcher H → Option ExecutionOutcome
  outcome_for key d = elim (lookup key d.outcomes) [
    | none ↦ none
    | some o ↦ if is_pending o then none else some o
  ]

module _ {R : Type 0} (digest_of : R → Digest) (is_flagged : R → Bool) where
  -- The outcome of a run; a flagged result is raised and caught as a failure.
  unfoldable pub outcome_of : ℕ → ℕ → Run R → Result ExecutionOutcome
  outcome_of timeout_s now timed_out = make_outcome (record {
    status = ExecutionStatus.indeterminate;
    completed_at = now + timeout_s;
    result_digest = none;
    error_class = some "DispatchTimeout";
  })
  outcome_of timeout_s now (raised name) = make_outcome (record {
    status = ExecutionStatus.failed;
    completed_at = now;
    result_digest = none;
    error_class = some name;
  })
  outcome_of timeout_s now (returned result) =
      let quarantined = make_outcome (record {
        status = ExecutionStatus.failed;
        completed_at = now;
        result_digest = none;
        error_class = some "ToolOutputQuarantinedError";
      }) in
      let executed = make_outcome (record {
        status = ExecutionStatus.executed;
        completed_at = now;
        result_digest = some (digest_of result);
        error_class = none;
      }) in
      if is_flagged result then quarantined else executed

  module _ {H : Type 0} (run : H → ProposedAction → Run R) where
    abbrev pub on_begun :
        ProposedAction → ℕ → ℕ → Begun H × Dispatcher H → Result ExecutionOutcome × Dispatcher H
    on_begun action timeout_s now (refused e, d) = (err e, d)
    on_begun action timeout_s now (recorded outcome, d) = (ok outcome, d)
    on_begun action timeout_s now (admitted handler, d) =
        finish action.idempotency_key (outcome_of timeout_s now (run handler action)) d

    -- dispatch
    unfoldable pub dispatch :
        ProposedAction
        → EvidenceReceipt
        → ℕ
        → ℕ
        → Dispatcher H
        → Result ExecutionOutcome × Dispatcher H
    dispatch action receipt timeout_s now d = on_begun action timeout_s now (begin action receipt d)
