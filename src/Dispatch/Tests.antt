-- ===== src/Dispatch/Tests.antt =====
-- glassbox/adapters/outbound/memory/dispatch.py at concrete inputs: a wire whose handler returns.
use glassbox_agentic_governa.Prelude.{ℕ, ◌≡◌, refl, true, false, none, some, [], ◌∷◌, string_eq}
use glassbox_agentic_governa.Prelude.Dict.{lookup, insert}
use glassbox_agentic_governa.Errors.{Result, ok}
use glassbox_agentic_governa.Action.{ProposedAction}
use glassbox_agentic_governa.Decision.{ExecutionStatus, ExecutionOutcome}
use glassbox_agentic_governa.Evidence.{EvidenceReceipt}
use glassbox_agentic_governa.Serialization.{
  require_timestamp, require_non_empty, is_blank, is_whitespace,
}
use glassbox_agentic_governa.Mandate.Tests.{wire_400}
use glassbox_agentic_governa.Dispatch.{
  Run, Dispatcher, accepts_receipt, begin, reserve, release, store, is_pending, finish, outcome_of,
  make_outcome, dispatch, timed_out, check_digest, check_error_class,
}
use glassbox_agentic_governa.Dispatch.Interleaving.{
  Pool, Accepted, opened, receipt_checked, reserved, IsPool, after_reserve, Reachable-IsPool,
}
use glassbox_agentic_governa.Dispatch.Repeats.{dispatched, at_once, dispatch-dispatch}

abbrev receipt_1 : EvidenceReceipt
receipt_1 = record {
  decision_id = "d1";
  segment_id = "s1";
  seq = 0;
  record_hmac = [];
  signer_key_id = "k1";
  persisted_at = 0;
}

abbrev idle : Dispatcher ℕ
idle = record {
  handlers = (wire_400.action, 7) ∷ [];
  outcomes = [];
  receipt_check = some (λ r. true);
  require_receipt = true;
  max_in_flight = 1;
  in_flight = 0;
}

abbrev no_answer : ℕ → ProposedAction → Run ℕ
no_answer handler action = timed_out

abbrev late : ExecutionOutcome
late = record {
  status = ExecutionStatus.indeterminate;
  completed_at = 230;
  result_digest = none;
  error_class = some "DispatchTimeout";
}

abbrev after_timeout : Result ExecutionOutcome × Dispatcher ℕ
after_timeout = dispatch (λ r. []) (λ r. false) no_answer wire_400 receipt_1 30 200 idle

-- In between, another action is dispatched, for which there is no handler.
abbrev other_wire : ProposedAction
other_wire = record wire_400 { action = "payments.reverse"; idempotency_key = "k2" }

abbrev meanwhile : Dispatcher ℕ
meanwhile =
    (dispatch (λ r. []) (λ r. false) no_answer other_wire receipt_1 30 300 after_timeout.1).1

dispatch-dispatch_example :
    dispatch (λ r. []) (λ r. false) no_answer wire_400 receipt_1 60 400 meanwhile
    ≡ (ok late, meanwhile)
unfolding dispatch begin reserve accepts_receipt lookup outcome_of make_outcome check_digest
    check_error_class require_timestamp require_non_empty is_blank is_whitespace finish is_pending
    release store insert
dispatch-dispatch_example =
    dispatch-dispatch (λ r. []) (λ r. false) no_answer wire_400 wire_400 receipt_1 receipt_1 30 200
      60 400 idle meanwhile late refl refl
      (dispatched other_wire receipt_1 30 300 (at_once after_timeout.1)) refl refl

abbrev call : Accepted ℕ
call = record { action = wire_400; receipt = receipt_1; at_check = idle }

-- Both calls pass the check before one of them reserves the key.
abbrev two_calls : Pool ℕ
two_calls = record {
  dispatcher = idle;
  waiting = call ∷ call ∷ [];
  running = [];
  ended = [];
  started = [];
}

abbrev first_call : Pool ℕ
first_call = after_reserve call (record two_calls { waiting = call ∷ [] }) (reserve wire_400 idle)

Reachable-IsPool_example : IsPool (
    after_reserve call
      (record first_call { waiting = [] })
      (reserve wire_400 first_call.dispatcher))
unfolding accepts_receipt reserve lookup insert
Reachable-IsPool_example = Reachable-IsPool (
    reserved call [] []
      (reserved call [] (call ∷ [])
        (receipt_checked wire_400 receipt_1
          (receipt_checked wire_400 receipt_1 (opened idle refl refl) refl) refl)
        refl)
      refl)
