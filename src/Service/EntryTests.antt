-- ===== src/Service/EntryTests.antt =====
-- The entry points on ports that answer the simplest way.
use glassbox_agentic_governa.Prelude.{
  ℕ, suc, ◌≡◌, refl, String, true, false, none, some, [], string_eq,
}
use glassbox_agentic_governa.Errors.{ok, action_not_governed, tool_not_governed}
use glassbox_agentic_governa.Action.{ProposedAction, ResourceRef}
use glassbox_agentic_governa.Errors.{err}
use glassbox_agentic_governa.Mandate.Tests.{wire_400}
use glassbox_agentic_governa.Service.Entry.{
  EntryPorts, Correlation, decide_and_dispatch, decide_and_dispatch_for_request,
  decide_and_dispatch_for_tool_call, replay,
}
use glassbox_agentic_governa.Service.Trace.{Safe}
use glassbox_agentic_governa.Service.Replay.{effects}
use glassbox_agentic_governa.Service.EntrySafe.{Redacted, entries-Safe, replay-effects}
use glassbox_agentic_governa.Service.Unverified.{Unverified, Refused, entries-Unverified}
use glassbox_agentic_governa.Service.Tests.{agent_7, stub, settings, day, start}

abbrev doors : EntryPorts ℕ String
doors = record {
  clock_now = λ n. (ok 200, suc n);
  verify = λ credential now n. (ok (agent_7, []), suc n);
  resolve_tool = λ t name digest n. (err tool_not_governed, suc n);
  resolve_action = λ t name n. (err action_not_governed, suc n);
  resolve_attestation = λ t x name now n. (ok true, suc n);
  is_flagged = λ field value. false;
}

abbrev plain : Correlation
plain = record {
  trace_id = none;
  decision_id = some "d1";
  causation_id = none;
  asserted_tenant_id = "";
  asserted_subject = "";
}

abbrev elsewhere : ResourceRef
elsewhere = record { kind = "account"; id = "ACC-2"; tenant_id = "t2" }

abbrev foreign_wire : ProposedAction
foreign_wire = record wire_400 { resource = elsewhere }

entries-Safe_example :
    Safe Redacted
      ((decide_and_dispatch day stub doors settings "token" wire_400 plain start).1).calls
entries-Safe_example =
    (entries-Safe day stub doors settings "token" wire_400 wire_400.resource "wire" [] [] "k1"
        plain).0
      start tt

replay-effects_example :
    effects ((replay day stub doors settings agent_7 wire_400 none none none none start).1).calls
    ≡ []
replay-effects_example =
    replay-effects day stub doors settings agent_7 wire_400 none none none none start

-- The caller's tenant is t1.
is_foreign : (now : ℕ) → (doors.clock_now 0).0 ≡ ok now → Unverified doors "token" "t2" now
is_foreign now read s principal chain h valid = cc

entries-Unverified_example :
    Refused (decide_and_dispatch day stub doors settings "token" foreign_wire plain) start
    × Refused
        (decide_and_dispatch_for_request day stub doors settings "token" "wire" elsewhere [] "k1"
          plain)
        start
    × Refused
        (decide_and_dispatch_for_tool_call day stub doors settings "token" "wire" [] elsewhere []
          "k1" plain)
        start
entries-Unverified_example =
    entries-Unverified day stub doors settings "token" foreign_wire elsewhere "wire" [] [] "k1"
      plain start refl is_foreign
