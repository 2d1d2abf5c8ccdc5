-- ===== src/Service/EntrySafe.antt =====
-- glassbox/app/decision_service.py: the entry points. No effect without evidence, none for a replay.
use glassbox_agentic_governa.Prelude.{List, ℕ, ◌≡◌, refl, String, Option, string_eq}
use glassbox_agentic_governa.Action.{ProposedAction, ResourceRef, Parameters}
use glassbox_agentic_governa.Mandate.{Digest}
use glassbox_agentic_governa.Evidence.{VerifiedPrincipal}
use glassbox_agentic_governa.Service.Ports.{Ports, Config, World}
use glassbox_agentic_governa.Service.Evaluate.{Request}
use glassbox_agentic_governa.Service.Conclude.{evaluate}
use glassbox_agentic_governa.Service.Entry.{
  EntryPorts, Correlation, decide_and_dispatch, decide_and_dispatch_for_request,
  decide_and_dispatch_for_tool_call, replay,
}
use glassbox_agentic_governa.Service.Quiet.{Preserves}
use glassbox_agentic_governa.Service.Trace.{Safe, quiet-Safe}
use glassbox_agentic_governa.Service.EvidenceFirst.{evaluate-Safe}
use glassbox_agentic_governa.Service.Replay.{effects, Same, quiet-Same, evaluate-Same}
use glassbox_agentic_governa.Service.EntryQuiet.{
  decide_and_dispatch-Preserves, decide_and_dispatch_for_request-Preserves,
  decide_and_dispatch_for_tool_call-Preserves, replay-Preserves,
}

-- Redacted by the sensitive fields of the catalogue or of the tool, whichever they are.
abbrev pub Redacted : List String → Type 0
Redacted fields = Unit

module _ {S C : Type 0} (decimal : ℕ → String) (ports : Ports S) (entry : EntryPorts S C)
    (config : Config) where
  -- Whatever the ports answer, the verifier, the registries and the attestations included: every
  -- dispatch that one of the three entry points, that of an action, of a request or of a tool call,
  -- adds to the log is justified by the call right before it, which appended the intent record of
  -- the dispatched action with a decision that allows it.
  pub entries-Safe :
      (credential : C) (a : ProposedAction) (x : ResourceRef) (name : String) (d : Digest)
      (parameters : Parameters) (key : String) (c : Correlation)
      → Preserves (Safe Redacted) (decide_and_dispatch decimal ports entry config credential a c)
        × Preserves (Safe Redacted) (
            decide_and_dispatch_for_request decimal ports entry config credential name x parameters
              key c)
        × Preserves (Safe Redacted) (
            decide_and_dispatch_for_tool_call decimal ports entry config credential name d x
              parameters key c)
  entries-Safe credential a x name d parameters key c =
      let evaluated : (r : Request) → Preserves (Safe Redacted) (evaluate decimal ports config r) =
        (λ r. evaluate-Safe Redacted decimal ports config r tt) in
      (
        decide_and_dispatch-Preserves (Safe Redacted) (quiet-Safe Redacted) decimal ports entry
            config evaluated credential a c,
        decide_and_dispatch_for_request-Preserves (Safe Redacted) (quiet-Safe Redacted) decimal
            ports entry config evaluated credential name x parameters key c,
        decide_and_dispatch_for_tool_call-Preserves (Safe Redacted) (quiet-Safe Redacted) decimal
            ports entry config evaluated credential name d x parameters key c,
      )

  -- A replay adds no dispatch and no approval workflow to the log, whatever the ports answer and
  -- whatever the historical inputs are: no argument makes it dispatch.
  pub replay-effects :
      (principal : VerifiedPrincipal) (a : ProposedAction)
      (trace_id decision_id causation_id : Option String) (now : Option ℕ) (w : World S)
      → effects
          ((replay decimal ports entry config principal a trace_id decision_id causation_id now w).1
            ).calls
        ≡ effects w.calls
  replay-effects principal a trace_id decision_id causation_id now w =
      let before = effects w.calls in
      replay-Preserves (Same before) (quiet-Same decimal ports config before) decimal ports entry
        config principal a trace_id decision_id causation_id now
        (evaluate-Same decimal ports config before) w refl
