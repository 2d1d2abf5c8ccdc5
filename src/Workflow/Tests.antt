-- ===== src/Workflow/Tests.antt =====
-- glassbox/workflow/workflow_engine.py at concrete inputs: a rejected workflow that is approved.
use glassbox_agentic_governa.Prelude.{
  ◌≡◌, refl, true, none, some, [], ◌∷◌, length, leb, if◌then◌else◌, string_eq,
}
use glassbox_agentic_governa.Prelude.Dict.{lookup}
use glassbox_agentic_governa.Workflow.{
  WorkflowInstance, WorkflowEngine, rejected, approved, approve, votes,
}
use glassbox_agentic_governa.Workflow.Quorum.{IsEngine, distinct, approve-lookup, approve-IsEngine}

abbrev turned_down : WorkflowInstance
turned_down = record {
  workflow_id = "w1";
  decision_id = "d1";
  sla_minutes = 60;
  escalate_to = none;
  state = rejected;
  steps = [];
  created_at = 0;
  updated_at = 5;
  resolved_at = some 5;
}

abbrev engine : WorkflowEngine
engine = record {
  repo = ("w1", turned_down) ∷ [];
  quorum_state = ("w1", record { actors = "alice" ∷ []; first_seen_at = 1 }) ∷ [];
  quorum_entry_ttl = 86400;
}

holds_turned_down : lookup "w1" engine.repo ≡ some turned_down
unfolding lookup
holds_turned_down = refl

approve-lookup_example :
    (u : WorkflowInstance) × (lookup "w1" (approve 10 "w1" "bob" 2 engine).repo ≡ some u)
    × (u.decision_id ≡ "d1")
    × (u.state ≡ (if leb 2 (length (votes 10 "w1" "bob" engine)) then approved else rejected))
approve-lookup_example = approve-lookup 10 "w1" "bob" 2 engine turned_down holds_turned_down refl

approve-IsEngine_example :
    (distinct (votes 10 "w1" "bob" engine) ≡ true) × IsEngine (approve 10 "w1" "bob" 2 engine)
approve-IsEngine_example = approve-IsEngine 10 "w1" "bob" 2 engine (refl, tt)
