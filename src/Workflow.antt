-- ===== src/Workflow.antt =====
-- glassbox/workflow/workflow_engine.py, with the instances and steps of glassbox/store/repository.py:
-- the review of decisions that wait for a person. The repository is a dictionary by workflow id and
-- `now` is the moment that a method reads. Notes, ids of steps and the fields that only describe an
-- instance are left out.
pub mod Quorum
pub mod Tests
use glassbox_agentic_governa.Prelude.{
  ℕ, ◌+◌, ◌*◌, String, Bool, true, false, not, Option, none, some, List, [], ◌∷◌, ◌++◌,
  if◌then◌else◌, ltb, leb, any, keep, length, ◌==◌, string_eq, ◌||◌, ◌&&◌,
}
use glassbox_agentic_governa.Prelude.Dict.{Dict, lookup, insert, remove}

pub data WorkflowState : Type 0 where
  pending in_review approved rejected escalated timed_out expired revoked : WorkflowState

-- The outcome of a step; `open_step` is the source's "pending".
pub data StepOutcome : Type 0 where
  open_step approved_step rejected_step escalated_step expired_step revoked_step partial_approval :
      StepOutcome

pub record WorkflowStep : Type 0 where
  pub step_type : String
  pub actor : String
  pub step_outcome : StepOutcome
  pub completed_at : Option ℕ

pub record WorkflowInstance : Type 0 where
  pub workflow_id : String
  pub decision_id : String
  pub sla_minutes : ℕ
  pub escalate_to : Option String
  pub state : WorkflowState
  pub steps : List WorkflowStep
  pub created_at : ℕ
  pub updated_at : ℕ
  pub resolved_at : Option ℕ

pub record QuorumEntry : Type 0 where
  pub actors : List String
  pub first_seen_at : ℕ

pub record WorkflowEngine : Type 0 where
  pub repo : Dict String WorkflowInstance
  pub quorum_state : Dict String QuorumEntry
  pub quorum_entry_ttl : ℕ

-- WorkflowInstance.is_sla_breached
unfoldable pub is_sla_breached : ℕ → WorkflowInstance → Bool
is_sla_breached now w = ltb (w.created_at + w.sla_minutes * 60) now

abbrev pub resolve : WorkflowState → ℕ → WorkflowStep → WorkflowInstance → WorkflowInstance
resolve state now s w = record w {
  state = state;
  resolved_at = elim s.completed_at [ some at ↦ some at | none ↦ some now ];
}

-- The state that the outcome of a step brings.
unfoldable pub advance : ℕ → WorkflowStep → StepOutcome → WorkflowInstance → WorkflowInstance
advance now s approved_step w = resolve approved now s w
advance now s rejected_step w = resolve rejected now s w
advance now s escalated_step w = record w { state = escalated }
advance now s expired_step w = resolve expired now s w
advance now s revoked_step w = resolve revoked now s w
advance now s open_step w = w
advance now s partial_approval w = w

-- WorkflowInstance.add_step
unfoldable pub add_step : ℕ → WorkflowStep → WorkflowInstance → WorkflowInstance
add_step now s w =
    advance now s s.step_outcome (record w { steps = w.steps ++ (s ∷ []); updated_at = now })

-- `self.repo.update(inst)`
abbrev pub update : WorkflowInstance → WorkflowEngine → WorkflowEngine
update w e = record e { repo = insert w.workflow_id w e.repo }

abbrev pub in_review_last : WorkflowState → WorkflowInstance → WorkflowInstance
in_review_last in_review w = record w { state = in_review }
in_review_last _ w = w

abbrev pub state_first : WorkflowState → WorkflowInstance → WorkflowInstance
state_first in_review w = w
state_first state w = record w { state = state }

-- _transition, on the instance that it read.
unfoldable pub transitioned :
    ℕ → String → String → WorkflowState → StepOutcome → WorkflowInstance → WorkflowInstance
transitioned now step_type actor state result w = in_review_last state (
    add_step now
      (record {
        step_type = step_type;
        actor = actor;
        step_outcome = result;
        completed_at = some now;
      })
      (state_first state w))

-- _transition
unfoldable pub transition :
    ℕ
    → String
    → String
    → String
    → WorkflowState
    → StepOutcome
    → WorkflowEngine
    → Option WorkflowInstance × WorkflowEngine
transition now id step_type actor state result e = elim (lookup id e.repo) [
  | none ↦ (none, e)
  | some w ↦ (
    some (transitioned now step_type actor state result w),
    update (transitioned now step_type actor state result w) e,
  )
]

-- start_review and reject
abbrev pub start_review :
    ℕ → String → String → WorkflowEngine → Option WorkflowInstance × WorkflowEngine
start_review now id actor e = transition now id "review" actor in_review open_step e

abbrev pub reject : ℕ → String → String → WorkflowEngine → Option WorkflowInstance × WorkflowEngine
reject now id actor e = transition now id "reject" actor rejected rejected_step e

abbrev pub awaits_review : WorkflowState → Bool
awaits_review pending = true
awaits_review in_review = true
awaits_review _ = false

-- revoke and expire
unfoldable pub revoke :
    ℕ → String → String → WorkflowEngine → Option WorkflowInstance × WorkflowEngine
revoke now id actor e = elim (lookup id e.repo) [
  | none ↦ (none, e)
  | some w ↦
      if not (awaits_review w.state)
      then (none, e)
      else transition now id "revoke" actor revoked revoked_step e
]

unfoldable pub expire :
    ℕ → String → String → WorkflowEngine → Option WorkflowInstance × WorkflowEngine
expire now id actor e = elim (lookup id e.repo) [
  | none ↦ (none, e)
  | some w ↦
      if not (awaits_review w.state)
      then (none, e)
      else if not (is_sla_breached now w)
      then (none, e)
      else transition now id "expire" actor expired expired_step e
]

-- _evict_stale_quorum_entries
unfoldable pub evict_stale : ℕ → WorkflowEngine → WorkflowEngine
evict_stale now e = record e {
  quorum_state = keep (λ q. not (ltb (q.1.first_seen_at + e.quorum_entry_ttl) now)) e.quorum_state;
}

unfoldable pub add_actor : String → List String → List String
add_actor actor actors = if any (λ a. a == actor) actors then actors else actors ++ (actor ∷ [])

-- The entry of a workflow, with the actor's vote.
unfoldable pub vote : ℕ → String → Option QuorumEntry → QuorumEntry
vote now actor none = record { actors = add_actor actor []; first_seen_at = now }
vote now actor (some q) = record q { actors = add_actor actor q.actors }

unfoldable pub record_vote : ℕ → String → String → WorkflowEngine → WorkflowEngine
record_vote now id actor e = record e {
  quorum_state = insert id (vote now actor (lookup id e.quorum_state)) e.quorum_state;
}

-- The votes that count for a workflow at a moment, with the actor's.
abbrev pub votes : ℕ → String → String → WorkflowEngine → List String
votes now id actor e = (vote now actor (lookup id (evict_stale now e).quorum_state)).actors

abbrev pub partial_step : String → WorkflowStep
partial_step actor = record {
  step_type = "approve";
  actor = actor;
  step_outcome = partial_approval;
  completed_at = none;
}

abbrev pub clear_quorum : String → WorkflowEngine → WorkflowEngine
clear_quorum id e = record e { quorum_state = remove id e.quorum_state }

-- approve, whose result is what the repository then holds.
unfoldable pub approve : ℕ → String → String → ℕ → WorkflowEngine → WorkflowEngine
approve now id actor min_approvers e =
    let voted = record_vote now id actor (evict_stale now e) in
    elim (lookup id e.repo) [
      | none ↦ voted
      | some w ↦
          if leb min_approvers (length (votes now id actor e))
          then clear_quorum id (transition now id "approve" actor approved approved_step voted).1
          else update (add_step now (partial_step actor) w) voted
    ]
