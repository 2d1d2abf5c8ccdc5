-- ===== src/Workflow/Quorum.antt =====
-- glassbox/workflow/workflow_engine.py: what an approval does to a workflow, and whose votes count.
use glassbox_agentic_governa.Prelude.{
  ℕ, ◌≡◌, refl, sym, String, Bool, true, false, not, some, List, [], ◌∷◌, ◌++◌, if◌then◌else◌, leb,
  any, keep, length, ◌==◌, string_eq, arith, Bool-cases, Option-cases, inl, inr, ◌∙◌, any-append,
  ◌&&◌, All,
}
use mathlib.Core.Path.{subst}
use glassbox_agentic_governa.Prelude.Dict.{Dict, lookup, insert, remove, lookup-insert_self}
use glassbox_agentic_governa.Workflow.{
  WorkflowState, WorkflowInstance, WorkflowEngine, approved, approve, votes, add_actor, vote,
  transition, transitioned, add_step, advance, partial_step, record_vote, evict_stale, QuorumEntry,
  StepOutcome, approved_step,
}

-- No actor twice.
abbrev pub distinct : List String → Bool
distinct [] = true
distinct (x ∷ xs) = not (any (λ a. a == x) xs) && distinct xs

-- Every vote list that the engine holds is without repetition.
abbrev pub IsEngine : WorkflowEngine → Type 0
IsEngine e = All (λ q. distinct q.1.actors ≡ true) e.quorum_state

beq_comm : (a b : String) → (a == b) ≡ (b == a)
beq_comm a b = ground (arith, string_eq.beq_iff a b, string_eq.beq_iff b a)

distinct-append :
    (xs : List String) (a : String)
    → distinct xs ≡ true
    → any (λ x. x == a) xs ≡ false
    → distinct (xs ++ (a ∷ [])) ≡ true
distinct-append [] a d n = refl
distinct-append (x ∷ xs) a d n =
    ground (arith, distinct-append xs a, any-append (λ y. y == x) xs (a ∷ []), beq_comm a x)

add_actor-distinct :
    (a : String) (xs : List String) → distinct xs ≡ true → distinct (add_actor a xs) ≡ true
unfolding add_actor
add_actor-distinct a xs d = elim (Bool-cases (any (λ x. x == a) xs)) [
  | inl voted ↦ rw voted d
  | inr new ↦ rw new (distinct-append xs a d new)
]

vote-distinct :
    (now : ℕ) (a : String) (m : Dict String QuorumEntry) (id : String)
    → All (λ q. distinct q.1.actors ≡ true) m
    → distinct (vote now a (lookup id m)).actors ≡ true
unfolding vote lookup
vote-distinct now a [] id h = add_actor-distinct a [] refl
vote-distinct now a ((k, q) ∷ m) id (d, ds) = elim (Bool-cases (k == id)) [
  | inl here ↦ rw here (add_actor-distinct a q.actors d)
  | inr there ↦ rw there (vote-distinct now a m id ds)
]

keep-All : {A : Type 0} (P : A → Type 0) (p : A → Bool) (xs : List A) → All P xs → All P (keep p xs)
keep-All P p [] h = tt
keep-All P p (x ∷ xs) (h, hs) = elim (Bool-cases (p x)) [
  | inl kept ↦ rw kept (h, keep-All P p xs hs)
  | inr dropped ↦ rw dropped (keep-All P p xs hs)
]

insert-All :
    (P : QuorumEntry → Type 0) (id : String) (q : QuorumEntry) (m : Dict String QuorumEntry)
    → P q
    → All (λ x. P x.1) m
    → All (λ x. P x.1) (insert id q m)
unfolding insert
insert-All P id q [] p h = (p, tt)
insert-All P id q ((k, r) ∷ m) p (h, hs) = elim (Bool-cases (k == id)) [
  | inl here ↦ rw here (p, hs)
  | inr there ↦ rw there (h, insert-All P id q m p hs)
]

remove-All :
    (P : QuorumEntry → Type 0) (id : String) (m : Dict String QuorumEntry)
    → All (λ x. P x.1) m
    → All (λ x. P x.1) (remove id m)
unfolding remove
remove-All P id [] h = tt
remove-All P id ((k, r) ∷ m) (h, hs) = elim (Bool-cases (k == id)) [
  | inl here ↦ rw here (remove-All P id m hs)
  | inr there ↦ rw there (h, remove-All P id m hs)
]

approved_instance :
    (now : ℕ) (actor : String) (w : WorkflowInstance)
    → ((transitioned now "approve" actor approved approved_step w).state ≡ approved)
      × ((transitioned now "approve" actor approved approved_step w).decision_id ≡ w.decision_id)
      × ((transitioned now "approve" actor approved approved_step w).workflow_id ≡ w.workflow_id)
unfolding transitioned add_step advance
approved_instance now actor w = (refl, refl, refl)

partial_instance :
    (now : ℕ) (actor : String) (w : WorkflowInstance)
    → ((add_step now (partial_step actor) w).state ≡ w.state)
      × ((add_step now (partial_step actor) w).decision_id ≡ w.decision_id)
      × ((add_step now (partial_step actor) w).workflow_id ≡ w.workflow_id)
unfolding add_step advance
partial_instance now actor w = (refl, refl, refl)

lookup-update :
    (id : String) (u : WorkflowInstance) (m : Dict String WorkflowInstance)
    → u.workflow_id ≡ id
    → lookup id (insert u.workflow_id u m) ≡ some u
lookup-update id u m h =
    subst (λ k. lookup k (insert u.workflow_id u m) ≡ some u) h
      (lookup-insert_self u.workflow_id u m)

transition-repo :
    (now : ℕ) (id kind actor : String) (state : WorkflowState) (o : StepOutcome)
    (e : WorkflowEngine) (w : WorkflowInstance)
    → lookup id e.repo ≡ some w
    → (transition now id kind actor state o e).1.repo
      ≡ insert
          (transitioned now kind actor state o w).workflow_id
          (transitioned now kind actor state o w)
          e.repo
unfolding transition
transition-repo now id kind actor state o e w found = rw (found, transition) refl

-- An approval of a workflow that the repository holds leaves it there for the same decision; it is
-- then approved if the votes at that moment, this one included, are as many as required, and keeps
-- its state otherwise. Nothing is asked of the state before: a rejected, revoked or expired workflow
-- becomes approved too.
pub approve-lookup :
    (now : ℕ) (id actor : String) (min_approvers : ℕ) (e : WorkflowEngine) (w : WorkflowInstance)
    → lookup id e.repo ≡ some w
    → w.workflow_id ≡ id
    → (u : WorkflowInstance) × (lookup id (approve now id actor min_approvers e).repo ≡ some u)
      × (u.decision_id ≡ w.decision_id)
      × (u.state
          ≡ (if leb min_approvers (length (votes now id actor e)) then approved else w.state))
unfolding approve transition record_vote evict_stale
approve-lookup now id actor min_approvers e w found named =
    elim (Bool-cases (leb min_approvers (length (votes now id actor e)))) [
      | inl enough ↦
          let (state, decision, same) = approved_instance now actor w in
          let u = transitioned now "approve" actor approved approved_step w in
          let stored =
            transition-repo now id "approve" actor approved approved_step
              (record_vote now id actor (evict_stale now e)) w found in
          (
            u,
            rw (found, approve, enough)
                (subst (λ m. lookup id m ≡ some u) (sym stored)
                  (lookup-update id u e.repo (same ∙ named))),
            decision,
            rw enough state,
          )
      | inr lacking ↦
          let (state, decision, same) = partial_instance now actor w in
          let u = add_step now (partial_step actor) w in
          (
            u,
            rw (found, approve, lacking) (lookup-update id u e.repo (same ∙ named)),
            decision,
            rw lacking state,
          )
    ]

transition-IsEngine :
    (now : ℕ) (id kind actor : String) (state : WorkflowState) (o : StepOutcome)
    (e : WorkflowEngine)
    → IsEngine e
    → IsEngine (transition now id kind actor state o e).1
unfolding transition
transition-IsEngine now id kind actor state o e h = elim (Option-cases (lookup id e.repo)) [
  | inl missing ↦ rw (missing, transition) h
  | inr (w, found) ↦ rw (found, transition) h
]

record_vote-IsEngine :
    (now : ℕ) (id actor : String) (e : WorkflowEngine)
    → IsEngine e
    → IsEngine (record_vote now id actor e)
unfolding record_vote
record_vote-IsEngine now id actor e h =
    insert-All (λ q. distinct q.actors ≡ true) id (vote now actor (lookup id e.quorum_state))
      e.quorum_state (vote-distinct now actor e.quorum_state id h) h

evict_stale-IsEngine : (now : ℕ) (e : WorkflowEngine) → IsEngine e → IsEngine (evict_stale now e)
unfolding evict_stale
evict_stale-IsEngine now e h = keep-All _ _ e.quorum_state h

-- An actor's second vote does not count: where no list of votes that the engine holds names an actor
-- twice, the votes that the next approval counts name none twice either, and so do the lists that
-- the engine holds afterwards.
pub approve-IsEngine :
    (now : ℕ) (id actor : String) (min_approvers : ℕ) (e : WorkflowEngine)
    → IsEngine e
    → (distinct (votes now id actor e) ≡ true) × IsEngine (approve now id actor min_approvers e)
unfolding approve
approve-IsEngine now id actor min_approvers e h =
    let kept = evict_stale-IsEngine now e h in
    let voted = record_vote-IsEngine now id actor (evict_stale now e) kept in
    (
      vote-distinct now actor (evict_stale now e).quorum_state id kept,
      elim (Option-cases (lookup id e.repo)) [
        | inl missing ↦ rw (missing, approve) voted
        | inr (w, found) ↦ elim (Bool-cases (leb min_approvers (length (votes now id actor e)))) [
          | inl enough ↦
              rw (found, approve, enough)
                (remove-All (λ q. distinct q.actors ≡ true) id _
                  (transition-IsEngine now id "approve" actor approved approved_step
                    (record_vote now id actor (evict_stale now e)) voted))
          | inr lacking ↦ rw (found, approve, lacking) voted
        ]
      ],
    )
