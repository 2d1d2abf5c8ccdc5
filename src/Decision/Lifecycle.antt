-- ===== src/Decision/Lifecycle.antt =====
-- glassbox/domain/decision.py: the histories of an approval, as sequences of transitions.
use glassbox_agentic_governa.Prelude.{
  ℕ, ◌≡◌, refl, sym, ap, String, true, false, Option, if◌then◌else◌, arith, ◌==◌, string_eq, inl,
  inr, Bool-cases,
}
use mathlib.Core.Path.{subst}
use glassbox_agentic_governa.Prelude.Text.{codes}
use glassbox_agentic_governa.Errors.{ok, err, require, >>=-eq-ok, domain_validation}
use glassbox_agentic_governa.Serialization.{
  require_non_empty, require_identifier, require_timestamp,
}
use glassbox_agentic_governa.Mandate.{optional_timestamp}
use glassbox_agentic_governa.Decision.{
  ApprovalState, pending, in_review, approved, Approval, make_approval, transition, can_become,
  is_terminal, or_else, or_text, optional_identifier,
}

-- The constructor checks and changes nothing.
make_approval-eq_ok : (a b : Approval) → make_approval a ≡ ok b → b ≡ a
unfolding make_approval
make_approval-eq_ok a b h =
    let (_, _, h1) = >>=-eq-ok (require_identifier (codes a.approval_id) "approval_id") _ h in
    let (_, _, h2) = >>=-eq-ok (require_identifier (codes a.decision_id) "decision_id") _ h1 in
    let (_, _, h3) = >>=-eq-ok (require_identifier (codes a.tenant_id) "tenant_id") _ h2 in
    let (_, _, h4) = >>=-eq-ok (require_non_empty (codes a.rationale) "rationale") _ h3 in
    let (_, _, h5) = >>=-eq-ok (require_timestamp a.requested_at "requested_at") _ h4 in
    let (_, _, h6) = >>=-eq-ok (optional_timestamp a.reviewed_at "reviewed_at") _ h5 in
    let (_, _, h7) = >>=-eq-ok (optional_identifier a.reviewed_by "reviewed_by") _ h6 in
    let (_, _, h8) = >>=-eq-ok (optional_timestamp a.expires_at "expires_at") _ h7 in
    let (_, _, h9) = >>=-eq-ok (optional_timestamp a.revoked_at "revoked_at") _ h8 in
    let (_, _, h10) = >>=-eq-ok (require (a.action.resource.tenant_id == a.tenant_id) _) _ h9 in cc

-- What a transition keeps of the approval: what it approves and for whom.
abbrev pub Kept : Approval → Approval → Type 0
Kept a b =
    (b.approval_id ≡ a.approval_id)
    × (b.decision_id ≡ a.decision_id)
    × (b.tenant_id ≡ a.tenant_id)
    × (b.action ≡ a.action)
    × (b.expires_at ≡ a.expires_at)

abbrev transitioned : Approval → ApprovalState → Option String → String → Option ℕ → Approval
transitioned a state actor notes at = record a {
  state = state;
  reviewed_at = or_else at a.reviewed_at;
  reviewed_by = or_text actor a.reviewed_by;
  notes = (if notes == "" then a.notes else notes);
}

transition-eq_ok :
    (a b : Approval) (state : ApprovalState) (actor : Option String) (notes : String)
    (at : Option ℕ)
    → transition a state actor notes at ≡ ok b
    → (can_become a.state state ≡ true) × (b.state ≡ state) × Kept a b
unfolding transition
transition-eq_ok a b state actor notes at h = elim (Bool-cases (can_become a.state state)) [
  | inr not_allowed ↦ cc
  | inl can ↦
      let r = transitioned a state actor notes at in
      let checked : make_approval r ≡ ok b = cc in
      let made = make_approval-eq_ok r b checked in
      (can, ap (λ c. c.state) made, subst (Kept a) (sym made) (refl, refl, refl, refl, refl))
]

-- The approvals that successful transitions lead to.
pub data Run (a : Approval) : Approval → Type 0 where
  stay : Run a a
  step :
      (b c : Approval) (state : ApprovalState) (actor : Option String) (notes : String)
      (at : Option ℕ)
      → Run a b
      → transition b state actor notes at ≡ ok c
      → Run a c

transition-refused :
    (a : Approval) (state : ApprovalState) (actor : Option String) (notes : String) (at : Option ℕ)
    → can_become a.state state ≡ false
    → transition a state actor notes at ≡ err (domain_validation "state")
unfolding transition
transition-refused a state actor notes at h = rw h refl

can_become-approved : (s : ApprovalState) → can_become s approved ≡ true → s ≡ in_review
unfolding can_become
can_become-approved s h = ground arith

terminal-can_become : (s t : ApprovalState) → is_terminal s ≡ true → can_become s t ≡ false
unfolding can_become
terminal-can_become s t h = ground arith

-- Over every history of successful transitions the approval keeps its id, its decision, its tenant,
-- the action it approves and its expiry; and a history that starts in a final state (approved,
-- rejected, revoked or expired) has no step, so that the approval is still the same.
pub Run-Kept : {a b : Approval} → Run a b → Kept a b × (is_terminal a.state ≡ true → b ≡ a)
Run-Kept stay = ((refl, refl, refl, refl, refl), λ t. refl)
Run-Kept {a} (step b c state actor notes at r h) =
    let (kept, final) = Run-Kept r in
    let (can, arrived, kept2) = transition-eq_ok b c state actor notes at h in
    (
      (cc, cc, cc, cc, cc),
      λ t.
          let same = final t in
          let no =
            terminal-can_become b.state state
              (subst (λ x. is_terminal x.state ≡ true) (sym same) t) in
          cc,
    )

-- An approval that is pending and that successful transitions bring to approved was in review in
-- between: the history passes through an approval of the same decision that is in review.
pub Run-approved :
    {a b : Approval}
    → Run a b
    → a.state ≡ pending
    → b.state ≡ approved
    → (m : Approval) × Run a m × Run m b × (m.state ≡ in_review) × (m.decision_id ≡ a.decision_id)
Run-approved stay h1 h2 = cc
Run-approved {a} (step b c state actor notes at r h) h1 h2 =
    let (can, arrived, _) = transition-eq_ok b c state actor notes at h in
    let (kept, _) = Run-Kept r in
    let (_, dec, _, _, _) = kept in
    let can2 : can_become b.state approved ≡ true = cc in
    (b, r, step b c state actor notes at stay h, can_become-approved b.state can2, dec)
