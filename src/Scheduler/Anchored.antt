-- ===== src/Scheduler/Anchored.antt =====
-- glassbox/app/retention_scheduler.py: what the state of a segment says about its anchor.
use glassbox_agentic_governa.Prelude.{
  ℕ, ◌≡◌, refl, sym, ap, ◌∙◌, String, Option, none, some, List, string_eq, ◌&&◌, ◌||◌, not,
}
use glassbox_agentic_governa.Prelude.Text.{codes}
use glassbox_agentic_governa.Prelude.Dict.{lookup}
use glassbox_agentic_governa.Errors.{ok, >>=-eq-ok, require, domain_validation}
use glassbox_agentic_governa.EvidenceStore.Reports.{
  WormAnchor, EvidenceSegment, make_segment, check_seal, is_some,
}
use glassbox_agentic_governa.Decision.{optional_identifier}
use glassbox_agentic_governa.Serialization.{require_identifier, require_timestamp}
use glassbox_agentic_governa.EvidenceStore.Store.{EvidenceStore, StoredRecord, get}
use glassbox_agentic_governa.EvidenceStore.Retention.{
  segment_state, sealed_by, anchor_for, opened_or_one,
}

make_segment-eq_ok : (a b : EvidenceSegment) → make_segment a ≡ ok b → a ≡ b
unfolding make_segment
make_segment-eq_ok a b h =
    let (_, _, h1) = >>=-eq-ok (require_identifier (codes a.segment_id) "segment_id") _ h in
    let (_, _, h2) = >>=-eq-ok (require_identifier (codes a.tenant_id) "tenant_id") _ h1 in
    let (_, _, h3) = >>=-eq-ok (require_timestamp a.opened_at "opened_at") _ h2 in
    let (_, _, h4) =
      >>=-eq-ok
        (require
          ((is_some a.sealed_at
              && is_some a.last_seq
              && is_some a.merkle_root
              && is_some a.seal_signature)
            || not (
                is_some a.sealed_at
                || is_some a.last_seq
                || is_some a.merkle_root
                || is_some a.seal_signature))
          (domain_validation "sealed_at"))
        _ h3 in
    let (_, _, h5) = >>=-eq-ok (check_seal a a.sealed_at a.last_seq a.merkle_root) _ h4 in
    let (_, _, h6) = >>=-eq-ok (optional_identifier a.worm_anchor_id "worm_anchor_id") _ h5 in cc

-- A segment that counts as sealed has an anchor, and both agree.
abbrev pub Anchored : String → EvidenceStore → EvidenceSegment → ℕ → Type 0
Anchored g s state sealed_at =
    (anchor : WormAnchor) × (locator : String) × (lookup g s.worm_anchors ≡ some (anchor, locator))
    × (anchor.sealed_at ≡ sealed_at)
    × (state.last_seq ≡ some anchor.last_seq)

sealed_by-Anchored :
    (g : String) (s : EvidenceStore) (entry : Option (WormAnchor × String))
    (state : EvidenceSegment) (sealed_at : ℕ)
    → lookup g s.worm_anchors ≡ entry
    → sealed_by (anchor_for g s) g s ≡ state
    → state.sealed_at ≡ some sealed_at
    → Anchored g s state sealed_at
unfolding sealed_by anchor_for
sealed_by-Anchored g s none state sealed_at there made h =
    let as_made = ap (λ x. x.sealed_at) (rw (there, anchor_for) at made) in cc
sealed_by-Anchored g s (some (anchor, locator)) state sealed_at there made h =
    let as_made = rw (there, anchor_for) at made in
    let moment = ap (λ x. x.sealed_at) as_made in
    let bound = ap (λ x. x.last_seq) as_made in (anchor, locator, there, cc, sym bound)

segment_state-make_segment :
    (g : String) (s : EvidenceStore) (entry : Option (List StoredRecord)) (state : EvidenceSegment)
    → lookup g s.segments ≡ entry
    → segment_state g s ≡ ok (some state)
    → make_segment (sealed_by (anchor_for g s) g s) ≡ ok state
unfolding segment_state
segment_state-make_segment g s none state there h = let read = rw (there, segment_state) at h in cc
segment_state-make_segment g s (some records) state there h =
    let (made, is_made, returned) =
      >>=-eq-ok (make_segment (sealed_by (anchor_for g s) g s)) _
        (rw (there, segment_state) at h) in
    is_made ∙ cc

pub segment_state-Anchored :
    (g : String) (s : EvidenceStore) (state : EvidenceSegment) (sealed_at : ℕ)
    → segment_state g s ≡ ok (some state)
    → state.sealed_at ≡ some sealed_at
    → Anchored g s state sealed_at
segment_state-Anchored g s state sealed_at h =
    sealed_by-Anchored g s (lookup g s.worm_anchors) state sealed_at refl (
      make_segment-eq_ok (sealed_by (anchor_for g s) g s) state
        (segment_state-make_segment g s (lookup g s.segments) state refl h))

-- A segment that counts as open has no anchor, and its state says when it was opened.
abbrev pub Unsealed : String → EvidenceStore → EvidenceSegment → Type 0
Unsealed g s state =
    (lookup g s.worm_anchors ≡ none) × (state.opened_at ≡ opened_or_one (get 0 g s.opened_at))

sealed_by-Unsealed :
    (g : String) (s : EvidenceStore) (entry : Option (WormAnchor × String))
    (state : EvidenceSegment)
    → lookup g s.worm_anchors ≡ entry
    → sealed_by (anchor_for g s) g s ≡ state
    → state.sealed_at ≡ none
    → Unsealed g s state
unfolding sealed_by anchor_for
sealed_by-Unsealed g s none state there made h =
    let as_made = rw (there, anchor_for) at made in (there, sym (ap (λ x. x.opened_at) as_made))
sealed_by-Unsealed g s (some (anchor, locator)) state there made h =
    let as_made = ap (λ x. x.sealed_at) (rw (there, anchor_for) at made) in absurd (cc)

pub segment_state-Unsealed :
    (g : String) (s : EvidenceStore) (state : EvidenceSegment)
    → segment_state g s ≡ ok (some state)
    → state.sealed_at ≡ none
    → Unsealed g s state
segment_state-Unsealed g s state h = sealed_by-Unsealed g s (lookup g s.worm_anchors) state refl (
    make_segment-eq_ok (sealed_by (anchor_for g s) g s) state
      (segment_state-make_segment g s (lookup g s.segments) state refl h))
