-- ===== src/Scheduler.antt =====
-- glassbox/app/retention_scheduler.py: when a segment of evidence is sealed and when its sealed
-- prefix is purged. Sealing and purging are those of EvidenceStore.Sealer. The texts of an outcome
-- are left out. The source subtracts moments, which are floats; `now - opened_at < seconds` is
-- written as a sum.
use glassbox_agentic_governa.Prelude.{
  ℕ, ◌+◌, String, Bool, true, false, Option, none, some, List, [], ◌∷◌, ◌||◌, if◌then◌else◌, ltb,
  leb,
}
use glassbox_agentic_governa.Errors.{
  GlassBoxError, Result, ok, err, is_evidence_write_error, is_signing_unavailable,
}
use glassbox_agentic_governa.Merkle.{Bytes}
use glassbox_agentic_governa.EvidenceStore.{MacSigner}
use glassbox_agentic_governa.EvidenceStore.Reports.{WormAnchor, EvidenceSegment}
use glassbox_agentic_governa.EvidenceStore.Store.{EvidenceStore}
use glassbox_agentic_governa.EvidenceStore.Retention.{SegmentLeaf, segment_state, segment_leaves}
use glassbox_agentic_governa.EvidenceStore.Sealer.{WormAnchorStore, last_seq_of, seal, purge}
pub mod Anchored
pub mod Sweeps
pub mod Passes
pub mod Tests

pub data RetentionAction : Type 0 where
  sealed purged skipped failed : RetentionAction

pub record RetentionOutcome : Type 0 where
  pub segment_id : String
  pub action : RetentionAction

-- The settings of a scheduler.
pub record RetentionScheduler : Type 0 where
  pub seal_after_seconds : ℕ
  pub purge_grace_seconds : ℕ

abbrev pub considered : String → RetentionAction → Result RetentionOutcome
considered g action = ok (record { segment_id = g; action = action })

-- The handlers of the calls that seal and purge.
abbrev pub on_seal : String → Result WormAnchor → Result RetentionOutcome
on_seal g (ok anchor) = considered g sealed
on_seal g (err e) =
    if is_evidence_write_error e || is_signing_unavailable e then considered g failed else err e

abbrev pub on_purge : String → Result (ℕ × WormAnchor) → Result RetentionOutcome
on_purge g (ok done) = considered g purged
on_purge g (err e) = if is_evidence_write_error e then considered g failed else err e

module _ (sha256 : Bytes → Bytes) (decimal : ℕ → String)
    (canonical : String → String → String → Bytes → ℕ → ℕ → ℕ → ℕ → Bytes) {W : Type 0}
    (anchors : WormAnchorStore W) (signer : MacSigner) (scheduler : RetentionScheduler) where
  abbrev pub Outcome : Type 0
  Outcome = Result RetentionOutcome × EvidenceStore × W

  abbrev pub and_seal : String → Result WormAnchor × EvidenceStore × W → Outcome
  and_seal g (r, s, w) = (on_seal g r, s, w)

  abbrev pub on_leaves : String → ℕ → EvidenceStore → W → Result (List SegmentLeaf) → Outcome
  on_leaves g now s w (err e) = (considered g failed, s, w)
  on_leaves g now s w (ok []) = (considered g skipped, s, w)
  on_leaves g now s w (ok (leaf ∷ leaves)) =
      and_seal g
        (seal sha256 decimal canonical anchors signer g (last_seq_of leaf.seq leaves + 1) now s w)

  -- _maybe_seal
  unfoldable pub maybe_seal : String → ℕ → ℕ → EvidenceStore → W → Outcome
  maybe_seal g now opened_at s w =
      if ltb now (opened_at + scheduler.seal_after_seconds)
      then (considered g skipped, s, w)
      else on_leaves g now s w (segment_leaves g none s)

  abbrev pub and_purge : String → Result (ℕ × WormAnchor) × EvidenceStore × W → Outcome
  and_purge g (r, s, w) = (on_purge g r, s, w)

  -- _maybe_purge, within and after the grace period.
  unfoldable pub purge_sealed : String → Option ℕ → ℕ → EvidenceStore → W → Outcome
  purge_sealed g none first_seq s w = (considered g skipped, s, w)
  purge_sealed g (some last_seq) first_seq s w =
      if leb (last_seq + 1) first_seq
      then (considered g skipped, s, w)
      else and_purge g (purge sha256 decimal canonical anchors signer g (last_seq + 1) s w)

  unfoldable pub maybe_purge : String → ℕ → ℕ → Option ℕ → ℕ → EvidenceStore → W → Outcome
  maybe_purge g now sealed_at last_seq first_seq s w =
      if ltb now (sealed_at + scheduler.purge_grace_seconds)
      then (considered g skipped, s, w)
      else purge_sealed g last_seq first_seq s w

  abbrev pub on_seal_state : String → ℕ → EvidenceSegment → Option ℕ → EvidenceStore → W → Outcome
  on_seal_state g now state none s w = maybe_seal g now state.opened_at s w
  on_seal_state g now state (some sealed_at) s w =
      maybe_purge g now sealed_at state.last_seq state.first_seq s w

  abbrev pub on_state : String → ℕ → EvidenceStore → W → Result (Option EvidenceSegment) → Outcome
  on_state g now s w (err e) = (considered g failed, s, w)
  on_state g now s w (ok none) = (considered g skipped, s, w)
  on_state g now s w (ok (some state)) = on_seal_state g now state state.sealed_at s w

  -- _consider
  unfoldable pub consider : String → ℕ → EvidenceStore → W → Outcome
  consider g now s w = on_state g now s w (segment_state g s)

  -- run_once: an exception that _consider does not handle ends the pass.
  abbrev pub Pass : Type 0
  Pass = Result (List RetentionOutcome) × EvidenceStore × W

  abbrev pub collect : RetentionOutcome → Pass → Pass
  collect outcome (ok outcomes, s, w) = (ok (outcome ∷ outcomes), s, w)
  collect outcome (err e, s, w) = (err e, s, w)

  abbrev pub and_then : Outcome → (EvidenceStore → W → Pass) → Pass
  and_then (err e, s, w) rest = (err e, s, w)
  and_then (ok outcome, s, w) rest = collect outcome (rest s w)

  unfoldable pub run_once : List String → ℕ → EvidenceStore → W → Pass
  run_once [] now s w = (ok [], s, w)
  run_once (g ∷ gs) now s w = and_then (consider g now s w) (run_once gs now)
