-- ===== src/Scheduler/Sweeps.antt =====
-- glassbox/app/retention_scheduler.py: what a pass of the scheduler removes from the store.
use glassbox_agentic_governa.Prelude.{
  ℕ, ◌≡◌, refl, ◌≤◌, ◌+◌, String, Option, none, some, List, [], ◌∷◌, ltb, leb, ◌⊎◌, string_eq, inl,
  inr, Bool-cases, arith,
}
use glassbox_agentic_governa.Prelude.Dict.{lookup}
use glassbox_agentic_governa.Errors.{Result, ok, err, ◌>>=◌}
use glassbox_agentic_governa.Merkle.{Bytes}
use glassbox_agentic_governa.EvidenceStore.{MacSigner}
use glassbox_agentic_governa.EvidenceStore.Reports.{WormAnchor, EvidenceSegment}
use glassbox_agentic_governa.EvidenceStore.Store.{EvidenceStore, get}
use glassbox_agentic_governa.EvidenceStore.Retention.{
  SegmentLeaf, segment_state, segment_leaves, opened_or_one,
}
use glassbox_agentic_governa.EvidenceStore.Sealer.{
  WormAnchorStore, last_seq_of, seal, purge, on_put, on_anchor, covering_anchor,
}
use glassbox_agentic_governa.EvidenceStore.Sealing.{
  PurgedFrom, mark_sealed-segments, on_covered-segments,
}
use glassbox_agentic_governa.Scheduler.{
  RetentionOutcome, RetentionScheduler, maybe_seal, maybe_purge, purge_sealed, on_leaves, on_state,
  on_seal_state, consider, run_once, and_then, collect, Outcome, Pass,
}
use glassbox_agentic_governa.Scheduler.Anchored.{
  Anchored, segment_state-Anchored, Unsealed, segment_state-Unsealed,
}

module _ (sha256 : Bytes → Bytes) (decimal : ℕ → String)
    (canonical : String → String → String → Bytes → ℕ → ℕ → ℕ → ℕ → Bytes) {W : Type 0}
    (anchors : WormAnchorStore W) (signer : MacSigner) (scheduler : RetentionScheduler) where
  -- A seal of all leaves, and a purge of what an anchor covers.
  abbrev pub seal_all :
      String
      → SegmentLeaf
      → List SegmentLeaf
      → ℕ
      → EvidenceStore
      → W
      → Result WormAnchor × EvidenceStore × W
  seal_all g leaf leaves now s w =
      seal sha256 decimal canonical anchors signer g (last_seq_of leaf.seq leaves + 1) now s w

  abbrev pub purge_covered :
      String → WormAnchor → EvidenceStore → W → Result (ℕ × WormAnchor) × EvidenceStore × W
  purge_covered g anchor s w =
      purge sha256 decimal canonical anchors signer g (anchor.last_seq + 1) s w

  -- How a pass at a moment may change the store and the storage of anchors: not at all; by a seal
  -- of all live records of a segment that has no seal and was opened long enough ago, which leaves
  -- the records as they are; by a purge of a segment whose seal is as old as the grace period, up
  -- to the last record that the seal covers, which removes that prefix or nothing; or by one of
  -- these after another.
  pub data Swept (now : ℕ) : EvidenceStore → W → EvidenceStore → W → Type 0 where
    untouched : (s : EvidenceStore) (w : W) → Swept now s w s w
    sealed :
        (s : EvidenceStore) (w : W) (g : String) (leaf : SegmentLeaf) (leaves : List SegmentLeaf)
        → lookup g s.worm_anchors ≡ none
        → opened_or_one (get 0 g s.opened_at) + scheduler.seal_after_seconds ≤ now
        → segment_leaves g none s ≡ ok (leaf ∷ leaves)
        → (seal_all g leaf leaves now s w).1.segments ≡ s.segments
        → Swept now s w (seal_all g leaf leaves now s w).1 (seal_all g leaf leaves now s w).2
    purged :
        (s : EvidenceStore) (w : W) (g locator : String) (anchor : WormAnchor)
        → lookup g s.worm_anchors ≡ some (anchor, locator)
        → anchor.sealed_at + scheduler.purge_grace_seconds ≤ now
        → ((purge_covered g anchor s w).1.segments ≡ s.segments)
          ⊎ PurgedFrom g (anchor.last_seq + 1) s (purge_covered g anchor s w).1
        → Swept now s w (purge_covered g anchor s w).1 (purge_covered g anchor s w).2
    and_so_on :
        {s t u : EvidenceStore} {w v x : W}
        → Swept now s w t v
        → Swept now t v u x
        → Swept now s w u x

  on_put-segments :
      (g : String) (anchor : WormAnchor) (s : EvidenceStore) (put : Result String × W)
      → (on_put sha256 decimal canonical anchors g anchor s put).1.segments ≡ s.segments
  on_put-segments g anchor s (err e, w) = refl
  on_put-segments g anchor s (ok locator, w) = mark_sealed-segments g anchor locator s

  on_anchor-segments :
      (g : String) (s : EvidenceStore) (w : W) (anchor : Result WormAnchor)
      → (on_anchor sha256 decimal canonical anchors g s w anchor).1.segments ≡ s.segments
  on_anchor-segments g s w (err e) = refl
  on_anchor-segments g s w (ok anchor) = on_put-segments g anchor s (anchors.put anchor w)

  seal-segments :
      (g : String) (before_seq now : ℕ) (s : EvidenceStore) (w : W)
      → (seal sha256 decimal canonical anchors signer g before_seq now s w).1.segments ≡ s.segments
  unfolding seal
  seal-segments g before_seq now s w = on_anchor-segments g s w _

  on_leaves-Swept :
      (g : String) (now : ℕ) (s : EvidenceStore) (w : W) (leaves : Result (List SegmentLeaf))
      → segment_leaves g none s ≡ leaves
      → lookup g s.worm_anchors ≡ none
      → opened_or_one (get 0 g s.opened_at) + scheduler.seal_after_seconds ≤ now
      → let after = on_leaves sha256 decimal canonical anchors signer scheduler g now s w leaves in
        Swept now s w after.1 after.2
  on_leaves-Swept g now s w (err e) read new old = untouched s w
  on_leaves-Swept g now s w (ok []) read new old = untouched s w
  on_leaves-Swept g now s w (ok (leaf ∷ leaves)) read new old =
      sealed s w g leaf leaves new old read
        (seal-segments g (last_seq_of leaf.seq leaves + 1) now s w)

  maybe_seal-Swept :
      (g : String) (now : ℕ) (state : EvidenceSegment) (s : EvidenceStore) (w : W)
      → Unsealed g s state
      → let after =
          maybe_seal sha256 decimal canonical anchors signer scheduler g now state.opened_at s w in
        Swept now s w after.1 after.2
  unfolding maybe_seal
  maybe_seal-Swept g now state s w (new, opened) =
      elim (Bool-cases (ltb now (state.opened_at + scheduler.seal_after_seconds))) [
        | inl young ↦ rw young (untouched s w)
        | inr old ↦
            rw old (on_leaves-Swept g now s w (segment_leaves g none s) refl new (ground arith))
      ]

  purge_sealed-Swept :
      (g locator : String) (now first_seq : ℕ) (anchor : WormAnchor) (s : EvidenceStore) (w : W)
      → lookup g s.worm_anchors ≡ some (anchor, locator)
      → anchor.sealed_at + scheduler.purge_grace_seconds ≤ now
      → let after =
          purge_sealed sha256 decimal canonical anchors signer scheduler g
            (some anchor.last_seq)
            first_seq
            s
            w in
        Swept now s w after.1 after.2
  unfolding purge_sealed purge
  purge_sealed-Swept g locator now first_seq anchor s w there due =
      elim (Bool-cases (leb (anchor.last_seq + 1) first_seq)) [
        | inl gone ↦ rw gone (untouched s w)
        | inr live ↦ rw live (
            purged s w g locator anchor there due (
              on_covered-segments sha256 decimal canonical anchors g (anchor.last_seq + 1) s w (
                anchors.list_for_segment g w
                >>= covering_anchor sha256 decimal canonical signer (anchor.last_seq + 1))))
      ]

  maybe_purge-Swept :
      (g : String) (now sealed_at first_seq : ℕ) (state : EvidenceSegment) (s : EvidenceStore)
      (w : W)
      → Anchored g s state sealed_at
      → let after =
          maybe_purge sha256 decimal canonical anchors signer scheduler g now sealed_at
            state.last_seq first_seq s w in
        Swept now s w after.1 after.2
  unfolding maybe_purge
  maybe_purge-Swept g now sealed_at first_seq state s w (anchor, locator, there, moment, bound) =
      elim (Bool-cases (ltb now (sealed_at + scheduler.purge_grace_seconds))) [
        | inl fresh ↦ rw fresh (untouched s w)
        | inr due ↦
            rw (due, bound)
              (purge_sealed-Swept g locator now first_seq anchor s w there (ground arith))
      ]

  on_seal_state-Swept :
      (g : String) (now : ℕ) (state : EvidenceSegment) (sealed_at : Option ℕ) (s : EvidenceStore)
      (w : W)
      → segment_state g s ≡ ok (some state)
      → state.sealed_at ≡ sealed_at
      → let after =
          on_seal_state sha256 decimal canonical anchors signer scheduler g now state sealed_at s
            w in
        Swept now s w after.1 after.2
  on_seal_state-Swept g now state none s w read h =
      maybe_seal-Swept g now state s w (segment_state-Unsealed g s state read h)
  on_seal_state-Swept g now state (some sealed_at) s w read h =
      maybe_purge-Swept g now sealed_at state.first_seq state s w
        (segment_state-Anchored g s state sealed_at read h)

  on_state-Swept :
      (g : String) (now : ℕ) (s : EvidenceStore) (w : W) (state : Result (Option EvidenceSegment))
      → segment_state g s ≡ state
      → let after = on_state sha256 decimal canonical anchors signer scheduler g now s w state in
        Swept now s w after.1 after.2
  on_state-Swept g now s w (err e) read = untouched s w
  on_state-Swept g now s w (ok none) read = untouched s w
  on_state-Swept g now s w (ok (some state)) read =
      on_seal_state-Swept g now state state.sealed_at s w read refl

  collect-Swept :
      (now : ℕ) (s : EvidenceStore) (w : W) (outcome : RetentionOutcome)
      (p : Pass sha256 decimal canonical anchors signer scheduler)
      → Swept now s w p.1 p.2
      → let after = collect sha256 decimal canonical anchors signer scheduler outcome p in
        Swept now s w after.1 after.2
  collect-Swept now s w outcome (ok outcomes, t, v) h = h
  collect-Swept now s w outcome (err e, t, v) h = h

  and_then-Swept :
      (now : ℕ) (s : EvidenceStore) (w : W)
      (o : Outcome sha256 decimal canonical anchors signer scheduler)
      (rest : EvidenceStore → W → Pass sha256 decimal canonical anchors signer scheduler)
      → Swept now s w o.1 o.2
      → ((t : EvidenceStore) (v : W) → Swept now t v (rest t v).1 (rest t v).2)
      → let after = and_then sha256 decimal canonical anchors signer scheduler o rest in
        Swept now s w after.1 after.2
  and_then-Swept now s w (err e, t, v) rest first after = first
  and_then-Swept now s w (ok outcome, t, v) rest first after =
      and_so_on first (collect-Swept now t v outcome (rest t v) (after t v))

  -- Whatever the storage of anchors and the signer answer, and whether it returns or raises: all
  -- that a pass over any segments at a moment does to the store and to the storage of anchors is to
  -- seal segments and to purge segments, one after another. It seals a segment only where it has no
  -- seal and was opened at least the given time ago, and no record changes then. It purges a
  -- segment only where the store holds a seal of it that is at least as old as the grace period,
  -- and then exactly the records up to the last one that the seal covers go, or none.
  pub run_once-Swept :
      (gs : List String) (now : ℕ) (s : EvidenceStore) (w : W)
      → let after = run_once sha256 decimal canonical anchors signer scheduler gs now s w in
        Swept now s w after.1 after.2
  unfolding run_once consider
  run_once-Swept [] now s w = untouched s w
  run_once-Swept (g ∷ gs) now s w =
      and_then-Swept now s w (consider sha256 decimal canonical anchors signer scheduler g now s w)
        (run_once sha256 decimal canonical anchors signer scheduler gs now)
        (on_state-Swept g now s w (segment_state g s) refl) (run_once-Swept gs now)
