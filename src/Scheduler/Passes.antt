-- ===== src/Scheduler/Passes.antt =====
-- glassbox/app/retention_scheduler.py: what a pass of the scheduler reports.
use glassbox_agentic_governa.Prelude.{
  ℕ, ◌≡◌, refl, String, false, Option, none, some, List, [], ◌∷◌, map, ltb, leb, inl, inr,
  Bool-cases, ◌+◌,
}
use glassbox_agentic_governa.Errors.{
  Result, ok, err, is_evidence_write_error, is_signing_unavailable,
}
use glassbox_agentic_governa.Merkle.{Bytes}
use glassbox_agentic_governa.EvidenceStore.{MacSigner}
use glassbox_agentic_governa.EvidenceStore.Reports.{WormAnchor, EvidenceSegment}
use glassbox_agentic_governa.EvidenceStore.Store.{EvidenceStore}
use glassbox_agentic_governa.EvidenceStore.Retention.{SegmentLeaf, segment_state, segment_leaves}
use glassbox_agentic_governa.EvidenceStore.Sealer.{WormAnchorStore, last_seq_of, seal, purge}
use glassbox_agentic_governa.Scheduler.{
  RetentionOutcome, RetentionScheduler, maybe_seal, maybe_purge, purge_sealed, on_leaves, on_state,
  on_seal_state, on_seal, on_purge, consider, run_once, and_then, collect, Outcome, Pass,
}

-- What is reported of a segment: an outcome that names it, or an error that is no failed write.
abbrev Reports : String → Result RetentionOutcome → Type 0
Reports g (ok outcome) = outcome.segment_id ≡ g
Reports g (err e) = is_evidence_write_error e ≡ false

on_seal-Reports : (g : String) (r : Result WormAnchor) → Reports g (on_seal g r)
on_seal-Reports g (ok anchor) = refl
on_seal-Reports g (err e) = elim (Bool-cases (is_evidence_write_error e)) [
  | inl written ↦ rw written refl
  | inr other ↦ elim (Bool-cases (is_signing_unavailable e)) [
    | inl unsigned ↦ rw (other, unsigned) refl
    | inr raised ↦ rw (other, raised) other
  ]
]

on_purge-Reports : (g : String) (r : Result (ℕ × WormAnchor)) → Reports g (on_purge g r)
on_purge-Reports g (ok done) = refl
on_purge-Reports g (err e) = elim (Bool-cases (is_evidence_write_error e)) [
  | inl written ↦ rw written refl
  | inr other ↦ rw other other
]

-- One outcome for every segment, in the order of the segments, or an error that is no failed write.
abbrev pub Complete : List String → Result (List RetentionOutcome) → Type 0
Complete gs (ok outcomes) = map (λ o. o.segment_id) outcomes ≡ gs
Complete gs (err e) = is_evidence_write_error e ≡ false

module _ (sha256 : Bytes → Bytes) (decimal : ℕ → String)
    (canonical : String → String → String → Bytes → ℕ → ℕ → ℕ → ℕ → Bytes) {W : Type 0}
    (anchors : WormAnchorStore W) (signer : MacSigner) (scheduler : RetentionScheduler) where
  on_leaves-Reports :
      (g : String) (now : ℕ) (s : EvidenceStore) (w : W) (leaves : Result (List SegmentLeaf))
      → Reports g (on_leaves sha256 decimal canonical anchors signer scheduler g now s w leaves).0
  on_leaves-Reports g now s w (err e) = refl
  on_leaves-Reports g now s w (ok []) = refl
  on_leaves-Reports g now s w (ok (leaf ∷ leaves)) =
      on_seal-Reports g
        (seal sha256 decimal canonical anchors signer g (last_seq_of leaf.seq leaves + 1) now s w).0

  maybe_seal-Reports :
      (g : String) (now opened_at : ℕ) (s : EvidenceStore) (w : W)
      → Reports g
          (maybe_seal sha256 decimal canonical anchors signer scheduler g now opened_at s w).0
  unfolding maybe_seal
  maybe_seal-Reports g now opened_at s w =
      elim (Bool-cases (ltb now (opened_at + scheduler.seal_after_seconds))) [
        | inl young ↦ rw young refl
        | inr old ↦ rw old (on_leaves-Reports g now s w (segment_leaves g none s))
      ]

  purge_sealed-Reports :
      (g : String) (last_seq : Option ℕ) (first_seq : ℕ) (s : EvidenceStore) (w : W)
      → Reports g
          (purge_sealed sha256 decimal canonical anchors signer scheduler g last_seq first_seq s
            w).0
  unfolding purge_sealed
  purge_sealed-Reports g none first_seq s w = refl
  purge_sealed-Reports g (some n) first_seq s w = elim (Bool-cases (leb (n + 1) first_seq)) [
    | inl gone ↦ rw gone refl
    | inr live ↦
        rw live (on_purge-Reports g (purge sha256 decimal canonical anchors signer g (n + 1) s w).0)
  ]

  maybe_purge-Reports :
      (g : String) (now sealed_at : ℕ) (last_seq : Option ℕ) (first_seq : ℕ) (s : EvidenceStore)
      (w : W)
      → Reports g
          (maybe_purge sha256 decimal canonical anchors signer scheduler g now sealed_at last_seq
            first_seq s w).0
  unfolding maybe_purge
  maybe_purge-Reports g now sealed_at last_seq first_seq s w =
      elim (Bool-cases (ltb now (sealed_at + scheduler.purge_grace_seconds))) [
        | inl fresh ↦ rw fresh refl
        | inr due ↦ rw due (purge_sealed-Reports g last_seq first_seq s w)
      ]

  on_seal_state-Reports :
      (g : String) (now : ℕ) (state : EvidenceSegment) (sealed_at : Option ℕ) (s : EvidenceStore)
      (w : W)
      → Reports g
          (on_seal_state sha256 decimal canonical anchors signer scheduler g now state sealed_at s
            w).0
  on_seal_state-Reports g now state none s w = maybe_seal-Reports g now state.opened_at s w
  on_seal_state-Reports g now state (some sealed_at) s w =
      maybe_purge-Reports g now sealed_at state.last_seq state.first_seq s w

  on_state-Reports :
      (g : String) (now : ℕ) (s : EvidenceStore) (w : W) (state : Result (Option EvidenceSegment))
      → Reports g (on_state sha256 decimal canonical anchors signer scheduler g now s w state).0
  on_state-Reports g now s w (err e) = refl
  on_state-Reports g now s w (ok none) = refl
  on_state-Reports g now s w (ok (some state)) =
      on_seal_state-Reports g now state state.sealed_at s w

  collect-Complete :
      (g : String) (gs : List String) (outcome : RetentionOutcome)
      (p : Pass sha256 decimal canonical anchors signer scheduler)
      → outcome.segment_id ≡ g
      → Complete gs p.0
      → Complete (g ∷ gs) (collect sha256 decimal canonical anchors signer scheduler outcome p).0
  collect-Complete g gs outcome (ok outcomes, s, w) h rest = cc
  collect-Complete g gs outcome (err e, s, w) h rest = rest

  and_then-Complete :
      (g : String) (gs : List String)
      (o : Outcome sha256 decimal canonical anchors signer scheduler)
      (rest : EvidenceStore → W → Pass sha256 decimal canonical anchors signer scheduler)
      → Reports g o.0
      → ((s : EvidenceStore) (w : W) → Complete gs (rest s w).0)
      → Complete (g ∷ gs) (and_then sha256 decimal canonical anchors signer scheduler o rest).0
  and_then-Complete g gs (err e, s, w) rest h after = h
  and_then-Complete g gs (ok outcome, s, w) rest h after =
      collect-Complete g gs outcome (rest s w) h (after s w)

  -- Whatever the storage of anchors and the signer answer: a pass that returns reports one outcome
  -- for every segment that it was given, in that order, and a failed write of evidence never ends
  -- a pass. What does end one is an error of another kind.
  pub run_once-Complete :
      (gs : List String) (now : ℕ) (s : EvidenceStore) (w : W)
      → Complete gs (run_once sha256 decimal canonical anchors signer scheduler gs now s w).0
  unfolding run_once consider
  run_once-Complete [] now s w = refl
  run_once-Complete (g ∷ gs) now s w =
      and_then-Complete g gs (consider sha256 decimal canonical anchors signer scheduler g now s w)
        (run_once sha256 decimal canonical anchors signer scheduler gs now)
        (on_state-Reports g now s w (segment_state g s)) (run_once-Complete gs now)
