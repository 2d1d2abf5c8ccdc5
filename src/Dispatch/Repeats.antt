-- ===== src/Dispatch/Repeats.antt =====
-- glassbox/adapters/outbound/memory/dispatch.py: the outcome of an idempotency key, once it is known.
use glassbox_agentic_governa.Prelude.{
  ℕ, false, ◌==◌, ◌+◌, ◌≡◌, refl, sym, ap, ◌∙◌, String, Bool, true, Option, none, some, leb,
  string_eq, Bool-cases, inl, inr,
}
use mathlib.Core.Path.{subst}
use glassbox_agentic_governa.Prelude.Dict.{Dict, lookup, insert, lookup-insert, lookup-insert_self}
use glassbox_agentic_governa.Errors.{Result, ok, err, err≢ok}
use glassbox_agentic_governa.Action.{ProposedAction}
use glassbox_agentic_governa.Mandate.{Digest}
use glassbox_agentic_governa.Decision.{ExecutionOutcome}
use glassbox_agentic_governa.Evidence.{EvidenceReceipt}
use glassbox_agentic_governa.Dispatch.{
  Run, Dispatcher, accepts_receipt, on_recorded, begin, finish, outcome_of, on_begun, dispatch,
  pending_outcome, reserve, release, store, register, set_receipt_check, is_pending,
}

module _ {R H : Type 0} (digest_of : R → Digest) (is_flagged : R → Bool)
    (run : H → ProposedAction → Run R) where
  abbrev Known : String → ExecutionOutcome → Dispatcher H → Type 0
  Known key outcome d = lookup key d.outcomes ≡ some outcome

  finish-Known :
      (key : String) (result : Result ExecutionOutcome) (d : Dispatcher H)
      (outcome : ExecutionOutcome)
      → (finish key result d).0 ≡ ok outcome
      → Known key outcome (finish key result d).1
  unfolding finish release store
  finish-Known key (err e) d outcome h = absurd (err≢ok h)
  finish-Known key (ok o) d outcome h =
      let same : o ≡ outcome = cc in lookup-insert_self key o d.outcomes ∙ ap (λ q. some q) same

  on_recorded-Known :
      (action : ProposedAction) (timeout_s now : ℕ) (d : Dispatcher H)
      (known : Option ExecutionOutcome) (handler : Option H) (outcome : ExecutionOutcome)
      → lookup action.idempotency_key d.outcomes ≡ known
      → lookup action.action d.handlers ≡ handler
      → let answer =
          on_begun digest_of is_flagged run action timeout_s now (on_recorded action d known) in
        answer.0 ≡ ok outcome → Known action.idempotency_key outcome answer.1
  on_recorded-Known action timeout_s now d (some o) handler outcome found handled h =
      let same : o ≡ outcome = cc in found ∙ ap (λ q. some q) same
  on_recorded-Known action timeout_s now d none none outcome new handled h =
      absurd (err≢ok (rw handled at h))
  on_recorded-Known action timeout_s now d none (some handler) outcome new handled h =
      elim (Bool-cases (leb d.max_in_flight d.in_flight)) [
        | inl full ↦ absurd (err≢ok (rw (handled, full) at h))
        | inr room ↦
            rw (handled, room)
              (finish-Known action.idempotency_key
                (outcome_of digest_of is_flagged timeout_s now (run handler action))
                (record d {
                  in_flight = d.in_flight + 1;
                  outcomes = insert action.idempotency_key pending_outcome d.outcomes;
                })
                outcome (rw (handled, room) at h))
      ]

  dispatch-Known :
      (action : ProposedAction) (receipt : EvidenceReceipt) (timeout_s now : ℕ) (d : Dispatcher H)
      (outcome : ExecutionOutcome)
      → (dispatch digest_of is_flagged run action receipt timeout_s now d).0 ≡ ok outcome
      → Known action.idempotency_key outcome
          (dispatch digest_of is_flagged run action receipt timeout_s now d).1
  unfolding dispatch begin reserve
  dispatch-Known action receipt timeout_s now d outcome h =
      elim (Bool-cases (accepts_receipt receipt d)) [
        | inr unknown ↦ absurd (err≢ok (rw unknown at h))
        | inl accepted ↦ rw accepted (
            on_recorded-Known action timeout_s now d (lookup action.idempotency_key d.outcomes)
              (lookup action.action d.handlers) outcome refl refl (rw accepted at h))
      ]

  repeated :
      (action : ProposedAction) (receipt : EvidenceReceipt) (timeout_s now : ℕ) (d : Dispatcher H)
      (outcome : ExecutionOutcome)
      → Known action.idempotency_key outcome d
      → accepts_receipt receipt d ≡ true
      → dispatch digest_of is_flagged run action receipt timeout_s now d ≡ (ok outcome, d)
  unfolding dispatch begin reserve
  repeated action receipt timeout_s now d outcome known accepted = rw (accepted, known) refl

  -- The dispatcher after any number of whole dispatches, of any keys, registrations and changes of
  -- the receipt check.
  pub data Later : Dispatcher H → Dispatcher H → Type 0 where
    at_once : (d : Dispatcher H) → Later d d
    dispatched :
        {d e : Dispatcher H} (action : ProposedAction) (receipt : EvidenceReceipt)
        (timeout_s now : ℕ)
        → Later d e
        → Later d (dispatch digest_of is_flagged run action receipt timeout_s now e).1
    registered :
        {d e : Dispatcher H} (action : String) (handler : H)
        → Later d e
        → Later d (register action handler e)
    check_bound :
        {d e : Dispatcher H} (check : EvidenceReceipt → Bool)
        → Later d e
        → Later d (set_receipt_check check e)

  Known-insert :
      (key other : String) (outcome o : ExecutionOutcome) (m : Dict String ExecutionOutcome)
      → (other == key) ≡ false
      → lookup key m ≡ some outcome
      → lookup key (insert other o m) ≡ some outcome
  Known-insert key other outcome o m differs known = lookup-insert other key o m ∙ rw differs known

  finish-kept :
      (key other : String) (outcome : ExecutionOutcome) (result : Result ExecutionOutcome)
      (d : Dispatcher H)
      → (other == key) ≡ false
      → Known key outcome d
      → Known key outcome (finish other result d).1
  unfolding finish release store
  finish-kept key other outcome (err e) d differs known = known
  finish-kept key other outcome (ok o) d differs known =
      Known-insert key other outcome o d.outcomes differs known

  on_recorded-kept :
      (key : String) (outcome : ExecutionOutcome) (action : ProposedAction) (timeout_s now : ℕ)
      (d : Dispatcher H) (recorded : Option ExecutionOutcome) (handler : Option H)
      → lookup action.action d.handlers ≡ handler
      → (action.idempotency_key == key) ≡ false
      → Known key outcome d
      → Known key outcome
          (on_begun digest_of is_flagged run action timeout_s now (on_recorded action d recorded)).1
  on_recorded-kept key outcome action timeout_s now d (some o) handler handled differs known = known
  on_recorded-kept key outcome action timeout_s now d none none handled differs known =
      rw handled known
  on_recorded-kept key outcome action timeout_s now d none (some handler) handled differs known =
      elim (Bool-cases (leb d.max_in_flight d.in_flight)) [
        | inl full ↦ rw (handled, full) known
        | inr room ↦
            rw (handled, room)
              (finish-kept key action.idempotency_key outcome
                (outcome_of digest_of is_flagged timeout_s now (run handler action))
                (record d {
                  in_flight = d.in_flight + 1;
                  outcomes = insert action.idempotency_key pending_outcome d.outcomes;
                })
                differs
                (Known-insert key action.idempotency_key outcome pending_outcome d.outcomes differs
                  known))
      ]

  -- A dispatch of the key itself finds the outcome, and one of another key leaves it alone.
  dispatch-kept :
      (key : String) (outcome : ExecutionOutcome) (action : ProposedAction)
      (receipt : EvidenceReceipt) (timeout_s now : ℕ) (d : Dispatcher H)
      → Known key outcome d
      → Known key outcome (dispatch digest_of is_flagged run action receipt timeout_s now d).1
  unfolding dispatch begin reserve
  dispatch-kept key outcome action receipt timeout_s now d known =
      elim (Bool-cases (accepts_receipt receipt d)) [
        | inr unknown ↦ rw unknown known
        | inl accepted ↦ elim (Bool-cases (action.idempotency_key == key)) [
          | inl same ↦
              let named : action.idempotency_key ≡ key =
                (string_eq.beq_iff action.idempotency_key key).0 same in
              let found : lookup action.idempotency_key d.outcomes ≡ some outcome =
                subst (λ k. lookup k d.outcomes ≡ some outcome) (sym named) known in
              rw (accepted, found) known
          | inr differs ↦ rw accepted (
              on_recorded-kept key outcome action timeout_s now d
                (lookup action.idempotency_key d.outcomes) (lookup action.action d.handlers) refl
                differs known)
        ]
      ]

  Later-Known :
      {d e : Dispatcher H} (key : String) (outcome : ExecutionOutcome)
      → Later d e
      → Known key outcome d
      → Known key outcome e
  unfolding register set_receipt_check
  Later-Known key outcome (at_once d) known = known
  Later-Known key outcome (dispatched {e = e} action receipt timeout_s now h) known =
      dispatch-kept key outcome action receipt timeout_s now e (Later-Known key outcome h known)
  Later-Known key outcome (registered action handler h) known = Later-Known key outcome h known
  Later-Known key outcome (check_bound check h) known = Later-Known key outcome h known

  -- A dispatch that returned an outcome other than the sentinel of a run that has not ended, a
  -- failure and a timeout included, is not repeated. After any further dispatches, one at a time, of
  -- this and of other keys, and after changes of the handlers and of the receipt check: a dispatch
  -- under the same idempotency key, with any action, receipt that the dispatcher accepts then,
  -- timeout and moment, returns that outcome and changes nothing, whatever the handlers would do.
  pub dispatch-dispatch :
      (action again : ProposedAction) (receipt other : EvidenceReceipt)
      (timeout_s now longer later : ℕ) (d e : Dispatcher H) (outcome : ExecutionOutcome)
      → (dispatch digest_of is_flagged run action receipt timeout_s now d).0 ≡ ok outcome
      → is_pending outcome ≡ false
      → Later (dispatch digest_of is_flagged run action receipt timeout_s now d).1 e
      → again.idempotency_key ≡ action.idempotency_key
      → accepts_receipt other e ≡ true
      → dispatch digest_of is_flagged run again other longer later e ≡ (ok outcome, e)
  dispatch-dispatch action again receipt other timeout_s now longer later d e outcome h ended since
        same accepted =
      repeated again other longer later e outcome
        (subst (λ k. Known k outcome e) (sym same)
          (Later-Known action.idempotency_key outcome since
            (dispatch-Known action receipt timeout_s now d outcome h)))
        accepted
