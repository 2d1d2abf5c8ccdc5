-- ===== src/Dispatch/Interleaving.antt =====
-- glassbox/adapters/outbound/memory/dispatch.py: concurrent dispatches, as sequences of the critical
-- sections of any number of calls.
use glassbox_agentic_governa.Prelude.{
  ℕ, ◌+◌, ◌-◌, ◌≤◌, ◌≡◌, ◌≢◌, refl, sym, ◌∙◌, String, Bool, true, false, Option, none, some, List,
  [], ◌∷◌, ◌++◌, length, if◌then◌else◌, leb, ◌==◌, string_eq, All, All-map, arith, Bool-cases, inl,
  inr,
}
use mathlib.Core.Path.{subst}
use glassbox_agentic_governa.Prelude.Dict.{lookup, insert, lookup-insert}
use glassbox_agentic_governa.Errors.{Result, ok, err}
use glassbox_agentic_governa.Action.{ProposedAction}
use glassbox_agentic_governa.Decision.{ExecutionOutcome}
use glassbox_agentic_governa.Evidence.{EvidenceReceipt}
use glassbox_agentic_governa.Dispatch.{
  Dispatcher, Begun, refused, recorded, admitted, accepts_receipt, on_recorded, reserve, release,
  store, register, set_receipt_check, pending_outcome,
}

-- A call whose receipt was accepted, with the dispatcher as it was at that check.
pub record Accepted (H : Type 0) : Type 0 where
  pub action : ProposedAction
  pub receipt : EvidenceReceipt
  pub at_check : Dispatcher H

-- The dispatcher; the calls that have passed the check and not yet reserved their key; the keys
-- whose handler was submitted and that hold a place in flight; the outcomes that are not stored yet,
-- after the place was released; and all calls whose handler was submitted, the last one first.
pub record Pool (H : Type 0) : Type 0 where
  pub dispatcher : Dispatcher H
  pub waiting : List (Accepted H)
  pub running : List String
  pub ended : List (String × ExecutionOutcome)
  pub started : List (Accepted H)

-- No key twice.
abbrev pub Once : {H : Type 0} → List (Accepted H) → Type 0
Once [] = Unit
Once (e ∷ es) = All (λ f. f.action.idempotency_key ≢ e.action.idempotency_key) es × Once es

abbrev pub drop_first : String → List String → List String
drop_first key [] = []
drop_first key (k ∷ ks) = let rest = drop_first key ks in if k == key then ks else k ∷ rest

abbrev pub runs : String → List String → Bool
runs key [] = false
runs key (k ∷ ks) = let rest = runs key ks in if k == key then true else rest

runs_positive : (key : String) (ks : List String) → runs key ks ≡ true → 1 ≤ length ks
runs_positive key [] h = absurd (cc)
runs_positive key (k ∷ ks) h = omega arith

length-drop_first :
    (key : String) (ks : List String)
    → runs key ks ≡ true
    → length (drop_first key ks) ≡ length ks - 1
length-drop_first key [] h = absurd (cc)
length-drop_first key (k ∷ ks) h = elim (Bool-cases (k == key)) [
  | inl same ↦ rw same (omega arith)
  | inr other ↦
      let there : runs key ks ≡ true = rw other at h in
      let shorter = length-drop_first key ks there in
      let full = runs_positive key ks there in rw other (omega arith)
]

All-remove :
    {A : Type 0} (P : A → Type 0) (xs : List A) (x : A) (ys : List A)
    → All P (xs ++ (x ∷ ys))
    → P x × All P (xs ++ ys)
All-remove P [] x ys (h, hs) = (h, hs)
All-remove P (y ∷ xs) x ys (h, hs) = let (here, rest) = All-remove P xs x ys hs in (here, (h, rest))

-- An outcome that cannot be built ends the call.
abbrev pub unstored :
    String
    → Result ExecutionOutcome
    → List (String × ExecutionOutcome)
    → List (String × ExecutionOutcome)
unstored key (err e) ended = ended
unstored key (ok outcome) ended = (key, outcome) ∷ ended

module _ {H : Type 0} where
  abbrev pub key_of : Accepted H → String
  key_of x = x.action.idempotency_key

  abbrev pub after_reserve : Accepted H → Pool H → Begun H × Dispatcher H → Pool H
  after_reserve x p (refused e, d) = record p { dispatcher = d }
  after_reserve x p (recorded o, d) = record p { dispatcher = d }
  after_reserve x p (admitted handler, d) = record p {
    dispatcher = d;
    running = key_of x ∷ p.running;
    started = x ∷ p.started;
  }

  -- The steps of calls: the check of the receipt, the three sections under the lock, and the two
  -- methods that bind a handler and a receipt check.
  pub data Reachable : Pool H → Type 0 where
    opened :
        (d : Dispatcher H)
        → d.outcomes ≡ []
        → d.in_flight ≡ 0
        → Reachable
            (record { dispatcher = d; waiting = []; running = []; ended = []; started = [] })
    receipt_checked :
        {p : Pool H} (action : ProposedAction) (receipt : EvidenceReceipt)
        → Reachable p
        → accepts_receipt receipt p.dispatcher ≡ true
        → Reachable (record p {
          waiting =
              record { action = action; receipt = receipt; at_check = p.dispatcher } ∷ p.waiting;
        })
    reserved :
        {p : Pool H} (x : Accepted H) (before after : List (Accepted H))
        → Reachable p
        → p.waiting ≡ before ++ (x ∷ after)
        → Reachable (
            after_reserve x
              (record p { waiting = before ++ after })
              (reserve x.action p.dispatcher))
    released :
        {p : Pool H} (key : String) (result : Result ExecutionOutcome)
        → Reachable p
        → runs key p.running ≡ true
        → Reachable (record p {
          dispatcher = release p.dispatcher;
          running = drop_first key p.running;
          ended = unstored key result p.ended;
        })
    stored :
        {p : Pool H} (key : String) (outcome : ExecutionOutcome)
        (before after : List (String × ExecutionOutcome))
        → Reachable p
        → p.ended ≡ before ++ ((key, outcome) ∷ after)
        → Reachable
            (record p { dispatcher = store key outcome p.dispatcher; ended = before ++ after })
    registered :
        {p : Pool H} (action : String) (handler : H)
        → Reachable p
        → Reachable (record p { dispatcher = register action handler p.dispatcher })
    check_bound :
        {p : Pool H} (check : EvidenceReceipt → Bool)
        → Reachable p
        → Reachable (record p { dispatcher = set_receipt_check check p.dispatcher })

  abbrev HasOutcome : Dispatcher H → String → Type 0
  HasOutcome d key = (o : ExecutionOutcome) × (lookup key d.outcomes ≡ some o)

  abbrev pub IsAccepted : Accepted H → Type 0
  IsAccepted x = accepts_receipt x.receipt x.at_check ≡ true

  abbrev pub IsPool : Pool H → Type 0
  IsPool p =
      (p.dispatcher.in_flight ≡ length p.running)
      × (length p.running ≤ p.dispatcher.max_in_flight)
      × All (λ x. HasOutcome p.dispatcher (key_of x)) p.started
      × Once p.started
      × All IsAccepted p.started
      × All IsAccepted p.waiting

  HasOutcome-insert :
      (d : Dispatcher H) (key other : String) (o : ExecutionOutcome) (n : ℕ)
      → HasOutcome d other
      → HasOutcome (record d { in_flight = n; outcomes = insert key o d.outcomes }) other
  HasOutcome-insert d key other o n (before, found) = elim (Bool-cases (key == other)) [
    | inl same ↦ (o, lookup-insert key other o d.outcomes ∙ rw same refl)
    | inr differs ↦ (before, lookup-insert key other o d.outcomes ∙ rw differs found)
  ]

  -- The handler of a key is submitted for the first time.
  admitted-IsPool :
      (p : Pool H) (x : Accepted H) (handler : H)
      → IsAccepted x
      → lookup (key_of x) p.dispatcher.outcomes ≡ none
      → leb p.dispatcher.max_in_flight p.dispatcher.in_flight ≡ false
      → IsPool p
      → IsPool (
          after_reserve x p (
            admitted handler,
            record p.dispatcher {
              in_flight = p.dispatcher.in_flight + 1;
              outcomes = insert (key_of x) pending_outcome p.dispatcher.outcomes;
            },
          ))
  unfolding accepts_receipt
  admitted-IsPool p x handler accepted new room (count, bound, known, once, checked, waiting) =
      let d = p.dispatcher in
      let key = key_of x in
      (
        omega arith,
        ground arith,
        (
          (
            pending_outcome,
            lookup-insert key key pending_outcome d.outcomes
                ∙ rw ((string_eq.beq_iff key key).1 refl) refl,
          ),
          All-map (λ e. HasOutcome d (key_of e))
              (λ e.
                HasOutcome
                  (record d {
                    in_flight = d.in_flight + 1;
                    outcomes = insert key pending_outcome d.outcomes;
                  })
                  (key_of e))
              (λ e h. HasOutcome-insert d key (key_of e) pending_outcome (d.in_flight + 1) h)
              p.started known,
        ),
        (
          All-map (λ e. HasOutcome d (key_of e)) (λ e. key_of e ≢ key)
              (λ e h same.
                let absent : lookup (key_of e) d.outcomes ≡ none =
                  subst (λ k. lookup k d.outcomes ≡ none) (sym same) new in
                let present = h.1 in let o = h.0 in cc)
              p.started known,
          once,
        ),
        (accepted, checked),
        waiting,
      )

  reserve-IsPool :
      (p : Pool H) (x : Accepted H) (known : Option ExecutionOutcome) (handler : Option H)
      → IsAccepted x
      → lookup (key_of x) p.dispatcher.outcomes ≡ known
      → lookup x.action.action p.dispatcher.handlers ≡ handler
      → IsPool p
      → IsPool (after_reserve x p (on_recorded x.action p.dispatcher known))
  reserve-IsPool p x (some o) handler accepted found handled h = h
  reserve-IsPool p x none none accepted new handled h = rw handled h
  reserve-IsPool p x none (some handler) accepted new handled h =
      elim (Bool-cases (leb p.dispatcher.max_in_flight p.dispatcher.in_flight)) [
        | inl full ↦ rw (handled, full) h
        | inr room ↦ rw (handled, room) (admitted-IsPool p x handler accepted new room h)
      ]

  release-IsPool :
      (p : Pool H) (key : String) (result : Result ExecutionOutcome)
      → runs key p.running ≡ true
      → IsPool p
      → IsPool (record p {
        dispatcher = release p.dispatcher;
        running = drop_first key p.running;
        ended = unstored key result p.ended;
      })
  unfolding release
  release-IsPool p key result there (count, bound, known, once, checked, waiting) =
      let shorter = length-drop_first key p.running there in
      (omega arith, omega arith, known, once, checked, waiting)

  store-IsPool :
      (p : Pool H) (key : String) (o : ExecutionOutcome) (ended : List (String × ExecutionOutcome))
      → IsPool p
      → IsPool (record p { dispatcher = store key o p.dispatcher; ended = ended })
  unfolding store
  store-IsPool p key o ended (count, bound, known, once, checked, waiting) = (
    count,
    bound,
    All-map (λ e. HasOutcome p.dispatcher (key_of e))
        (λ e.
          HasOutcome (record p.dispatcher { outcomes = insert key o p.dispatcher.outcomes })
            (key_of e))
        (λ e h. HasOutcome-insert p.dispatcher key (key_of e) o p.dispatcher.in_flight h) p.started
        known,
    once,
    checked,
    waiting,
  )

  -- Over every interleaving of dispatches, of any number of callers and with handlers that return,
  -- raise or time out, section by section, and of changes of the handlers and of the receipt check:
  -- no idempotency key has its handler submitted twice; every handler was submitted with a receipt
  -- that the dispatcher, as it was when that call checked it, accepts; and as many calls hold a
  -- place in flight as the counter says, which is at most the bound.
  pub Reachable-IsPool : {p : Pool H} → Reachable p → IsPool p
  unfolding register set_receipt_check reserve
  Reachable-IsPool (opened d empty idle) = (omega arith, omega arith, tt, tt, tt, tt)
  Reachable-IsPool (receipt_checked {p = p} action receipt h accepted) =
      let (count, bound, known, once, started, waiting) = Reachable-IsPool h in
      (count, bound, known, once, started, (accepted, waiting))
  Reachable-IsPool (reserved {p = p} x before after h split) =
      let (count, bound, known, once, started, waiting) = Reachable-IsPool h in
      let (accepted, others) = All-remove IsAccepted before x after (rw split at waiting) in
      reserve-IsPool (record p { waiting = before ++ after }) x
        (lookup (key_of x) p.dispatcher.outcomes) (lookup x.action.action p.dispatcher.handlers)
        accepted refl refl (count, bound, known, once, started, others)
  Reachable-IsPool (released {p = p} key result h there) =
      release-IsPool p key result there (Reachable-IsPool h)
  Reachable-IsPool (stored {p = p} key o before after h split) =
      store-IsPool p key o (before ++ after) (Reachable-IsPool h)
  Reachable-IsPool (registered {p = p} action handler h) = Reachable-IsPool h
  Reachable-IsPool (check_bound {p = p} check h) = Reachable-IsPool h
