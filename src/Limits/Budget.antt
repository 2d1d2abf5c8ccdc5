-- ===== src/Limits/Budget.antt =====
-- glassbox/adapters/outbound/memory/governance_state.py: the consumption that the limit store admits
-- stays within the ceiling, and a tripped breaker stays tripped for the cooldown.
use glassbox_agentic_governa.Prelude.{
  ℕ, ◌+◌, ◌≤◌, ◌<◌, ◌≡◌, refl, sym, ap, ◌∙◌, String, Bool, true, false, not, ◌&&◌, Option, none,
  some, List, [], ◌∷◌, ◌++◌, if◌then◌else◌, ltb, any, keep, ◌==◌, string_eq, arith, Bool-cases, inl,
  inr,
}
use mathlib.Core.Path.{subst}
use glassbox_agentic_governa.Prelude.Dict.{Dict, lookup, insert, remove, lookup-insert_self}
use glassbox_agentic_governa.Mandate.{optional_timestamp}
use glassbox_agentic_governa.Serialization.{require_timestamp}
use glassbox_agentic_governa.Errors.{
  Result, Result-cases, ok, err, err≢ok, >>=-eq-ok, limit_store_unavailable,
}
use glassbox_agentic_governa.Limits.{
  LimitKey, LimitVerdict, make_verdict, canonical_key, member_for,
}
use glassbox_agentic_governa.Limits.Store.{
  Entry, LimitStore, ceiling_of, entries_of, is_fresh, total_cost, observed_in, move_to_end,
  ensure_window, verdict, admit, consume, heed_cooldown, start_consuming, try_consume, check_member,
}

make_verdict-eq_ok :
    (v u : LimitVerdict)
    → make_verdict v ≡ ok u
    → (u ≡ v) × (v.admitted ≡ true → v.observed ≤ v.limit)
unfolding make_verdict
make_verdict-eq_ok v u h =
    let (_, _, h1) = >>=-eq-ok (require_timestamp v.evaluated_at "evaluated_at") _ h in
    let (_, _, h2) = >>=-eq-ok (optional_timestamp v.cooldown_until "cooldown_until") _ h1 in
    elim (Bool-cases (v.admitted && ltb v.limit v.observed)) [
      | inl above ↦ absurd (err≢ok (rw above at h2))
      | inr within ↦ let same : ok v ≡ ok u = rw within at h2 in (cc, λ admitted. ground arith)
    ]

total_cost-append : (es fs : List Entry) → total_cost (es ++ fs) ≡ total_cost es + total_cost fs
unfolding total_cost
total_cost-append [] fs = omega arith
total_cost-append (e ∷ es) fs = omega (arith, total_cost-append es fs)

keep-append :
    {A : Type 0} (p : A → Bool) (xs ys : List A) → keep p (xs ++ ys) ≡ keep p xs ++ keep p ys
keep-append p [] ys = refl
keep-append p (x ∷ xs) ys = elim (Bool-cases (p x)) [
  | inl kept ↦ rw kept (ap (λ r. x ∷ r) (keep-append p xs ys))
  | inr dropped ↦ rw dropped (keep-append p xs ys)
]

keep-keep : {A : Type 0} (p : A → Bool) (xs : List A) → keep p (keep p xs) ≡ keep p xs
keep-keep p [] = refl
keep-keep p (x ∷ xs) = elim (Bool-cases (p x)) [
  | inl kept ↦ rw (kept, kept) (ap (λ r. x ∷ r) (keep-keep p xs))
  | inr dropped ↦ rw dropped (keep-keep p xs)
]

entries_of-insert :
    (c : String) (es : List Entry) (m : Dict String (List Entry))
    → entries_of c (insert c es m) ≡ es
unfolding entries_of
entries_of-insert c es m = rw (lookup-insert_self c es m, entries_of) refl

observed-insert :
    (c : String) (seconds now : ℕ) (es : List Entry) (s : LimitStore) (cooldowns : Dict String ℕ)
    → observed_in c seconds now
        (record s { windows = insert c es s.windows; cooldowns = cooldowns })
      ≡ total_cost (keep (is_fresh seconds now) es)
unfolding observed_in
observed-insert c seconds now es s cooldowns =
    ap (λ x. total_cost (keep (is_fresh seconds now) x)) (entries_of-insert c es s.windows)

-- A property of both branches, where a rewriting would reach into a record.
if_not : {A : Type 0} (P : A → Type 0) (b : Bool) (x y : A) → P x → P y → P (if not b then x else y)
if_not P true x y px py = py
if_not P false x y px py = px

abbrev Answer : Type 0
Answer = Result LimitVerdict × LimitStore

module _ (decimal repr : ℕ → String) where
  -- What an admission guarantees.
  abbrev pub Within : LimitKey → ℕ → LimitVerdict → LimitStore → Type 0
  Within key now v after =
      (v.observed ≤ v.limit)
      × (v.limit ≡ ceiling_of (canonical_key decimal repr key) after)
      × (observed_in (canonical_key decimal repr key) key.window_seconds now after ≡ v.observed)

  verdict-Within :
      (key : LimitKey) (now observed : ℕ) (s after : LimitStore) (v : LimitVerdict)
      → v ≡ verdict key now true (ceiling_of (canonical_key decimal repr key) s) observed none none
      → observed ≤ ceiling_of (canonical_key decimal repr key) s
      → ceiling_of (canonical_key decimal repr key) s
        ≡ ceiling_of (canonical_key decimal repr key) after
      → observed_in (canonical_key decimal repr key) key.window_seconds now after ≡ observed
      → Within key now v after
  verdict-Within key now observed s after v same le kept sees =
      subst (λ u. Within key now u after) (sym same) (le, kept, sees)

  -- The entry of a new admission counts in its own window.
  fresh_total :
      (key : LimitKey) (now : ℕ) (es : List Entry) (e : Entry)
      → keep (is_fresh key.window_seconds now) es ≡ es
      → is_fresh key.window_seconds now e ≡ true
      → total_cost (keep (is_fresh key.window_seconds now) (es ++ (e ∷ [])))
        ≡ total_cost es + e.cost
  unfolding total_cost
  fresh_total key now es e fresh counts =
      rw
        (
          keep-append (is_fresh key.window_seconds now) es (e ∷ []),
          fresh,
          counts,
          total_cost-append es (e ∷ []),
        )
        (omega arith)

  admit-Within :
      (key : LimitKey) (cost : ℕ) (id : String) (now : ℕ) (es : List Entry) (s : LimitStore)
      (v : LimitVerdict)
      → 1 ≤ key.window_seconds
      → keep (is_fresh key.window_seconds now) es ≡ es
      → (admit decimal repr key cost id now es s).0 ≡ ok v
      → v.admitted ≡ true
      → Within key now v (admit decimal repr key cost id now es s).1
  unfolding admit ceiling_of
  admit-Within key cost id now es s v positive fresh h admitted =
      elim (Bool-cases (any (λ e. e.member == member_for decimal repr id now) es)) [
        | inl repeated ↦
            let (same, within) = make_verdict-eq_ok _ v (rw repeated at h) in
            rw repeated (
              verdict-Within key now (total_cost es) s
                (record s { windows = insert (canonical_key decimal repr key) es s.windows }) v same
                (within refl) refl
                (observed-insert (canonical_key decimal repr key) key.window_seconds now es s
                    s.cooldowns
                  ∙ ap total_cost fresh))
        | inr novel ↦
            elim (Bool-cases
              (ltb (ceiling_of (canonical_key decimal repr key) s) (total_cost es + cost))) [
                | inl over ↦ let (same, _) = make_verdict-eq_ok _ v (rw (novel, over) at h) in cc
                | inr under ↦
                    let e : Entry = record {
                      recorded_at = now;
                      member = member_for decimal repr id now;
                      cost = cost;
                    } in
                    let counts : is_fresh key.window_seconds now e ≡ true = ground arith in
                    let (same, within) = make_verdict-eq_ok _ v (rw (novel, under) at h) in
                    rw (novel, under)
                      (verdict-Within key now (total_cost es + cost) s
                        (record s {
                          windows =
                              insert (canonical_key decimal repr key) (es ++ (e ∷ [])) s.windows;
                        })
                        v same (within refl) refl
                        (observed-insert (canonical_key decimal repr key) key.window_seconds now
                            (es ++ (e ∷ [])) s s.cooldowns
                          ∙ fresh_total key now es e fresh counts))
              ]
      ]

  consume-Within :
      (key : LimitKey) (cost : ℕ) (id : String) (now : ℕ) (s : LimitStore) (v : LimitVerdict)
      → 1 ≤ key.window_seconds
      → (consume decimal repr key cost id now s).0 ≡ ok v
      → v.admitted ≡ true
      → Within key now v (consume decimal repr key cost id now s).1
  unfolding consume
  consume-Within key cost id now s v positive h admitted =
      let c = canonical_key decimal repr key in
      elim (Result-cases (move_to_end c (ensure_window c s))) [
        | inl (e, stops) ↦ absurd (err≢ok (rw stops at h))
        | inr (t, moved) ↦ rw moved (
            admit-Within key cost id now
              (keep (is_fresh key.window_seconds now) (entries_of c t.windows)) t v positive
              (keep-keep (is_fresh key.window_seconds now) (entries_of c t.windows)) (rw moved at h)
              admitted)
      ]

  heed_cooldown-Within :
      (key : LimitKey) (cost : ℕ) (id : String) (now : ℕ) (s : LimitStore) (v : LimitVerdict)
      (o : Option ℕ)
      → 1 ≤ key.window_seconds
      → (heed_cooldown decimal repr key cost id now s o).0 ≡ ok v
      → v.admitted ≡ true
      → Within key now v (heed_cooldown decimal repr key cost id now s o).1
  unfolding heed_cooldown
  heed_cooldown-Within key cost id now s v none positive h admitted =
      consume-Within key cost id now s v positive h admitted
  heed_cooldown-Within key cost id now s v (some until) positive h admitted =
      elim (Bool-cases (ltb now until)) [
        | inl cooling ↦ let (same, _) = make_verdict-eq_ok _ v (rw cooling at h) in cc
        | inr cooled ↦ rw cooled (
            consume-Within key cost id now
              (record s { cooldowns = remove (canonical_key decimal repr key) s.cooldowns }) v
              positive (rw cooled at h) admitted)
      ]

  -- Where the store admits a call, on a window of at least a second, the verdict reports no more
  -- than its limit, the limit is the ceiling that the key has in the store, and what the store then
  -- counts in the key's window at that moment, this call included, is what the verdict reports.
  pub try_consume-Within :
      (key : LimitKey) (cost : ℕ) (id : String) (now : ℕ) (s : LimitStore) (v : LimitVerdict)
      → 1 ≤ key.window_seconds
      → (try_consume decimal repr key cost id now s).0 ≡ ok v
      → v.admitted ≡ true
      → Within key now v (try_consume decimal repr key cost id now s).1
  unfolding try_consume
  try_consume-Within key cost id now s v positive h admitted =
      if_not (λ (t : Answer). t.0 ≡ ok v → Within key now v t.1) s.available
        (err limit_store_unavailable, s)
        (start_consuming decimal repr key cost id now s (check_member decimal repr id now))
        (λ down. absurd (err≢ok down))
        (λ answered. elim (Result-cases (check_member decimal repr id now)) [
          | inl (e, stops) ↦ absurd (err≢ok (rw stops at answered))
          | inr (moment, good) ↦ rw good (
              heed_cooldown-Within key cost id now s v
                (lookup (canonical_key decimal repr key) s.cooldowns) positive (rw good at answered)
                admitted)
        ])
        h

  -- A key that cools down until a later moment is refused at every call before it, whatever the
  -- call costs and whichever decision it is for: where the call is answered, the verdict does not
  -- admit and says until when, and the store is unchanged.
  pub try_consume_cooldown :
      (key : LimitKey) (cost : ℕ) (id : String) (now until : ℕ) (s : LimitStore)
      → lookup (canonical_key decimal repr key) s.cooldowns ≡ some until
      → now < until
      → ((try_consume decimal repr key cost id now s).1 ≡ s)
        × ((v : LimitVerdict)
            → (try_consume decimal repr key cost id now s).0 ≡ ok v
            → (v.admitted ≡ false) × (v.cooldown_until ≡ some until))
  unfolding try_consume heed_cooldown
  try_consume_cooldown key cost id now until s cooling earlier =
      let before : ltb now until ≡ true = ground arith in
      if_not
        (λ (t : Answer).
          (t.1 ≡ s)
          × ((v : LimitVerdict)
              → t.0 ≡ ok v
              → (v.admitted ≡ false) × (v.cooldown_until ≡ some until)))
        s.available (err limit_store_unavailable, s)
        (start_consuming decimal repr key cost id now s (check_member decimal repr id now))
        (refl, λ v down. absurd (err≢ok down))
        (elim (Result-cases (check_member decimal repr id now)) [
          | inl (e, stops) ↦ (rw stops refl, λ v h. absurd (err≢ok (rw stops at h)))
          | inr (moment, good) ↦ (
            rw (good, cooling, before) refl,
            λ v h.
                let (same, _) = make_verdict-eq_ok _ v (rw (good, cooling, before) at h) in
                (ap (λ u. u.admitted) same, ap (λ u. u.cooldown_until) same),
          )
        ])
