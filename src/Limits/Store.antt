-- ===== src/Limits/Store.antt =====
-- glassbox/adapters/outbound/memory/governance_state.py: InMemoryLimitStore, the sliding-window
-- counters with their cooldown. Each method runs under the store's lock and is one function on the
-- store. `key_error` is Python's KeyError.
use glassbox_agentic_governa.Prelude.{
  ℕ, ◌+◌, ◌-◌, String, Bool, true, false, not, Option, none, some, List, [], ◌∷◌, ◌++◌,
  if◌then◌else◌, ltb, any, keep, length, ◌==◌, string_eq, reverse,
}
use Prim.Native.String.{◌++◌ as string_append}
use glassbox_agentic_governa.Prelude.Text.{codes, starts_with}
use glassbox_agentic_governa.Prelude.Dict.{Dict, lookup, insert, remove}
use glassbox_agentic_governa.Errors.{Result, ok, err, limit_store_unavailable, key_error, ◌>>◌}
use glassbox_agentic_governa.Serialization.{require_identifier, require_timestamp}
use glassbox_agentic_governa.Limits.{
  LimitKey, LimitVerdict, make_verdict, canonical_key, member_for,
}

pub record Entry : Type 0 where
  pub recorded_at : ℕ
  pub member : String
  pub cost : ℕ

pub record LimitStore : Type 0 where
  pub windows : Dict String (List Entry)
  pub cooldowns : Dict String ℕ
  pub limits : Dict String ℕ
  pub default_limit : ℕ
  pub cooldown_seconds : ℕ
  pub max_subjects : ℕ
  pub available : Bool

-- `self._limits.get(canonical, self._default_limit)` and the entries of a window, or none.
unfoldable pub ceiling_of : String → LimitStore → ℕ
ceiling_of canonical s = elim (lookup canonical s.limits) [ none ↦ s.default_limit | some n ↦ n ]

unfoldable pub entries_of : String → Dict String (List Entry) → List Entry
entries_of canonical windows = elim (lookup canonical windows) [ none ↦ [] | some es ↦ es ]

-- `entry[0] > now - window`, in naturals.
abbrev pub is_fresh : ℕ → ℕ → Entry → Bool
is_fresh seconds now e = ltb now (e.recorded_at + seconds)

unfoldable pub total_cost : List Entry → ℕ
total_cost [] = 0
total_cost (e ∷ es) = e.cost + total_cost es

-- _observed
unfoldable pub observed_in : String → ℕ → ℕ → LimitStore → ℕ
observed_in canonical seconds now s =
    total_cost (keep (is_fresh seconds now) (entries_of canonical s.windows))

-- _evict_if_needed: the oldest windows go, with their cooldowns.
unfoldable pub evict :
    ℕ → Dict String (List Entry) → Dict String ℕ → Dict String (List Entry) × Dict String ℕ
evict bound [] cooldowns = ([], cooldowns)
evict bound ((oldest, es) ∷ rest) cooldowns =
    let evicted = evict bound rest (remove oldest cooldowns) in
    if ltb bound (length ((oldest, es) ∷ rest)) then evicted else ((oldest, es) ∷ rest, cooldowns)

unfoldable pub evict_if_needed : LimitStore → LimitStore
evict_if_needed s =
    let (windows, cooldowns) = evict s.max_subjects s.windows s.cooldowns in
    record s { windows = windows; cooldowns = cooldowns }

-- A window that is not there is created, which may evict others.
unfoldable pub ensure_window : String → LimitStore → LimitStore
ensure_window canonical s = elim (lookup canonical s.windows) [
  | none ↦ evict_if_needed (record s { windows = insert canonical [] s.windows })
  | some es ↦ s
]

-- OrderedDict.move_to_end
unfoldable pub move_to_end : String → LimitStore → Result LimitStore
move_to_end canonical s = elim (lookup canonical s.windows) [
  | none ↦ err key_error
  | some es ↦ ok (record s { windows = remove canonical s.windows ++ ((canonical, es) ∷ []) })
]

abbrev pub verdict : LimitKey → ℕ → Bool → ℕ → ℕ → Option ℕ → Option ℕ → LimitVerdict
verdict key now admitted limit observed retry until = record {
  admitted = admitted;
  key = key;
  limit = limit;
  observed = observed;
  evaluated_at = now;
  retry_after_s = retry;
  cooldown_until = until;
}

module _ (decimal repr : ℕ → String) where
  -- The decision on a window whose stale entries are gone.
  unfoldable pub admit :
      LimitKey → ℕ → String → ℕ → List Entry → LimitStore → Result LimitVerdict × LimitStore
  admit key cost decision_id now entries s =
      let canonical = canonical_key decimal repr key in
      let member = member_for decimal repr decision_id now in
      let ceiling = ceiling_of canonical s in
      let observed = total_cost entries in
      if any (λ e. e.member == member) entries
      then (
        make_verdict (verdict key now true ceiling observed none none),
        record s { windows = insert canonical entries s.windows },
      )
      else if ltb ceiling (observed + cost)
      then (
        make_verdict (
            verdict key now false ceiling (observed + cost) (some s.cooldown_seconds)
              (some (now + s.cooldown_seconds))),
        record s {
          windows = insert canonical entries s.windows;
          cooldowns = insert canonical (now + s.cooldown_seconds) s.cooldowns;
        },
      )
      else (
        make_verdict (verdict key now true ceiling (observed + cost) none none),
        record s {
          windows =
              insert canonical
                (entries ++ (record { recorded_at = now; member = member; cost = cost } ∷ []))
                s.windows;
        },
      )

  abbrev pub consume_in :
      LimitKey → ℕ → String → ℕ → LimitStore → Result LimitStore → Result LimitVerdict × LimitStore
  consume_in key cost decision_id now ensured (err e) = (err e, ensured)
  consume_in key cost decision_id now ensured (ok s) =
      admit key cost decision_id now
        (keep (is_fresh key.window_seconds now)
          (entries_of (canonical_key decimal repr key) s.windows))
        s

  -- Past the cooldown.
  unfoldable pub consume : LimitKey → ℕ → String → ℕ → LimitStore → Result LimitVerdict × LimitStore
  consume key cost decision_id now s =
      let canonical = canonical_key decimal repr key in
      let ensured = ensure_window canonical s in
      consume_in key cost decision_id now ensured (move_to_end canonical ensured)

  abbrev pub refuse_until : LimitKey → ℕ → ℕ → LimitStore → Result LimitVerdict
  refuse_until key now until s =
      let canonical = canonical_key decimal repr key in
      make_verdict (
        verdict key now false (ceiling_of canonical s)
          (observed_in canonical key.window_seconds now s) (some (until - now)) (some until))

  unfoldable pub heed_cooldown :
      LimitKey → ℕ → String → ℕ → LimitStore → Option ℕ → Result LimitVerdict × LimitStore
  heed_cooldown key cost decision_id now s none = consume key cost decision_id now s
  heed_cooldown key cost decision_id now s (some until) =
      if ltb now until
      then (refuse_until key now until s, s)
      else consume key cost decision_id now
          (record s { cooldowns = remove (canonical_key decimal repr key) s.cooldowns })

  -- The checks of LimitKey.member_for.
  unfoldable pub check_member : String → ℕ → Result ℕ
  check_member decision_id now = do
    require_identifier (codes decision_id) "decision_id"
    require_timestamp now "now"

  abbrev pub start_consuming :
      LimitKey → ℕ → String → ℕ → LimitStore → Result ℕ → Result LimitVerdict × LimitStore
  start_consuming key cost decision_id now s (err e) = (err e, s)
  start_consuming key cost decision_id now s (ok moment) =
      heed_cooldown key cost decision_id now s (lookup (canonical_key decimal repr key) s.cooldowns)

  -- try_consume
  unfoldable pub try_consume :
      LimitKey → ℕ → String → ℕ → LimitStore → Result LimitVerdict × LimitStore
  try_consume key cost decision_id now s =
      if not s.available
      then (err limit_store_unavailable, s)
      else start_consuming key cost decision_id now s (check_member decision_id now)

  -- cumulative, of a key's own window.
  unfoldable pub cumulative : LimitKey → ℕ → LimitStore → Result ℕ
  cumulative key now s =
      if not s.available
      then err limit_store_unavailable
      else ok (observed_in (canonical_key decimal repr key) key.window_seconds now s)

  -- `entry[1].endswith(":" + decision_id)`
  unfoldable pub is_of : String → Entry → Bool
  is_of decision_id e =
      starts_with (reverse (codes (string_append ":" decision_id))) (reverse (codes e.member))

  -- release
  unfoldable pub release : LimitKey → String → LimitStore → Result (Unit {0}) × LimitStore
  release key decision_id s =
      let canonical = canonical_key decimal repr key in
      if not s.available
      then (err limit_store_unavailable, s)
      else elim (entries_of canonical s.windows) [
        | [] ↦ (ok tt, s)
        | e ∷ es ↦ (
          ok tt,
          record s {
            windows = insert canonical (keep (λ x. not (is_of decision_id x)) (e ∷ es)) s.windows;
          },
        )
      ]
