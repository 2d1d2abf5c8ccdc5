-- ===== src/Limits/Tests.antt =====
-- glassbox/adapters/outbound/memory/governance_state.py at concrete inputs: a store that admits two
-- units a minute.
use glassbox_agentic_governa.Prelude.{
  ℕ, ◌≡◌, refl, String, true, false, none, some, [], ◌∷◌, string_eq, arith,
}
use glassbox_agentic_governa.Prelude.Dict.{lookup, insert, remove}
use glassbox_agentic_governa.Errors.{ok}
use glassbox_agentic_governa.Serialization.{
  require_non_empty, require_identifier, is_whitespace, is_blank, matches_identifier_pattern,
  matches_tail, is_identifier_char, is_alphanumeric, require_timestamp,
}
use glassbox_agentic_governa.Mandate.{optional_timestamp}
use glassbox_agentic_governa.Limits.{
  LimitKey, LimitVerdict, LimitScope, make_verdict, canonical_key, member_for,
}
use glassbox_agentic_governa.Limits.Store.{
  LimitStore, verdict, try_consume, check_member, heed_cooldown, consume, ensure_window,
  evict_if_needed, evict, move_to_end, admit, entries_of, total_cost, ceiling_of,
}
use glassbox_agentic_governa.Limits.Budget.{Within, try_consume-Within, try_consume_cooldown}

abbrev per_minute : LimitKey
per_minute = record {
  tenant_id = "t1";
  scope = LimitScope.agent;
  subject = "agent-7";
  window_seconds = 60;
  action = "*";
}

abbrev text_of : ℕ → String
text_of n = "60"

abbrev fresh_store : LimitStore
fresh_store = record {
  windows = [];
  cooldowns = [];
  limits = [];
  default_limit = 2;
  cooldown_seconds = 300;
  max_subjects = 10;
  available = true;
}

abbrev admitted_once : LimitVerdict
admitted_once = verdict per_minute 100 true 2 1 none none

first_admitted :
    (try_consume text_of text_of per_minute 1 "d1" 100 fresh_store).0 ≡ ok admitted_once
unfolding try_consume check_member require_identifier require_non_empty is_blank is_whitespace
    matches_identifier_pattern matches_tail is_identifier_char is_alphanumeric require_timestamp
    heed_cooldown consume ensure_window evict_if_needed evict move_to_end admit entries_of
    total_cost ceiling_of lookup insert remove make_verdict optional_timestamp canonical_key
    member_for
first_admitted = refl

try_consume-Within_example :
    Within text_of text_of per_minute 100 admitted_once
      (try_consume text_of text_of per_minute 1 "d1" 100 fresh_store).1
try_consume-Within_example =
    try_consume-Within text_of text_of per_minute 1 "d1" 100 fresh_store admitted_once (omega arith)
      first_admitted refl

abbrev tripped_store : LimitStore
tripped_store = record fresh_store {
  cooldowns = ("glassbox|limit|t1|agent|agent-7|*|60s", 400) ∷ [];
}

tripped : lookup (canonical_key text_of text_of per_minute) tripped_store.cooldowns ≡ some 400
unfolding lookup canonical_key
tripped = refl

try_consume_cooldown_example :
    ((try_consume text_of text_of per_minute 1 "d1" 100 tripped_store).1 ≡ tripped_store)
    × ((v : LimitVerdict)
        → (try_consume text_of text_of per_minute 1 "d1" 100 tripped_store).0 ≡ ok v
        → (v.admitted ≡ false) × (v.cooldown_until ≡ some 400))
try_consume_cooldown_example =
    try_consume_cooldown text_of text_of per_minute 1 "d1" 100 400 tripped_store tripped
      (omega arith)
