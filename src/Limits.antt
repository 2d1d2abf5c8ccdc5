-- ===== src/Limits.antt =====
-- glassbox/domain/limits.py: the keys of counters and the verdicts on them.
pub mod Store
pub mod Budget
pub mod Tests
use glassbox_agentic_governa.Prelude.{ℕ, Bool, Option, ltb, leb, not, ◌&&◌}
use Prim.Native.String.{String, ◌++◌ as string_append}
use glassbox_agentic_governa.Mandate.{optional_timestamp}
use glassbox_agentic_governa.Serialization.{require_timestamp}
use glassbox_agentic_governa.Errors.{Result, ok, domain_validation, ◌>>=◌, ◌>>◌, require}

pub data LimitScope : Type 0 where
  agent tenant resource delegating_subject global : LimitScope

abbrev pub scope_value : LimitScope → String
scope_value agent = "agent"
scope_value tenant = "tenant"
scope_value resource = "resource"
scope_value delegating_subject = "delegating_subject"
scope_value global = "global"

pub record LimitKey : Type 0 where
  pub tenant_id : String
  pub scope : LimitScope
  pub subject : String
  pub window_seconds : ℕ
  pub action : String

pub record LimitVerdict : Type 0 where
  pub admitted : Bool
  pub key : LimitKey
  pub limit : ℕ
  pub observed : ℕ
  pub evaluated_at : ℕ
  pub retry_after_s : Option ℕ
  pub cooldown_until : Option ℕ

-- Window.__post_init__
unfoldable pub make_window : ℕ → Result ℕ
make_window seconds = do
  require (leb 1 seconds) (domain_validation "seconds")
  require (leb seconds 31536000) (domain_validation "seconds")
  ok seconds

-- The check of LimitVerdict.__post_init__ that ties its fields; those on each number alone hold of
-- naturals.
unfoldable pub make_verdict : LimitVerdict → Result LimitVerdict
make_verdict v = do
  require_timestamp v.evaluated_at "evaluated_at"
  optional_timestamp v.cooldown_until "cooldown_until"
  require (not (v.admitted && ltb v.limit v.observed)) (domain_validation "observed")
  ok v

-- The texts of numbers are Python's: `decimal` is `str` of an integer, `repr` that of a moment.
module _ (decimal repr : ℕ → String) where
  -- LimitKey.canonical_key
  unfoldable pub canonical_key : LimitKey → String
  canonical_key k = string_append "glassbox|limit|" (
      string_append k.tenant_id (
        string_append "|" (
          string_append (scope_value k.scope) (
            string_append "|" (
              string_append k.subject (
                string_append "|" (
                  string_append k.action
                    (string_append "|" (string_append (decimal k.window_seconds) "s")))))))))

  -- LimitKey.member_for, past its checks.
  unfoldable pub member_for : String → ℕ → String
  member_for decision_id now = string_append (repr now) (string_append ":" decision_id)
