-- ===== src/Serialization/Tests.antt =====
-- glassbox/domain/serialization.py at concrete inputs.
use glassbox_agentic_governa.Prelude.{
  ℕ, ◌≡◌, ◌≤◌, refl, false, List, [], ◌∷◌, ◌++◌, ◌⊎◌, length, arith,
}
use glassbox_agentic_governa.Prelude.Text.{codes, lower, to_lower}
use glassbox_agentic_governa.Errors.{ok}
use glassbox_agentic_governa.Serialization.{
  require_identifier, is_identifier_char, is_alphanumeric, require_sha256_hex, is_hex,
  require_non_empty, is_blank, is_whitespace,
}
use glassbox_agentic_governa.Serialization.Laws.{
  IsIdentifier, require_identifier_sound, require_identifier_complete, require_identifier_newline,
}

agent_IsIdentifier : IsIdentifier (codes "agent-7")
unfolding is_identifier_char is_alphanumeric
agent_IsIdentifier = (refl, refl)

agent_accepted : require_identifier (codes "agent-7") "agent_ref" ≡ ok (codes "agent-7")
agent_accepted =
    require_identifier_complete "agent_ref" (codes "agent-7") agent_IsIdentifier (omega arith)

require_identifier_sound_example :
    (codes "agent-7" ≡ codes "agent-7")
    × (length (codes "agent-7") ≤ 256)
    × ((ds : List ℕ) × IsIdentifier ds
        × ((codes "agent-7" ≡ ds) ⊎ (codes "agent-7" ≡ ds ++ 10 ∷ [])))
require_identifier_sound_example =
    require_identifier_sound "agent_ref" (codes "agent-7") (codes "agent-7") agent_accepted

require_identifier_newline_example :
    (require_identifier (codes "agent-7" ++ 10 ∷ []) "agent_ref" ≡ ok (codes "agent-7" ++ 10 ∷ []))
    × (is_identifier_char 10 ≡ false)
require_identifier_newline_example =
    require_identifier_newline "agent_ref" (codes "agent-7") agent_IsIdentifier (omega arith)

abbrev pub zero_digest : List ℕ
zero_digest = codes "0000000000000000000000000000000000000000000000000000000000000000"

zero_digest_accepted : require_sha256_hex zero_digest "digest" ≡ ok zero_digest
unfolding require_sha256_hex require_non_empty is_blank is_whitespace is_hex lower to_lower
zero_digest_accepted = refl
