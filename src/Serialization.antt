-- ===== src/Serialization.antt =====
-- glassbox/domain/serialization.py: the validation helpers. Numbers are naturals: every number
-- that they guard is non-negative. The type tests of the source have no counterpart here.
pub mod Laws
pub mod Tests
use glassbox_agentic_governa.Prelude.{
  ℕ, zero, suc, String, Bool, true, false, ◌&&◌, ◌||◌, List, [], ◌∷◌, any, all, length, leb,
  nat_beq, not, if◌then◌else◌,
}
use glassbox_agentic_governa.Prelude.Text.{codes, lower}
use glassbox_agentic_governa.Errors.{Result, ok, err, domain_validation, ◌>>=◌, ◌>>◌, require}

abbrev pub max_identifier_length : ℕ
max_identifier_length = 256

abbrev pub sha256_hex_length : ℕ
sha256_hex_length = 64

abbrev pub max_timestamp : ℕ
max_timestamp = 4_102_444_800

-- What `str.strip` removes.
unfoldable pub is_whitespace : ℕ → Bool
is_whitespace c =
    (leb 9 c && leb c 13)
    || (leb 28 c && leb c 32)
    || nat_beq c 133
    || nat_beq c 160
    || nat_beq c 5760
    || (leb 8192 c && leb c 8202)
    || nat_beq c 8232
    || nat_beq c 8233
    || nat_beq c 8239
    || nat_beq c 8287
    || nat_beq c 12288

unfoldable pub is_blank : List ℕ → Bool
is_blank cs = all is_whitespace cs

unfoldable pub require_non_empty : List ℕ → String → Result (List ℕ)
require_non_empty text field = do require (not (is_blank text)) (domain_validation field); ok text

unfoldable pub is_alphanumeric : ℕ → Bool
is_alphanumeric c =
    (leb b'A' c && leb c b'Z') || (leb b'a' c && leb c b'z') || (leb b'0' c && leb c b'9')

-- [A-Za-z0-9._:@/-]
unfoldable pub is_identifier_char : ℕ → Bool
is_identifier_char c =
    is_alphanumeric c
    || nat_beq c b'.'
    || nat_beq c b'_'
    || nat_beq c b':'
    || nat_beq c b'@'
    || nat_beq c b'/'
    || nat_beq c b'-'

-- `[A-Za-z0-9._:@/-]*$`. In Python `$` matches at the end and also before a line feed that ends
-- the text.
unfoldable pub matches_tail : List ℕ → Bool
matches_tail [] = true
matches_tail (c ∷ []) = is_identifier_char c || nat_beq c 10
matches_tail (c ∷ d ∷ cs) = is_identifier_char c && matches_tail (d ∷ cs)

unfoldable pub matches_identifier_pattern : List ℕ → Bool
matches_identifier_pattern [] = false
matches_identifier_pattern (c ∷ cs) = is_alphanumeric c && matches_tail cs

unfoldable pub require_identifier : List ℕ → String → Result (List ℕ)
require_identifier value field = do
  text ← require_non_empty value field
  require (leb (length text) max_identifier_length) (domain_validation field)
  require (matches_identifier_pattern text) (domain_validation field)
  ok text

unfoldable pub require_timestamp : ℕ → String → Result ℕ
require_timestamp value field = do
  require (leb value max_timestamp) (domain_validation field)
  ok value

unfoldable pub is_hex : ℕ → Bool
is_hex c = (leb b'0' c && leb c b'9') || (leb b'a' c && leb c b'f')

unfoldable pub require_sha256_hex : List ℕ → String → Result (List ℕ)
require_sha256_hex value field = do
  text ← require_non_empty value field
  require (nat_beq (length (lower text)) sha256_hex_length && all is_hex (lower text))
      (domain_validation field)
  ok (lower text)
