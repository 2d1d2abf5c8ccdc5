-- ===== src/Serialization/Laws.antt =====
-- glassbox/domain/serialization.py: what the validation helpers accept.
use glassbox_agentic_governa.Prelude.{
  ℕ, zero, suc, ◌≤◌, ◌<◌, ◌≡◌, refl, ap, ◌⊎◌, String, Bool, true, false, ◌&&◌, List, [], ◌∷◌, ◌++◌,
  all, length, leb, not, length-append, leb→le, arith, inl, inr, Bool-cases,
}
use glassbox_agentic_governa.Prelude.Text.{lower, to_lower}
use glassbox_agentic_governa.Errors.{ok}
use glassbox_agentic_governa.Serialization.{
  is_whitespace, is_blank, require_non_empty, is_alphanumeric, is_identifier_char, matches_tail,
  matches_identifier_pattern, require_identifier, require_sha256_hex, is_hex,
}

all-append :
    {A : Type 0} (p : A → Bool) (xs ys : List A) → all p (xs ++ ys) ≡ (all p xs && all p ys)
all-append p [] ys = refl
all-append p (x ∷ xs) ys = ground (arith, all-append p xs ys)

matches_tail-newline :
    (cs : List ℕ) → all is_identifier_char cs ≡ true → matches_tail (cs ++ 10 ∷ []) ≡ true
unfolding matches_tail
matches_tail-newline [] h = ground arith
matches_tail-newline (c ∷ []) h = ground arith
matches_tail-newline (c ∷ d ∷ cs) h = ground (arith, matches_tail-newline (d ∷ cs))

matches_tail-plain : (cs : List ℕ) → all is_identifier_char cs ≡ true → matches_tail cs ≡ true
unfolding matches_tail
matches_tail-plain [] h = refl
matches_tail-plain (c ∷ []) h = ground arith
matches_tail-plain (c ∷ d ∷ cs) h = ground (arith, matches_tail-plain (d ∷ cs))

-- What matches is identifier characters with at most one line feed behind them.
matches_tail-split :
    (cs : List ℕ)
    → matches_tail cs ≡ true
    → (ds : List ℕ) × (all is_identifier_char ds ≡ true) × ((cs ≡ ds) ⊎ (cs ≡ ds ++ 10 ∷ []))
unfolding matches_tail
matches_tail-split [] h = ([], refl, inl refl)
matches_tail-split (c ∷ []) h = elim (Bool-cases (is_identifier_char c)) [
  | inl e ↦ (c ∷ [], ground arith, inl refl)
  | inr e ↦ ([], refl, inr (ground arith))
]
matches_tail-split (c ∷ d ∷ cs) h =
    let (ds, good, shape) = matches_tail-split (d ∷ cs) (ground arith) in
    (
      c ∷ ds,
      ground arith,
      elim shape [ inl e ↦ inl (ap (λ r. c ∷ r) e) | inr e ↦ inr (ap (λ r. c ∷ r) e) ],
    )

abbrev pub IsIdentifier : List ℕ → Type 0
IsIdentifier [] = ⊥
IsIdentifier (c ∷ cs) = (is_alphanumeric c ≡ true) × (all is_identifier_char cs ≡ true)

-- A test of every code point under a bound, which computes.
all_below : (ℕ → Bool) → ℕ → Bool
all_below test zero = true
all_below test (suc bound) = all_below test bound && test bound

all_below_lt :
    (test : ℕ → Bool) (bound c : ℕ) → c < bound → all_below test bound ≡ true → test c ≡ true
unfolding all_below
all_below_lt test zero c below tested = absurd (omega arith)
all_below_lt test (suc bound) c below tested = ground (arith, all_below_lt test bound c)

alphanumeric_table : all_below (λ c. not (is_alphanumeric c && is_whitespace c)) 123 ≡ true
unfolding all_below is_alphanumeric is_whitespace
alphanumeric_table = refl

alphanumeric_below : (c : ℕ) → is_alphanumeric c ≡ true → c < 123
unfolding is_alphanumeric
alphanumeric_below c h = ground arith

alphanumeric_not_blank : (c : ℕ) → is_alphanumeric c ≡ true → is_whitespace c ≡ false
alphanumeric_not_blank c h = ground (
  arith,
  all_below_lt (λ c. not (is_alphanumeric c && is_whitespace c)) 123 c (alphanumeric_below c h)
      alphanumeric_table,
)

module _ (f : String) where
  identifier_accepted :
      (c : ℕ) (cs : List ℕ)
      → is_alphanumeric c ≡ true
      → matches_tail cs ≡ true
      → length (c ∷ cs) ≤ 256
      → require_identifier (c ∷ cs) f ≡ ok (c ∷ cs)
  unfolding require_identifier require_non_empty is_blank matches_identifier_pattern
  identifier_accepted c cs first tail short =
      let short' : leb (suc (length cs)) 256 ≡ true = ground arith in
      rw (alphanumeric_not_blank c first, short', first, tail) refl

  tests_of_ok :
      (cs out : List ℕ)
      → require_identifier cs f ≡ ok out
      → (out ≡ cs) × (leb (length cs) 256 ≡ true) × (matches_identifier_pattern cs ≡ true)
  unfolding require_identifier require_non_empty
  tests_of_ok cs out h = ground arith

  -- Only an identifier of at most 256 characters is accepted, as it stands, except that a line
  -- feed may stand behind it.
  pub require_identifier_sound :
      (cs out : List ℕ)
      → require_identifier cs f ≡ ok out
      → (out ≡ cs)
        × (length cs ≤ 256)
        × ((ds : List ℕ) × IsIdentifier ds × ((cs ≡ ds) ⊎ (cs ≡ ds ++ 10 ∷ [])))
  unfolding matches_identifier_pattern
  require_identifier_sound [] out h = cc (tests_of_ok [] out h).2
  require_identifier_sound (c ∷ cs) out h =
      let (same, short, pattern) = tests_of_ok (c ∷ cs) out h in
      let parts : (is_alphanumeric c ≡ true) × (matches_tail cs ≡ true) = ground arith in
      let (ds, good, shape) = matches_tail-split cs parts.1 in
      (
        same,
        leb→le _ _ short,
        (c ∷ ds, (parts.0, good), elim shape [ inl e ↦ inl (cc) | inr e ↦ inr (cc) ]),
      )

  -- Every identifier of at most 256 characters is accepted as it stands.
  pub require_identifier_complete :
      (cs : List ℕ) → IsIdentifier cs → length cs ≤ 256 → require_identifier cs f ≡ ok cs
  require_identifier_complete [] h l = absurd h
  require_identifier_complete (c ∷ cs) h l =
      identifier_accepted c cs h.0 (matches_tail-plain cs h.1) l

  -- An identifier of at most 255 characters with a line feed behind it is accepted with the line
  -- feed, which is no identifier character.
  pub require_identifier_newline :
      (cs : List ℕ)
      → IsIdentifier cs
      → length cs ≤ 255
      → (require_identifier (cs ++ 10 ∷ []) f ≡ ok (cs ++ 10 ∷ []))
        × (is_identifier_char 10 ≡ false)
  unfolding is_identifier_char is_alphanumeric
  require_identifier_newline [] h l = absurd h
  require_identifier_newline (c ∷ cs) h l = (
    identifier_accepted c (cs ++ 10 ∷ []) h.0 (matches_tail-newline cs h.1)
        (omega (arith, length-append cs (10 ∷ []))),
    refl,
  )

  lower-hex : (cs : List ℕ) → all is_hex (lower cs) ≡ true → lower (lower cs) ≡ lower cs
  unfolding lower to_lower is_hex
  lower-hex [] h = refl
  lower-hex (c ∷ cs) h = ground (arith, lower-hex cs)

  length-lower : (cs : List ℕ) → length (lower cs) ≡ length cs
  unfolding lower
  length-lower [] = refl
  length-lower (c ∷ cs) = ap suc (length-lower cs)

  -- What is accepted as a digest is 64 lower-case hexadecimal characters, and accepting it again
  -- changes nothing: one digest has one accepted form.
  pub require_sha256_hex-canonical :
      (cs out : List ℕ)
      → require_sha256_hex cs f ≡ ok out
      → (out ≡ lower cs) × (length out ≡ 64) × (all is_hex out ≡ true) × (lower out ≡ out)
  unfolding require_sha256_hex require_non_empty
  require_sha256_hex-canonical cs out h = ground (arith, lower-hex cs)
