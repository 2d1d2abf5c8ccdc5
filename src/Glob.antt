-- ===== src/Glob.antt =====
-- `fnmatch.fnmatchcase` of Python's standard library, which the mandates and the policy rules
-- match names with: `*` any text, `?` any character, `[…]` and `[!…]` a set of characters and
-- ranges, and an unclosed `[` for itself. A pattern is first read into its parts.
pub mod Laws
use glassbox_agentic_governa.Prelude.{
  ℕ, zero, suc, String, Bool, true, false, ◌&&◌, ◌||◌, not, Option, none, some, List, [], ◌∷◌, any,
  leb, nat_beq, length, if◌then◌else◌,
}
use glassbox_agentic_governa.Prelude.Text.{codes}

-- A part of a set: the characters from the first to the second.
abbrev pub CharRange : Type 0
CharRange = ℕ × ℕ

pub data GlobPart : Type 0 where
  star : GlobPart
  question : GlobPart
  literal : ℕ → GlobPart
  char_set : Bool → List CharRange → GlobPart

-- The text between the brackets, as ranges. A `-` between two characters makes a range.
unfoldable pub read_set : List ℕ → List CharRange
read_set [] = []
read_set (a ∷ []) = (a, a) ∷ []
read_set (a ∷ b ∷ []) = (a, a) ∷ (b, b) ∷ []
read_set (a ∷ b ∷ c ∷ cs) =
    let range = (a, c) ∷ read_set cs in
    let single = (a, a) ∷ read_set (b ∷ c ∷ cs) in if nat_beq b b'-' then range else single

-- The text up to the next `]`, and what stands behind that.
unfoldable pub cut_at_bracket : List ℕ → Option (List ℕ × List ℕ)
cut_at_bracket [] = none
cut_at_bracket (c ∷ cs) =
    let further : Option (List ℕ × List ℕ) = elim (cut_at_bracket cs) [
      | none ↦ none
      | some (a, b) ↦ some (c ∷ a, b)
    ] in
    if nat_beq c b']' then some ([], cs) else further

-- A `]` that stands first belongs to the set.
unfoldable pub cut_set : List ℕ → Option (List ℕ × List ℕ)
cut_set [] = none
cut_set (c ∷ cs) =
    if nat_beq c b']'
    then elim (cut_at_bracket cs) [ none ↦ none | some (a, b) ↦ some (c ∷ a, b) ]
    else cut_at_bracket (c ∷ cs)

-- A `!` that stands first negates the set.
unfoldable pub cut_negated : List ℕ → Option (Bool × List ℕ × List ℕ)
cut_negated [] = none
cut_negated (c ∷ cs) =
    if nat_beq c b'!'
    then elim (cut_set cs) [ none ↦ none | some (a, b) ↦ some (true, a, b) ]
    else elim (cut_set (c ∷ cs)) [ none ↦ none | some (a, b) ↦ some (false, a, b) ]

unfoldable pub read_bracket : List ℕ → GlobPart × List ℕ
read_bracket cs = elim (cut_negated cs) [
  | none ↦ (literal b'[', cs)
  | some (negated, inside, rest) ↦ (char_set negated (read_set inside), rest)
]

unfoldable pub read_part : ℕ → List ℕ → GlobPart × List ℕ
read_part c cs =
    if nat_beq c b'*'
    then (star, cs)
    else if nat_beq c b'?'
    then (question, cs)
    else if nat_beq c b'['
    then read_bracket cs
    else (literal c, cs)

-- Each part takes at least one character, so the length of the pattern is fuel enough.
unfoldable pub read_pattern : ℕ → List ℕ → List GlobPart
read_pattern fuel [] = []
read_pattern zero (c ∷ cs) = []
read_pattern (suc fuel) (c ∷ cs) =
    let (part, rest) = read_part c cs in part ∷ read_pattern fuel rest

unfoldable pub in_set : Bool → List CharRange → ℕ → Bool
in_set negated ranges c =
    let found = any (λ r. leb r.0 c && leb c r.1) ranges in if negated then not found else found

unfoldable pub matches_parts : List GlobPart → List ℕ → Bool
matches_parts [] [] = true
matches_parts [] (c ∷ cs) = false
matches_parts (star ∷ ps) [] = matches_parts ps []
matches_parts (star ∷ ps) (c ∷ cs) =
    let skip = matches_parts (star ∷ ps) cs in
    elim (matches_parts ps (c ∷ cs)) [ true ↦ true | false ↦ skip ]
matches_parts (question ∷ ps) [] = false
matches_parts (question ∷ ps) (c ∷ cs) = matches_parts ps cs
matches_parts (literal d ∷ ps) [] = false
matches_parts (literal d ∷ ps) (c ∷ cs) = nat_beq d c && matches_parts ps cs
matches_parts (char_set n s ∷ ps) [] = false
matches_parts (char_set n s ∷ ps) (c ∷ cs) = in_set n s c && matches_parts ps cs

-- `fnmatch.fnmatchcase(name, pat)`
unfoldable pub fnmatchcase : String → String → Bool
fnmatchcase name pat = matches_parts (read_pattern (length (codes pat)) (codes pat)) (codes name)
