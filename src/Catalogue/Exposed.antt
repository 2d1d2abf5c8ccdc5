-- ===== src/Catalogue/Exposed.antt =====
-- glassbox/domain/catalogue.py with glassbox/domain/action.py: an amount that the parameters do not
-- give is not taken for a small one.
use glassbox_agentic_governa.Prelude.{
  ℕ, ◌≡◌, ◌≢◌, refl, String, Bool, true, false, Option, none, some, ltb, if◌then◌else◌, string_eq,
  inl, inr, ◌⊎◌,
}
use glassbox_agentic_governa.Prelude.Dict.{lookup}
use glassbox_agentic_governa.Action.{
  Exposure, Parameters, Value, null, flag, number, float, text, items, blast_severity, breaches,
  exceeds,
}
use glassbox_agentic_governa.Catalogue.{
  ExposureRule, number_in, numeric_field, integer_in, integer_field, extract,
}

-- Under the field that a rule names, if it names one, the parameters have no number, integer or
-- float; or no integer.
abbrev pub NotGiven : Parameters → Option String → Type 0
NotGiven parameters field =
    (name : String) (n : ℕ)
    → field ≡ some name
    → (lookup name parameters ≢ some (number n)) × (lookup name parameters ≢ some (float n))

abbrev pub NoInteger : Parameters → Option String → Type 0
NoInteger parameters field =
    (name : String) (n : ℕ) → field ≡ some name → lookup name parameters ≢ some (number n)

number_in_absent :
    (value : Option Value)
    → ((n : ℕ) → (value ≢ some (number n)) × (value ≢ some (float n)))
    → number_in value ≡ none
number_in_absent none h = refl
number_in_absent (some null) h = refl
number_in_absent (some (flag b)) h = refl
number_in_absent (some (number n)) h = absurd ((h n).0 refl)
number_in_absent (some (float n)) h = absurd ((h n).1 refl)
number_in_absent (some (text s)) h = refl
number_in_absent (some (items vs)) h = refl

integer_in_absent :
    (value : Option Value) → ((n : ℕ) → value ≢ some (number n)) → integer_in value ≡ none
integer_in_absent none h = refl
integer_in_absent (some null) h = refl
integer_in_absent (some (flag b)) h = refl
integer_in_absent (some (number n)) h = absurd (h n refl)
integer_in_absent (some (float n)) h = refl
integer_in_absent (some (text s)) h = refl
integer_in_absent (some (items vs)) h = refl

numeric_field_absent :
    (parameters : Parameters) (field : Option String)
    → NotGiven parameters field
    → numeric_field parameters field ≡ none
unfolding numeric_field
numeric_field_absent parameters none h = refl
numeric_field_absent parameters (some name) h =
    number_in_absent (lookup name parameters) (λ n. h name n refl)

integer_field_absent :
    (parameters : Parameters) (field : Option String)
    → NoInteger parameters field
    → integer_field parameters field ≡ none
unfolding integer_field
integer_field_absent parameters none h = refl
integer_field_absent parameters (some name) h =
    integer_in_absent (lookup name parameters) (λ n. h name n refl)

breaches_unknown :
    (amount ceiling : Option ℕ) (bound : ℕ)
    → amount ≡ none
    → ceiling ≡ some bound
    → breaches amount ceiling ≡ true
unfolding breaches
breaches_unknown none (some c) bound h k = refl
breaches_unknown (some a) ceiling bound h k = absurd (cc)
breaches_unknown none none bound h k = absurd (cc)

any_breach :
    (wide money count : Bool)
    → (money ≡ true) ⊎ (count ≡ true)
    → (if wide then true else if money then true else if count then true else false) ≡ true
any_breach true money count h = refl
any_breach false true count h = refl
any_breach false false true h = refl
any_breach false false false (inl h) = h
any_breach false false false (inr h) = h

-- The exposure that a rule reads from parameters fails closed: where the amount is not given as a
-- number, or the number of records not as an integer, under the field that the rule names, or the
-- rule names no field, it exceeds every ceiling that bounds it.
pub extract-exceeds :
    (r : ExposureRule) (parameters : Parameters) (ceiling : Exposure) (bound : ℕ)
    → (NotGiven parameters r.monetary_field × (ceiling.monetary ≡ some bound))
      ⊎ (NoInteger parameters r.records_field × (ceiling.records ≡ some bound))
    → exceeds (extract r parameters) ceiling ≡ true
unfolding exceeds extract
extract-exceeds r parameters ceiling bound (inl (absent, bounded)) =
    any_breach (ltb (blast_severity ceiling.blast_radius) (blast_severity r.blast_radius))
      (breaches (numeric_field parameters r.monetary_field) ceiling.monetary)
      (breaches (integer_field parameters r.records_field) ceiling.records)
      (inl (
        breaches_unknown (numeric_field parameters r.monetary_field) ceiling.monetary bound
          (numeric_field_absent parameters r.monetary_field absent) bounded))
extract-exceeds r parameters ceiling bound (inr (absent, bounded)) =
    any_breach (ltb (blast_severity ceiling.blast_radius) (blast_severity r.blast_radius))
      (breaches (numeric_field parameters r.monetary_field) ceiling.monetary)
      (breaches (integer_field parameters r.records_field) ceiling.records)
      (inr (
        breaches_unknown (integer_field parameters r.records_field) ceiling.records bound
          (integer_field_absent parameters r.records_field absent) bounded))
