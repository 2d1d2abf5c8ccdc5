-- ===== src/Catalogue/Schema.antt =====
-- glassbox/domain/catalogue.py: what the check of parameters against a schema comes to.
use glassbox_agentic_governa.Prelude.{
  ℕ, String, ◌⊎◌, ◌≤◌, ◌≡◌, refl, Bool, true, false, not, Option, none, some, List, [], ◌∷◌, ◌++◌,
  any, length, is_empty, if◌then◌else◌, ◌==◌, string_eq, All, arith, Bool-cases, Option-cases, inl,
  inr, ◌↔◌,
}
use glassbox_agentic_governa.Prelude.Text.{codes}
use glassbox_agentic_governa.Prelude.Dict.{lookup}
use glassbox_agentic_governa.Action.{Parameters, Value, null, flag, number, float, text, items}
use glassbox_agentic_governa.Catalogue.{
  ParameterType, string_type, number_type, integer_type, boolean_type, ParameterField, Violation,
  ActionDefinition, accepts, is_too_long, violation_of, violation, unmapped_keys, field_violations,
  validate_parameters, wrong_type, too_long, missing,
}

-- A text within the bound, where there is one; other values have no length.
abbrev pub Fits : Option ℕ → Value → Type 0
Fits (some bound) (text s) = length (codes s) ≤ bound
Fits (some bound) null = Unit
Fits (some bound) (flag b) = Unit
Fits (some bound) (number n) = Unit
Fits (some bound) (float n) = Unit
Fits (some bound) (items vs) = Unit
Fits none value = Unit

-- The values of a type: an integer is a number too, and a float is a number and no integer.
abbrev pub IsOf : ParameterType → Value → Type 0
IsOf string_type v = (s : String) × (v ≡ text s)
IsOf boolean_type v = (b : Bool) × (v ≡ flag b)
IsOf integer_type v = (n : ℕ) × (v ≡ number n)
IsOf number_type v = ((n : ℕ) × (v ≡ number n)) ⊎ ((n : ℕ) × (v ≡ float n))

-- A field that may be absent, or a value of its type within its bound.
abbrev pub Satisfies : ParameterField → Option Value → Type 0
Satisfies f none = f.required ≡ false
Satisfies f (some value) = IsOf f.shape value × Fits f.max_length value

-- Every key is named by the schema, and every field of the schema is satisfied.
abbrev pub Conforms : List ParameterField → Parameters → Type 0
Conforms schema parameters =
    All (λ e. any (λ f. f.name == e.0) schema ≡ true) parameters
    × All (λ f. Satisfies f (lookup f.name parameters)) schema

accepts-IsOf : (t : ParameterType) (v : Value) → accepts t v ≡ true → IsOf t v
unfolding accepts
accepts-IsOf boolean_type (flag b) h = (b, refl)
accepts-IsOf string_type (text s) h = (s, refl)
accepts-IsOf number_type (number n) h = inl (n, refl)
accepts-IsOf number_type (float n) h = inr (n, refl)
accepts-IsOf integer_type (number n) h = (n, refl)
accepts-IsOf _ _ h = absurd (cc)

IsOf-accepts : (t : ParameterType) (v : Value) → IsOf t v → accepts t v ≡ true
unfolding accepts
IsOf-accepts boolean_type v (b, h) = rw h refl
IsOf-accepts string_type v (s, h) = rw h refl
IsOf-accepts integer_type v (n, h) = rw h refl
IsOf-accepts number_type v (inl (n, h)) = rw h refl
IsOf-accepts number_type v (inr (n, h)) = rw h refl

is_too_long-Fits :
    (bound : Option ℕ) (value : Value) → (is_too_long bound value ≡ false) ↔ Fits bound value
unfolding is_too_long
is_too_long-Fits none value = (λ h. tt, λ h. refl)
is_too_long-Fits (some bound) (text s) = ground arith
is_too_long-Fits (some bound) null = (λ h. tt, λ h. refl)
is_too_long-Fits (some bound) (flag b) = (λ h. tt, λ h. refl)
is_too_long-Fits (some bound) (number n) = (λ h. tt, λ h. refl)
is_too_long-Fits (some bound) (float n) = (λ h. tt, λ h. refl)
is_too_long-Fits (some bound) (items vs) = (λ h. tt, λ h. refl)

required_iff : (b : Bool) (v : Violation) → ((if b then some v else none) ≡ none) ↔ (b ≡ false)
required_iff true v = (λ h. absurd (cc), λ h. absurd (cc))
required_iff false v = (λ h. refl, λ h. refl)

tests_iff :
    (good long : Bool) (v w : Violation)
    → ((if not good then some v else if long then some w else none) ≡ none)
      ↔ ((good ≡ true) × (long ≡ false))
tests_iff true true v w = (λ h. absurd (cc), λ h. absurd (cc))
tests_iff true false v w = (λ h. (refl, refl), λ h. refl)
tests_iff false long v w = (λ h. absurd (cc), λ h. absurd (cc))

violation_of_iff :
    (f : ParameterField) (value : Option Value) → (violation_of f value ≡ none) ↔ Satisfies f value
unfolding violation_of
violation_of_iff f none = required_iff f.required (missing f.name)
violation_of_iff f (some value) =
    let tests =
      tests_iff (accepts f.shape value) (is_too_long f.max_length value) (wrong_type f.name)
        (too_long f.name) in
    let fits = is_too_long-Fits f.max_length value in
    (
      λ h. let (good, short) = tests.0 h in (accepts-IsOf f.shape value good, fits.0 short),
      λ h. tests.1 (IsOf-accepts f.shape value h.0, fits.1 h.1),
    )

unmapped_keys_iff :
    (schema : List ParameterField) (parameters : Parameters)
    → (unmapped_keys schema parameters ≡ [])
      ↔ All (λ e. any (λ f. f.name == e.0) schema ≡ true) parameters
unfolding unmapped_keys
unmapped_keys_iff schema [] = (λ h. tt, λ h. refl)
unmapped_keys_iff schema ((key, value) ∷ rest) =
    let others = unmapped_keys_iff schema rest in
    elim (Bool-cases (any (λ f. f.name == key) schema)) [
      | inl named ↦ rw named (λ h. (refl, others.0 h), λ h. others.1 h.1)
      | inr unknown ↦ rw unknown (λ h. absurd (cc), λ h. absurd (cc))
    ]

field_violations_iff :
    (schema : List ParameterField) (parameters : Parameters)
    → (field_violations schema parameters ≡ [])
      ↔ All (λ f. Satisfies f (lookup f.name parameters)) schema
unfolding field_violations violation
field_violations_iff [] parameters = (λ h. tt, λ h. refl)
field_violations_iff (f ∷ fs) parameters =
    let one = violation_of_iff f (lookup f.name parameters) in
    let others = field_violations_iff fs parameters in
    elim (Option-cases (violation_of f (lookup f.name parameters))) [
      | inl fine ↦ rw fine (λ h. (one.0 fine, others.0 h), λ h. others.1 h.1)
      | inr (v, found) ↦ rw found (λ h. absurd (cc), λ h. let fine = one.1 h.0 in absurd (cc))
    ]

append_iff : {A : Type 0} (xs ys : List A) → ((xs ++ ys) ≡ []) ↔ ((xs ≡ []) × (ys ≡ []))
append_iff [] ys = (λ h. (refl, h), λ h. h.1)
append_iff (x ∷ xs) ys = (λ h. absurd (cc), λ h. let e = h.0 in absurd (cc))

-- The schema of an action is an allow-list: where an action has a schema, its parameters have no
-- violation exactly when every key is named by the schema, every required field is there, and every
-- value has the type of its field and, as a text, at most its length. A float is no integer.
pub validate_parameters_iff :
    (d : ActionDefinition) (parameters : Parameters)
    → is_empty d.parameter_schema ≡ false
    → (validate_parameters d parameters ≡ []) ↔ Conforms d.parameter_schema parameters
unfolding validate_parameters
validate_parameters_iff d parameters migrated =
    let keys = unmapped_keys_iff d.parameter_schema parameters in
    let fields = field_violations_iff d.parameter_schema parameters in
    let both =
      append_iff (unmapped_keys d.parameter_schema parameters)
        (field_violations d.parameter_schema parameters) in
    rw migrated (
      λ h. let (no_key, no_field) = both.0 h in (keys.0 no_key, fields.0 no_field),
      λ h. both.1 (keys.1 h.0, fields.1 h.1),
    )
