-- ===== src/Action.antt =====
-- glassbox/domain/action.py: consequence classes, blast radius, resources, exposure and proposed
-- actions. Amounts are naturals in the smallest unit; an unknown amount is `none`.
pub mod Exposures
pub mod Redaction
pub mod Tests
use glassbox_agentic_governa.Prelude.{
  ℕ, String, Bool, true, false, Option, none, some, List, [], ◌∷◌, ltb, leb, any, ◌==◌, string_eq,
  map, is_empty, ◌||◌, if◌then◌else◌,
}
use glassbox_agentic_governa.Prelude.Text.{codes}
use glassbox_agentic_governa.Errors.{Result, ok, ◌>>=◌, ◌>>◌}
use glassbox_agentic_governa.Serialization.{require_identifier}

pub data ConsequenceClass : Type 0 where
  advisory reversible compensable irreversible : ConsequenceClass

-- ConsequenceClass.severity, with the comparison operators written through it.
abbrev pub severity : ConsequenceClass → ℕ
severity advisory = 0
severity reversible = 1
severity compensable = 2
severity irreversible = 3

abbrev pub is_advisory : ConsequenceClass → Bool
is_advisory advisory = true
is_advisory _ = false

-- ConsequenceClass.requires_prior_evidence and may_degrade_on_dependency_failure
abbrev pub requires_prior_evidence : ConsequenceClass → Bool
requires_prior_evidence c = if is_advisory c then false else true

abbrev pub may_degrade_on_dependency_failure : ConsequenceClass → Bool
may_degrade_on_dependency_failure c = is_advisory c

pub data BlastRadius : Type 0 where
  single group tenant global : BlastRadius

abbrev pub blast_severity : BlastRadius → ℕ
blast_severity single = 0
blast_severity group = 1
blast_severity tenant = 2
blast_severity global = 3

pub record ResourceRef : Type 0 where
  pub kind : String
  pub id : String
  pub tenant_id : String

pub record Exposure : Type 0 where
  pub blast_radius : BlastRadius
  pub monetary : Option ℕ
  pub records : Option ℕ

unfoldable pub is_quantified : Exposure → Bool
is_quantified e = elim e.monetary [
  | some m ↦ true
  | none ↦ elim e.records [ some r ↦ true | none ↦ false ]
]

-- A known ceiling is breached by a larger amount and by an unknown one.
unfoldable pub breaches : Option ℕ → Option ℕ → Bool
breaches amount none = false
breaches none (some ceiling) = true
breaches (some amount) (some ceiling) = ltb ceiling amount

-- Exposure.exceeds
unfoldable pub exceeds : Exposure → Exposure → Bool
unfolding breaches
exceeds e ceiling =
    if ltb (blast_severity ceiling.blast_radius) (blast_severity e.blast_radius)
    then true
    else if breaches e.monetary ceiling.monetary
    then true
    else if breaches e.records ceiling.records
    then true
    else false

-- Parameter values after `freeze_mapping`: JSON scalars, and tuples of values. A `number` is an int
-- and a `float` is a float; both hold a natural, since negative and fractional ones are left out.
mutual
  pub data Value : Type 0 where
    null : Value
    flag : Bool → Value
    number : ℕ → Value
    float : ℕ → Value
    text : String → Value
    items : Values → Value

  pub data Values : Type 0 where
    end : Values
    more : Value → Values → Values

abbrev pub Parameters : Type 0
Parameters = List (String × Value)

pub record ProposedAction : Type 0 where
  pub action : String
  pub resource : ResourceRef
  pub consequence : ConsequenceClass
  pub exposure : Exposure
  pub idempotency_key : String
  pub parameters : Parameters

-- ProposedAction.__post_init__, less the checks of types
unfoldable pub make_action : ProposedAction → Result ProposedAction
make_action a = do
  require_identifier (codes a.action) "action"
  require_identifier (codes a.idempotency_key) "idempotency_key"
  ok a

-- ProposedAction.parameter, without its default.
unfoldable pub parameter : String → Parameters → Option Value
parameter name [] = none
parameter name ((key, value) ∷ rest) =
    let later = parameter name rest in if key == name then some value else later

abbrev pub redacted_parameter_placeholder : Value
redacted_parameter_placeholder = text "<redacted>"

unfoldable pub contains : String → List String → Bool
contains name names = any (λ n. n == name) names

unfoldable pub redact : List String → Parameters → Parameters
redact fields [] = []
redact fields ((key, value) ∷ rest) =
    (key, (if contains key fields then redacted_parameter_placeholder else value))
    ∷ redact fields rest

-- ProposedAction.with_redacted_parameters. Where nothing changes the source returns the same
-- instance, which is equal to the copy.
unfoldable pub with_redacted_parameters : List String → ProposedAction → ProposedAction
with_redacted_parameters fields a =
    if is_empty fields then a else record a { parameters = redact fields a.parameters }
