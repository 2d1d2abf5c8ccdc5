-- ===== src/Catalogue.antt =====
-- glassbox/domain/catalogue.py and glassbox/adapters/outbound/memory/catalogue.py: the governed shape
-- of an action, the check of parameters against its schema, how exposure is read from parameters,
-- bundles, the catalogue and the attestations. A violation is a value and not a text.
pub mod Schema
pub mod Exposed
pub mod Tests
use glassbox_agentic_governa.Prelude.{
  ℕ, String, Bool, true, false, not, ◌&&◌, ◌||◌, Option, none, some, List, [], ◌∷◌, ◌++◌, map, any,
  find, keep, length, is_empty, if◌then◌else◌, ltb, leb, ◌==◌, string_eq, Eq, pair_eq,
}
use glassbox_agentic_governa.Prelude.Text.{codes}
use glassbox_agentic_governa.Prelude.Dict.{Dict, lookup, insert}
use glassbox_agentic_governa.Errors.{
  Result, ok, err, domain_validation, action_not_governed, catalogue_bundle_unavailable,
  attestation_unavailable, ◌>>=◌, ◌>>◌, require,
}
use glassbox_agentic_governa.Serialization.{require_identifier}
use glassbox_agentic_governa.Decision.{optional_identifier}
use glassbox_agentic_governa.Action.{
  BlastRadius, ConsequenceClass, Exposure, Parameters, Value, null, flag, number, float, text,
  items,
}

pub data ParameterType : Type 0 where
  string_type number_type integer_type boolean_type : ParameterType

-- ParameterType.accepts
unfoldable pub accepts : ParameterType → Value → Bool
accepts boolean_type (flag b) = true
accepts string_type (text s) = true
accepts number_type (number n) = true
accepts number_type (float n) = true
accepts integer_type (number n) = true
accepts _ _ = false

pub record ParameterField : Type 0 where
  pub name : String
  pub shape : ParameterType
  pub required : Bool
  pub max_length : Option ℕ

unfoldable pub is_string_type : ParameterType → Bool
is_string_type string_type = true
is_string_type _ = false

-- ParameterField.__post_init__
unfoldable pub check_max_length : ParameterType → Option ℕ → Result (Unit {0})
check_max_length shape none = ok tt
check_max_length shape (some bound) =
    require (is_string_type shape) (domain_validation "max_length")

unfoldable pub make_field : ParameterField → Result ParameterField
make_field f = do
  require_identifier (codes f.name) "name"
  check_max_length f.shape f.max_length
  ok f

pub data Violation : Type 0 where
  unmapped missing wrong_type too_long : String → Violation

-- `self.max_length is not None and isinstance(value, str) and len(value) > self.max_length`
unfoldable pub is_too_long : Option ℕ → Value → Bool
is_too_long (some bound) (text s) = ltb bound (length (codes s))
is_too_long _ _ = false

unfoldable pub violation_of : ParameterField → Option Value → Option Violation
violation_of f none = if f.required then some (missing f.name) else none
violation_of f (some value) =
    if not (accepts f.shape value)
    then some (wrong_type f.name)
    else if is_too_long f.max_length value
    then some (too_long f.name)
    else none

-- ParameterField.violation
unfoldable pub violation : Parameters → ParameterField → Option Violation
violation parameters f = violation_of f (lookup f.name parameters)

pub record ExposureRule : Type 0 where
  pub blast_radius : BlastRadius
  pub monetary_field : Option String
  pub records_field : Option String

-- ExposureRule.__post_init__
unfoldable pub make_rule : ExposureRule → Result ExposureRule
make_rule r = do
  optional_identifier r.monetary_field "monetary_field"
  optional_identifier r.records_field "records_field"
  ok r

abbrev pub number_in : Option Value → Option ℕ
number_in (some (number n)) = some n
number_in (some (float n)) = some n
number_in _ = none

-- _numeric_field
unfoldable pub numeric_field : Parameters → Option String → Option ℕ
numeric_field parameters none = none
numeric_field parameters (some field) = number_in (lookup field parameters)

abbrev pub integer_in : Option Value → Option ℕ
integer_in (some (number n)) = some n
integer_in _ = none

-- _integer_field
unfoldable pub integer_field : Parameters → Option String → Option ℕ
integer_field parameters none = none
integer_field parameters (some field) = integer_in (lookup field parameters)

-- ExposureRule.extract
unfoldable pub extract : ExposureRule → Parameters → Exposure
extract r parameters = record {
  blast_radius = r.blast_radius;
  monetary = numeric_field parameters r.monetary_field;
  records = integer_field parameters r.records_field;
}

pub record ActionDefinition : Type 0 where
  pub action : String
  pub consequence : ConsequenceClass
  pub exposure_rule : ExposureRule
  pub required_attestations : List String
  pub parameter_schema : List ParameterField
  pub untrusted_text_fields : List String
  pub sensitive_parameter_fields : List String

-- The loops over `seen`: every name is an identifier, and none stands twice.
unfoldable pub require_distinct : String → List String → List String → Result (Unit {0})
require_distinct field seen [] = ok tt
require_distinct field seen (name ∷ names) =
    let rest = require_distinct field (name ∷ seen) names in
    require_identifier (codes name) field
    >> (if any (λ s. s == name) seen then err (domain_validation field) else rest)

unfoldable pub unseen : String → List String → List String → Result (Unit {0})
unseen field seen [] = ok tt
unseen field seen (name ∷ names) =
    let rest = unseen field (name ∷ seen) names in
    if any (λ s. s == name) seen then err (domain_validation field) else rest

unfoldable pub require_identifiers : String → List String → Result (Unit {0})
require_identifiers field [] = ok tt
require_identifiers field (name ∷ names) =
    let rest = require_identifiers field names in require_identifier (codes name) field >> rest

-- ActionDefinition.__post_init__
unfoldable pub make_definition : ActionDefinition → Result ActionDefinition
make_definition d = do
  require_identifier (codes d.action) "action"
  require_distinct "required_attestations" [] d.required_attestations
  unseen "parameter_schema" [] (map (λ f. f.name) d.parameter_schema)
  require_identifiers "untrusted_text_fields" d.untrusted_text_fields
  require_identifiers "sensitive_parameter_fields" d.sensitive_parameter_fields
  ok d

-- The keys that the schema does not name, and the violations of its fields.
unfoldable pub unmapped_keys : List ParameterField → Parameters → List Violation
unmapped_keys schema [] = []
unmapped_keys schema ((key, value) ∷ rest) =
    let others = unmapped_keys schema rest in
    if any (λ f. f.name == key) schema then others else unmapped key ∷ others

abbrev pub prepend : Option Violation → List Violation → List Violation
prepend none vs = vs
prepend (some v) vs = v ∷ vs

unfoldable pub field_violations : List ParameterField → Parameters → List Violation
field_violations [] parameters = []
field_violations (f ∷ fs) parameters =
    prepend (violation parameters f) (field_violations fs parameters)

-- ActionDefinition.validate_parameters
unfoldable pub validate_parameters : ActionDefinition → Parameters → List Violation
validate_parameters d parameters =
    if is_empty d.parameter_schema
    then []
    else unmapped_keys d.parameter_schema parameters
      ++ field_violations d.parameter_schema parameters

pub record ActionCatalogueBundle : Type 0 where
  pub bundle_id : String
  pub tenant_id : String
  pub version : ℕ
  pub definitions : List ActionDefinition

-- ActionCatalogueBundle.__post_init__
unfoldable pub make_bundle : ActionCatalogueBundle → Result ActionCatalogueBundle
make_bundle b = do
  require_identifier (codes b.bundle_id) "bundle_id"
  require_identifier (codes b.tenant_id) "tenant_id"
  unseen "definitions" [] (map (λ d. d.action) b.definitions)
  ok b

-- ActionCatalogueBundle.resolve
unfoldable pub resolve_in : String → List ActionDefinition → Option ActionDefinition
resolve_in action definitions = find (λ d. d.action == action) definitions

-- InMemoryActionCatalogue
pub record Catalogue : Type 0 where
  pub bundles : Dict String ActionCatalogueBundle
  pub available : Bool

unfoldable pub load_bundle : ActionCatalogueBundle → Catalogue → Catalogue
load_bundle b c = record c { bundles = insert b.tenant_id b c.bundles }

abbrev pub bundle_or_raise : Option ActionCatalogueBundle → Result ActionCatalogueBundle
bundle_or_raise none = err catalogue_bundle_unavailable
bundle_or_raise (some b) = ok b

-- _active_bundle
unfoldable pub active_bundle : String → Catalogue → Result ActionCatalogueBundle
active_bundle tenant_id c =
    if not c.available
    then err catalogue_bundle_unavailable
    else bundle_or_raise (lookup tenant_id c.bundles)

abbrev pub definition_or_raise : Option ActionDefinition → Result ActionDefinition
definition_or_raise none = err action_not_governed
definition_or_raise (some d) = ok d

-- InMemoryActionCatalogue.resolve
unfoldable pub resolve : String → String → Catalogue → Result ActionDefinition
resolve tenant_id action c = do
  bundle ← active_bundle tenant_id c
  definition_or_raise (resolve_in action bundle.definitions)

-- InMemoryAttestationProvider, whose facts are keyed by the tenant with the resource's qualified
-- name, and then by the name of the attestation: the triple of the source in two levels.
pub record Attestations : Type 0 where
  pub facts : Dict (String × String) (Dict String Bool)
  pub answers : Bool

abbrev pub fact_or_raise : Option Bool → Result Bool
fact_or_raise none = err attestation_unavailable
fact_or_raise (some value) = ok value

abbrev pub facts_of : String → String → Attestations → Dict String Bool
facts_of tenant_id resource p = elim (lookup (tenant_id, resource) p.facts) [
  | none ↦ []
  | some facts ↦ facts
]

-- record
unfoldable pub record_fact : String → String → String → Bool → Attestations → Attestations
record_fact tenant_id resource name value p = record p {
  facts = insert (tenant_id, resource) (insert name value (facts_of tenant_id resource p)) p.facts;
}

-- InMemoryAttestationProvider.resolve
unfoldable pub resolve_fact : String → String → String → Attestations → Result Bool
resolve_fact tenant_id resource name p =
    if not p.answers
    then err attestation_unavailable
    else fact_or_raise (lookup name (facts_of tenant_id resource p))
