-- ===== src/Risk.antt =====
-- glassbox/domain/risk.py: the banding table, the consequence floor and risk scores. Scores are
-- naturals from 0 to 100, in the source floats on that scale. Of the inputs of a score the factors
-- are left out, which the operations here do not read.
pub mod Bands
pub mod Tests
use glassbox_agentic_governa.Prelude.{
  ℕ, String, Bool, true, false, Option, none, some, List, [], ◌∷◌, ltb, leb, nat_beq, ◌==◌,
  string_eq, any, not, if◌then◌else◌,
}
use glassbox_agentic_governa.Errors.{Result, ok, err, domain_validation, ◌>>=◌, ◌>>◌, require}
use glassbox_agentic_governa.Action.{
  ConsequenceClass, advisory, reversible, compensable, irreversible, Exposure,
}

pub data RiskLevel : Type 0 where
  low medium high critical : RiskLevel

abbrev pub risk_severity : RiskLevel → ℕ
risk_severity low = 0
risk_severity medium = 1
risk_severity high = 2
risk_severity critical = 3

abbrev pub max_risk_score : ℕ
max_risk_score = 100

abbrev pub risk_bands : List (ℕ × RiskLevel)
risk_bands = (0, low) ∷ (25, medium) ∷ (50, high) ∷ (75, critical) ∷ []

abbrev pub consequence_floors : ConsequenceClass → RiskLevel
consequence_floors advisory = low
consequence_floors reversible = low
consequence_floors compensable = medium
consequence_floors irreversible = high

-- _require_score
unfoldable pub require_score : ℕ → String → Result ℕ
require_score value field = do
  require (leb value max_risk_score) (domain_validation field)
  ok value

-- The loop of RiskLevel.from_score over the rest of the table.
unfoldable pub select_band : ℕ → RiskLevel → List (ℕ × RiskLevel) → RiskLevel
select_band value selected [] = selected
select_band value selected ((lower_bound, level) ∷ bands) =
    select_band value (if leb lower_bound value then level else selected) bands

unfoldable pub band_of : ℕ → RiskLevel
band_of value = select_band value low risk_bands

-- RiskLevel.from_score
unfoldable pub from_score : ℕ → Result RiskLevel
from_score score = do value ← require_score score "score"; ok (band_of value)

-- The loop of _lower_bound_for.
unfoldable pub search_bound : RiskLevel → List (ℕ × RiskLevel) → Result ℕ
search_bound level [] = err (domain_validation "level")
search_bound level ((lower_bound, band) ∷ bands) =
    let rest = search_bound level bands in
    if nat_beq (risk_severity band) (risk_severity level) then ok lower_bound else rest

unfoldable pub lower_bound_for : RiskLevel → Result ℕ
lower_bound_for level = search_bound level risk_bands

pub record RiskInputs : Type 0 where
  pub consequence : ConsequenceClass
  pub exposure : Exposure
  pub evaluated_at : ℕ

pub record RiskScore : Type 0 where
  pub value : ℕ
  pub model_version : String
  pub inputs : RiskInputs
  pub raw_value : ℕ
  pub floor_applied : Bool

-- RiskScore.__post_init__ with the raw value given (`some`) or left to follow the value, which the
-- source writes as a negative number.
unfoldable pub make_score : ℕ → String → RiskInputs → Option ℕ → Bool → Result RiskScore
make_score value model inputs none floored = do
  v ← require_score value "value"
  ok (record {
    value = v;
    model_version = model;
    inputs = inputs;
    raw_value = v;
    floor_applied = floored;
  })
make_score value model inputs (some raw) floored = do
  v ← require_score value "value"
  r ← require_score raw "raw_value"
  require (leb r v) (domain_validation "value")
  ok (record {
    value = v;
    model_version = model;
    inputs = inputs;
    raw_value = r;
    floor_applied = floored;
  })

unfoldable pub raise_to : ℕ → RiskScore → Result RiskScore
raise_to floor_value s =
    if leb floor_value s.value
    then ok s
    else make_score floor_value s.model_version s.inputs (some s.raw_value) true

-- RiskScore.with_consequence_floor
unfoldable pub with_consequence_floor : RiskScore → Result RiskScore
with_consequence_floor s = do
  floor_value ← lower_bound_for (consequence_floors s.inputs.consequence)
  raise_to floor_value s

-- RiskScore.exceeds
unfoldable pub score_exceeds : RiskScore → RiskLevel → Bool
score_exceeds s threshold = ltb (risk_severity threshold) (risk_severity (band_of s.value))
