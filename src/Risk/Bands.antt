-- ===== src/Risk/Bands.antt =====
-- glassbox/domain/risk.py: the bands are the quarters of the scale, and the floor of a consequence
-- class is exactly a floor.
use glassbox_agentic_governa.Prelude.{
  ℕ, ◌*◌, ◌+◌, ◌≤◌, ◌<◌, ◌≡◌, refl, String, Bool, true, Option, none, some, leb, arith, ◌⊎◌, inl,
  inr, if◌then◌else◌, Bool-cases, leb→le,
}
use Prim.Native.Nat.{max}
use glassbox_agentic_governa.Errors.{ok, err, domain_validation}
use glassbox_agentic_governa.Action.{
  ConsequenceClass, advisory, reversible, compensable, irreversible,
}
use glassbox_agentic_governa.Risk.{
  RiskLevel, critical, risk_severity, select_band, band_of, from_score, require_score, search_bound,
  lower_bound_for, RiskScore, RiskInputs, make_score, raise_to, with_consequence_floor,
  consequence_floors,
}

band_of_bounds :
    (score : ℕ)
    → (25 * risk_severity (band_of score) ≤ score)
      × ((score < 25 * risk_severity (band_of score) + 25) ⊎ (band_of score ≡ critical))
unfolding band_of select_band
band_of_bounds score = ground arith

-- Every score on the scale has a band, whose severity s is the one with 25 s ≤ score < 25 (s + 1),
-- except that the top band has no upper bound on the scale; any other score is refused.
pub from_score_bounds :
    (score : ℕ)
    → ((score ≤ 100)
        × ((level : RiskLevel) × (from_score score ≡ ok level)
            × (25 * risk_severity level ≤ score)
            × ((score < 25 * risk_severity level + 25) ⊎ (level ≡ critical))))
      ⊎ ((100 < score) × (from_score score ≡ err (domain_validation "score")))
unfolding from_score require_score
from_score_bounds score = elim (Bool-cases (leb score 100)) [
  | inl e ↦
      let (low_end, high_end) = band_of_bounds score in
      inl (leb→le score 100 e, (band_of score, rw e refl, low_end, high_end))
  | inr e ↦ inr (ground arith, rw e refl)
]

-- A higher score is never in a lower band.
pub band_of_mono : (a b : ℕ) → a ≤ b → risk_severity (band_of a) ≤ risk_severity (band_of b)
unfolding band_of select_band
band_of_mono a b h = ground arith

abbrev pub floor_of : ConsequenceClass → ℕ
floor_of advisory = 0
floor_of reversible = 0
floor_of compensable = 25
floor_of irreversible = 50

lower_bound-floor :
    (c : ConsequenceClass) → lower_bound_for (consequence_floors c) ≡ ok (floor_of c)
unfolding lower_bound_for search_bound
lower_bound-floor advisory = refl
lower_bound-floor reversible = refl
lower_bound-floor compensable = refl
lower_bound-floor irreversible = refl

band_of-floor :
    (c : ConsequenceClass)
    → risk_severity (band_of (floor_of c)) ≡ risk_severity (consequence_floors c)
unfolding band_of select_band
band_of-floor advisory = refl
band_of-floor reversible = refl
band_of-floor compensable = refl
band_of-floor irreversible = refl

-- What the constructor guarantees of a score.
pub record IsScore (s : RiskScore) : Type 0 where
  pub on_scale : s.value ≤ 100
  pub raised : s.raw_value ≤ s.value

pub make_score-IsScore :
    (v : ℕ) (model : String) (i : RiskInputs) (raw : Option ℕ) (f : Bool) (s : RiskScore)
    → make_score v model i raw f ≡ ok s
    → IsScore s
unfolding make_score require_score
make_score-IsScore v model i none f s h = ground arith
make_score-IsScore v model i (some raw) f s h = ground arith

raise_to_lem :
    (n : ℕ) (s : RiskScore)
    → n ≤ 100
    → IsScore s
    → (t : RiskScore) × (raise_to n s ≡ ok t)
      × (t.value ≡ max s.value n)
      × (t.raw_value ≡ s.raw_value)
      × (t.inputs ≡ s.inputs)
      × (t.model_version ≡ s.model_version)
      × (t.floor_applied ≡ (if leb n s.value then s.floor_applied else true))
unfolding raise_to make_score require_score
raise_to_lem n s h w =
    let short : leb s.raw_value 100 ≡ true = ground arith in
    let floor : leb n 100 ≡ true = ground arith in
    elim (Bool-cases (leb n s.value)) [
      | inl e ↦ (s, rw e refl, ground arith, refl, refl, refl, rw e refl)
      | inr e ↦
          let below : leb s.raw_value n ≡ true = ground arith in
          (
            record s { value = n; floor_applied = true },
            rw (e, floor, short, below) refl,
            ground arith,
            refl,
            refl,
            refl,
            rw e refl,
          )
    ]

floor_of-le : (c : ConsequenceClass) → floor_of c ≤ 100
floor_of-le advisory = omega arith
floor_of-le reversible = omega arith
floor_of-le compensable = omega arith
floor_of-le irreversible = omega arith

-- On a score that the constructor accepted the floor never fails: the value becomes the larger of
-- the value and the floor of the consequence class, the raw value, the inputs and the model stay,
-- and the mark is set where the floor is above the value.
pub with_consequence_floor_lem :
    (s : RiskScore)
    → IsScore s
    → (t : RiskScore) × (with_consequence_floor s ≡ ok t)
      × (t.value ≡ max s.value (floor_of s.inputs.consequence))
      × (t.raw_value ≡ s.raw_value)
      × (t.inputs ≡ s.inputs)
      × (t.model_version ≡ s.model_version)
      × (t.floor_applied
          ≡ (if leb (floor_of s.inputs.consequence) s.value then s.floor_applied else true))
unfolding with_consequence_floor
with_consequence_floor_lem s w =
    rw (lower_bound-floor s.inputs.consequence)
      (raise_to_lem (floor_of s.inputs.consequence) s (floor_of-le s.inputs.consequence) w)

-- Applying the floor twice is applying it once, and afterwards the band is at least the one that
-- the consequence class demands.
pub with_consequence_floor_idem :
    (s t : RiskScore)
    → IsScore s
    → with_consequence_floor s ≡ ok t
    → (with_consequence_floor t ≡ ok t)
      × (risk_severity (consequence_floors s.inputs.consequence) ≤ risk_severity (band_of t.value))
unfolding with_consequence_floor raise_to
with_consequence_floor_idem s t w h =
    let (u, made, value, raw, inputs, model, mark) = with_consequence_floor_lem s w in
    let same : t ≡ u = cc in
    let enough : leb (floor_of t.inputs.consequence) t.value ≡ true = ground arith in
    (
      rw (lower_bound-floor t.inputs.consequence, enough) refl,
      omega (
        arith,
        band_of-floor s.inputs.consequence,
        band_of_mono (floor_of s.inputs.consequence) t.value (ground arith),
      ),
    )
