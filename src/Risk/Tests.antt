-- ===== src/Risk/Tests.antt =====
-- glassbox/domain/risk.py at concrete inputs: an irreversible action scored at 27.
use glassbox_agentic_governa.Prelude.{◌≤◌, ◌≡◌, refl, true, false, none, arith}
use glassbox_agentic_governa.Errors.{ok}
use glassbox_agentic_governa.Action.{irreversible, single}
use glassbox_agentic_governa.Risk.{
  RiskScore, make_score, require_score, with_consequence_floor, risk_severity, band_of, raise_to,
  lower_bound_for, search_bound,
}
use glassbox_agentic_governa.Risk.Bands.{IsScore, band_of_mono, make_score-IsScore}

abbrev mild : RiskScore
mild = record {
  value = 27;
  model_version = "v1";
  inputs = record {
    consequence = irreversible;
    exposure = record { blast_radius = single; monetary = none; records = none };
    evaluated_at = 0;
  };
  raw_value = 27;
  floor_applied = false;
}

mild-IsScore : IsScore mild
unfolding make_score require_score
mild-IsScore = make_score-IsScore 27 "v1" mild.inputs none false mild refl

band_of_mono_example : risk_severity (band_of 27) ≤ risk_severity (band_of 80)
band_of_mono_example = band_of_mono 27 80 (omega arith)

abbrev raised : RiskScore
raised = record mild { value = 50; floor_applied = true }

mild_raised : with_consequence_floor mild ≡ ok raised
unfolding with_consequence_floor lower_bound_for search_bound raise_to make_score require_score
mild_raised = refl
