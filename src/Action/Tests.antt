-- ===== src/Action/Tests.antt =====
-- glassbox/domain/action.py at concrete inputs: a wire of 400 under ceilings of 500 and 900.
use glassbox_agentic_governa.Prelude.{ℕ, ◌≡◌, refl, String, false, none, some, [], ◌∷◌}
use glassbox_agentic_governa.Action.{
  Exposure, ProposedAction, single, reversible, exceeds, breaches, text, number, parameter,
  with_redacted_parameters,
}
use glassbox_agentic_governa.Action.Redaction.{shown, with_redacted_parameters_lem}

abbrev up_to : ℕ → Exposure
up_to amount = record { blast_radius = single; monetary = some amount; records = none }

within_400_500 : exceeds (up_to 400) (up_to 500) ≡ false
unfolding exceeds breaches
within_400_500 = refl

within_500_900 : exceeds (up_to 500) (up_to 900) ≡ false
unfolding exceeds breaches
within_500_900 = refl

abbrev wire : ProposedAction
wire = record {
  action = "payments.wire";
  resource = record { kind = "account"; id = "ACC-1"; tenant_id = "t1" };
  consequence = reversible;
  exposure = up_to 400;
  idempotency_key = "k1";
  parameters = ("iban", text "DE00") ∷ ("amount", number 400) ∷ [];
}

with_redacted_parameters_lem_example :
    ((name : String)
      → parameter name (with_redacted_parameters ("iban" ∷ []) wire).parameters
        ≡ shown ("iban" ∷ []) name (parameter name wire.parameters))
    × (record (with_redacted_parameters ("iban" ∷ []) wire) { parameters = wire.parameters } ≡ wire)
with_redacted_parameters_lem_example = with_redacted_parameters_lem ("iban" ∷ []) wire
