-- ===== src/Catalogue/Tests.antt =====
-- glassbox/domain/catalogue.py at concrete inputs: a payment with an amount and a note.
use glassbox_agentic_governa.Prelude.{
  ◌≡◌, ◌↔◌, refl, true, false, none, some, [], ◌∷◌, string_eq, inl,
}
use glassbox_agentic_governa.Prelude.Dict.{lookup}
use glassbox_agentic_governa.Action.{
  Exposure, Parameters, single, irreversible, number, text, exceeds,
}
use glassbox_agentic_governa.Catalogue.{
  ActionDefinition, ExposureRule, validate_parameters, number_type, string_type, extract,
}
use glassbox_agentic_governa.Catalogue.Schema.{Conforms, validate_parameters_iff}
use glassbox_agentic_governa.Catalogue.Exposed.{extract-exceeds}

abbrev by_amount : ExposureRule
by_amount = record { blast_radius = single; monetary_field = some "amount"; records_field = none }

abbrev payment : ActionDefinition
payment = record {
  action = "pay";
  consequence = irreversible;
  exposure_rule = by_amount;
  required_attestations = [];
  parameter_schema =
      record { name = "amount"; shape = number_type; required = true; max_length = none }
      ∷ record { name = "note"; shape = string_type; required = false; max_length = some 5 }
      ∷ [];
  untrusted_text_fields = [];
  sensitive_parameter_fields = [];
}

abbrev of_9 : Parameters
of_9 = ("amount", number 9) ∷ ("note", text "rent") ∷ []

validate_parameters_iff_example :
    (validate_parameters payment of_9 ≡ []) ↔ Conforms payment.parameter_schema of_9
validate_parameters_iff_example = validate_parameters_iff payment of_9 refl

abbrev in_words : Parameters
in_words = ("amount", text "nine") ∷ []

abbrev up_to_10 : Exposure
up_to_10 = record { blast_radius = single; monetary = some 10; records = none }

extract-exceeds_example : exceeds (extract by_amount in_words) up_to_10 ≡ true
unfolding lookup
extract-exceeds_example = extract-exceeds by_amount in_words up_to_10 10 (
    inl (
      λ name n named.
          let same : some "amount" ≡ some name = named in
          (λ found. absurd (cc), λ found. absurd (cc)),
      refl,
    ))
