-- ===== src/Action/Redaction.antt =====
-- glassbox/domain/action.py: the copy of an action that goes into evidence.
use glassbox_agentic_governa.Prelude.{
  String, ◌≡◌, refl, Option, none, some, List, [], ◌∷◌, arith, string_eq, if◌then◌else◌,
}
use glassbox_agentic_governa.Action.{
  Value, Parameters, ProposedAction, parameter, redacted_parameter_placeholder, contains, redact,
  with_redacted_parameters,
}

-- What a sensitive field shows in place of its value.
abbrev pub shown : List String → String → Option Value → Option Value
shown fields name none = none
shown fields name (some v) =
    some (if contains name fields then redacted_parameter_placeholder else v)

parameter-redact :
    (fields : List String) (name : String) (ps : Parameters)
    → parameter name (redact fields ps) ≡ shown fields name (parameter name ps)
unfolding parameter redact
parameter-redact fields name [] = refl
parameter-redact fields name ((key, v) ∷ ps) =
    ground (arith, string_eq.beq_iff key name, parameter-redact fields name ps)

redact-none : (ps : Parameters) → redact [] ps ≡ ps
unfolding redact contains
redact-none [] = refl
redact-none ((key, v) ∷ ps) = cc (redact-none ps)

-- In the evidence copy each parameter named as sensitive shows the placeholder, every other
-- parameter shows its value, and a parameter is present exactly where it was; the other fields
-- of the action are untouched.
pub with_redacted_parameters_lem :
    (fields : List String) (a : ProposedAction)
    → ((name : String)
        → parameter name (with_redacted_parameters fields a).parameters
          ≡ shown fields name (parameter name a.parameters))
      × (record (with_redacted_parameters fields a) { parameters = a.parameters } ≡ a)
unfolding with_redacted_parameters
with_redacted_parameters_lem [] a =
    (λ name. ground (arith, parameter-redact [] name a.parameters, redact-none a.parameters), refl)
with_redacted_parameters_lem (f ∷ fields) a =
    (λ name. parameter-redact (f ∷ fields) name a.parameters, refl)
