-- ===== src/Errors.antt =====
-- glassbox/domain/errors.py: the exceptions as values, and a result that is a value or an exception.
-- The messages and the structured context of an exception are not modelled, except for the field
-- that a validation error names.
use glassbox_agentic_governa.Prelude.{String, Bool, true, false, ◌≡◌, ◌≢◌, refl, ◌⊎◌, inl, inr}

pub data GlassBoxError : Type 0 where
  domain_validation : String → GlassBoxError
  identity_error credential_expired delegation_error : GlassBoxError
  mandate_error mandate_not_found mandate_revoked mandate_exceeded : GlassBoxError
  policy_bundle_unavailable policy_bundle_signature : GlassBoxError
  action_not_governed catalogue_bundle_unavailable attestation_unavailable : GlassBoxError
  kill_switch_unavailable : GlassBoxError
  tool_not_governed tool_registry_unavailable tool_quarantined : GlassBoxError
  risk_model_unavailable limit_store_unavailable baseline_store_unavailable : GlassBoxError
  evidence_write evidence_integrity signing_unavailable : GlassBoxError
  dispatch_timeout dispatch_refused tool_output_quarantined : GlassBoxError
  approval_not_found approval_gateway_unavailable key_error : GlassBoxError

-- The classes that a handler names catch their subclasses too.
abbrev pub is_identity_error : GlassBoxError → Bool
is_identity_error identity_error = true
is_identity_error credential_expired = true
is_identity_error delegation_error = true
is_identity_error _ = false

abbrev pub is_mandate_error : GlassBoxError → Bool
is_mandate_error mandate_error = true
is_mandate_error mandate_not_found = true
is_mandate_error mandate_revoked = true
is_mandate_error mandate_exceeded = true
is_mandate_error _ = false

abbrev pub is_dispatch_error : GlassBoxError → Bool
is_dispatch_error dispatch_timeout = true
is_dispatch_error dispatch_refused = true
is_dispatch_error tool_output_quarantined = true
is_dispatch_error _ = false

abbrev pub is_kill_switch_unavailable : GlassBoxError → Bool
is_kill_switch_unavailable kill_switch_unavailable = true
is_kill_switch_unavailable _ = false

abbrev pub is_policy_bundle_unavailable : GlassBoxError → Bool
is_policy_bundle_unavailable policy_bundle_unavailable = true
is_policy_bundle_unavailable _ = false

abbrev pub is_risk_model_unavailable : GlassBoxError → Bool
is_risk_model_unavailable risk_model_unavailable = true
is_risk_model_unavailable _ = false

abbrev pub is_limit_store_unavailable : GlassBoxError → Bool
is_limit_store_unavailable limit_store_unavailable = true
is_limit_store_unavailable _ = false

abbrev pub is_baseline_store_unavailable : GlassBoxError → Bool
is_baseline_store_unavailable baseline_store_unavailable = true
is_baseline_store_unavailable _ = false

abbrev pub is_evidence_write_error : GlassBoxError → Bool
is_evidence_write_error evidence_write = true
is_evidence_write_error _ = false

abbrev pub is_signing_unavailable : GlassBoxError → Bool
is_signing_unavailable signing_unavailable = true
is_signing_unavailable _ = false

pub data Result {ℓ} (A : Type ℓ) : Type ℓ where
  ok : A → Result A
  err : GlassBoxError → Result A

-- `if not test: raise error`
abbrev pub require : Bool → GlassBoxError → Result (Unit {0})
require true e = ok tt
require false e = err e

module _ {ℓ κ} {A : Type ℓ} {B : Type κ} where
  -- The rest of a method runs on the value, and an exception leaves it.
  infixl 5 ◌>>=◌ ◌>>◌
  abbrev pub ◌>>=◌ : Result A → (A → Result B) → Result B
  err raised >>= rest = err raised
  ok value >>= rest = rest value

  abbrev pub ◌>>◌ : Result A → Result B → Result B
  first >> rest = first >>= (λ ignored. rest)

  -- What a method has done when it returned.
  pub >>=-eq-ok :
      (m : Result A) (rest : A → Result B) {b : B}
      → (m >>= rest) ≡ ok b
      → (a : A) × (m ≡ ok a) × (rest a ≡ ok b)
  >>=-eq-ok (err raised) rest returned = cc
  >>=-eq-ok (ok value) rest returned = (value, refl, returned)

-- To split on a computed result and keep the equation.
pub Result-cases {ℓ} :
    {A : Type ℓ} (a : Result A) → ((e : GlassBoxError) × (a ≡ err e)) ⊎ ((x : A) × (a ≡ ok x))
Result-cases (ok x) = inr (x, refl)
Result-cases (err e) = inl (e, refl)

pub err≢ok {ℓ} : {A : Type ℓ} {e : GlassBoxError} {a : A} → err e ≢ ok a
err≢ok h = cc
