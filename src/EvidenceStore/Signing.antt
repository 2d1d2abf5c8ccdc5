-- ===== src/EvidenceStore/Signing.antt =====
-- glassbox/adapters/outbound/memory/signing.py, with the message of
-- glassbox/adapters/outbound/signing.py: LocalMacSigner, its keys and their rotation. SHA-256, HMAC
-- and the bytes of a new key are parameters; `key_error` is Python's KeyError.
use glassbox_agentic_governa.Prelude.{
  ◌≡◌, refl, sym, ap, ◌∙◌, String, Bool, true, false, not, Option, none, some, ◌∷◌, ◌++◌,
  if◌then◌else◌, ◌==◌, string_eq, Bool-cases, inl, inr,
}
use glassbox_agentic_governa.Prelude.Text.{codes, codes_beq, codes_beq_iff}
use glassbox_agentic_governa.Prelude.Dict.{Dict, lookup, insert, lookup-insert}
use glassbox_agentic_governa.Errors.{Result, ok, err, err≢ok, signing_unavailable, key_error}
use glassbox_agentic_governa.Merkle.{Bytes}
use glassbox_agentic_governa.EvidenceStore.{MacSigner}
use glassbox_agentic_governa.EvidenceStore.Chains.{AcceptsOwn, Extends}

pub record LocalMacSigner : Type 0 where
  pub active_key_id : String
  pub keys : Dict String Bytes
  pub available : Bool

-- LocalMacSigner.__init__
unfoldable pub make_signer : String → Bytes → Dict String Bytes → LocalMacSigner
make_signer key_id key historic_keys = record {
  active_key_id = key_id;
  keys = insert key_id key historic_keys;
  available = true;
}

unfoldable pub rotate : String → Bytes → LocalMacSigner → LocalMacSigner
rotate new_key_id key s = record s {
  keys = insert new_key_id key s.keys;
  active_key_id = new_key_id;
}

unfoldable pub set_available : Bool → LocalMacSigner → LocalMacSigner
set_available available s = record s { available = available }

abbrev pub mac_domain_tag : Bytes
mac_domain_tag = codes "glassbox.evidence.mac.v1"

module _ (sha256 : Bytes → Bytes) (hmac : Bytes → Bytes → Bytes) where
  unfoldable pub mac_message : Bytes → Bytes
  mac_message payload = mac_domain_tag ++ (0 ∷ sha256 payload)

  abbrev pub mac_under : Bytes → Option Bytes → Result Bytes
  mac_under payload none = err key_error
  mac_under payload (some key) = ok (hmac key (mac_message payload))

  -- LocalMacSigner.mac
  unfoldable pub local_mac : LocalMacSigner → Bytes → Result Bytes
  local_mac s payload =
      if not s.available
      then err signing_unavailable
      else mac_under payload (lookup s.active_key_id s.keys)

  abbrev pub verify_under : Bytes → Bytes → Option Bytes → Result Bool
  verify_under payload mac none = err signing_unavailable
  verify_under payload mac (some key) = ok (codes_beq (hmac key (mac_message payload)) mac)

  -- LocalMacSigner.verify
  unfoldable pub local_verify : LocalMacSigner → Bytes → Bytes → String → Result Bool
  local_verify s payload mac key_id =
      if not s.available
      then err signing_unavailable
      else verify_under payload mac (lookup key_id s.keys)

  -- The signer behind its port.
  abbrev pub as_signer : LocalMacSigner → MacSigner
  as_signer s = record { key_id = s.active_key_id; mac = local_mac s; verify_mac = local_verify s }

  codes_beq_refl : (m : Bytes) → codes_beq m m ≡ true
  codes_beq_refl m = (codes_beq_iff m m).1 refl

  mac_under-verify_under :
      (payload mac : Bytes) (key : Option Bytes)
      → mac_under payload key ≡ ok mac
      → verify_under payload mac key ≡ ok true
  mac_under-verify_under payload mac none h = absurd (err≢ok h)
  mac_under-verify_under payload mac (some key) h =
      let same : hmac key (mac_message payload) ≡ mac = cc in
      rw same (ap (λ b. ok b) (codes_beq_refl mac))

  if_available :
      {A : Type 0} {a : A} (available : Bool) (r : Result A)
      → (if not available then err signing_unavailable else r) ≡ ok a
      → (available ≡ true) × (r ≡ ok a)
  if_available true r h = (refl, h)
  if_available false r h = absurd (err≢ok h)

  available_if :
      {A : Type 0} (available : Bool) (r : Result A)
      → available ≡ true
      → (if not available then err signing_unavailable else r) ≡ r
  available_if true r h = refl
  available_if false r h = absurd (cc)

  pub as_signer-AcceptsOwn : (s : LocalMacSigner) → AcceptsOwn (as_signer s)
  unfolding local_mac local_verify
  as_signer-AcceptsOwn s payload mac h =
      let (up, made) =
        if_available s.available (mac_under payload (lookup s.active_key_id s.keys)) h in
      available_if s.available (verify_under payload mac (lookup s.active_key_id s.keys)) up
      ∙ mac_under-verify_under payload mac (lookup s.active_key_id s.keys) made

  pub rotate-Extends :
      (s : LocalMacSigner) (new_key_id : String) (key : Bytes)
      → lookup new_key_id s.keys ≡ none
      → Extends (as_signer s) (as_signer (rotate new_key_id key s))
  unfolding local_verify rotate
  rotate-Extends s new_key_id key fresh payload mac key_id h =
      let (up, verified) =
        if_available s.available (verify_under payload mac (lookup key_id s.keys)) h in
      available_if s.available
        (verify_under payload mac (lookup key_id (insert new_key_id key s.keys))) up
      ∙ elim (Bool-cases (new_key_id == key_id)) [
        | inr other ↦
            let kept : lookup key_id (insert new_key_id key s.keys) ≡ lookup key_id s.keys =
              lookup-insert new_key_id key_id key s.keys ∙ rw other refl in
            ap (verify_under payload mac) kept ∙ verified
        | inl same ↦
            let named = (string_eq.beq_iff new_key_id key_id).0 same in
            let unknown : lookup key_id s.keys ≡ none = cc in
            absurd (err≢ok (sym (ap (verify_under payload mac) unknown) ∙ verified))
      ]

  -- A MAC that the local signer makes verifies under the key that made it, then and after a rotation
  -- to a key id that the signer did not know, whatever the new key is.
  pub rotate-local_verify :
      (s : LocalMacSigner) (payload mac : Bytes) (new_key_id : String) (key : Bytes)
      → local_mac s payload ≡ ok mac
      → lookup new_key_id s.keys ≡ none
      → (local_verify s payload mac s.active_key_id ≡ ok true)
        × (local_verify (rotate new_key_id key s) payload mac s.active_key_id ≡ ok true)
  rotate-local_verify s payload mac new_key_id key made fresh =
      let own = as_signer-AcceptsOwn s payload mac made in
      (own, rotate-Extends s new_key_id key fresh payload mac s.active_key_id own)
