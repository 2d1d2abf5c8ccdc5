-- ===== src/EvidenceStore.antt =====
-- glassbox/adapters/outbound/memory/evidence.py, with the chain payloads of
-- glassbox/domain/evidence.py: one link of a MAC chain, how it is appended and how a chain is
-- verified. Intents and outcomes have chains of their own, of the same form, so that the walk and
-- the link are written once, over the type of the records. The canonical JSON bytes of a record in
-- its place are a parameter. The signer stands behind a port: an operation takes it as it is then.
pub mod Reports
pub mod Store
pub mod Chains
pub mod Fields
pub mod Appends
pub mod Purges
pub mod Outcomes
pub mod Histories
pub mod Tests
pub mod PurgedOut
pub mod Signing
pub mod Log
pub mod Leaves
pub mod Provable
pub mod Sealing
pub mod Verdicts
pub mod Tampering
pub mod Retention
pub mod Sealer
use glassbox_agentic_governa.Prelude.{
  ℕ, ◌+◌, String, Bool, true, false, ◌&&◌, Option, none, some, List, [], ◌∷◌, length, if◌then◌else◌,
  nat_beq,
}
use glassbox_agentic_governa.Prelude.Text.{codes_beq}
use glassbox_agentic_governa.Errors.{
  Result, ok, err, evidence_write, domain_validation, ◌>>=◌, ◌>>◌, require, is_signing_unavailable,
}
use glassbox_agentic_governa.Merkle.{Bytes}

-- The port MacSigner of glassbox/ports/keys.py.
pub record MacSigner : Type 0 where
  pub key_id : String
  pub mac : Bytes → Result Bytes
  pub verify_mac : Bytes → Bytes → String → Result Bool

pub data IntegrityStatus : Type 0 where
  intact broken sealed_purged unverifiable : IntegrityStatus

-- IntegrityStatus.is_acceptable
unfoldable pub is_acceptable : IntegrityStatus → Bool
is_acceptable intact = true
is_acceptable broken = false
is_acceptable sealed_purged = true
is_acceptable unverifiable = false

-- 32 zero bytes.
abbrev pub genesis_prev_hash : Bytes
genesis_prev_hash =
    0 ∷ 0 ∷ 0 ∷ 0 ∷ 0 ∷ 0 ∷ 0 ∷ 0 ∷ 0 ∷ 0 ∷ 0 ∷ 0 ∷ 0 ∷ 0 ∷ 0 ∷ 0 ∷ 0 ∷ 0 ∷ 0 ∷ 0 ∷ 0 ∷ 0 ∷ 0 ∷ 0
    ∷ 0 ∷ 0 ∷ 0 ∷ 0 ∷ 0 ∷ 0 ∷ 0 ∷ 0 ∷ []

-- StoredRecord and StoredOutcome
pub record Stored (R : Type 0) : Type 0 where
  pub entry : R
  pub seq : ℕ
  pub prev_hash : Bytes
  pub record_hmac : Bytes
  pub signer_key_id : String

-- What a walk along a chain finds.
pub record ChainReport : Type 0 where
  pub status : IntegrityStatus
  pub checked : ℕ
  pub first_broken : Option ℕ

-- The handlers around `self._signer.mac(payload)`.
abbrev pub on_mac : Result Bytes → Result Bytes
on_mac (ok mac) = ok mac
on_mac (err e) = if is_signing_unavailable e then err e else err evidence_write

abbrev pub broken_at : ℕ → ℕ → ChainReport
broken_at checked seq = record { status = broken; checked = checked; first_broken = some seq }

-- Where the walk goes on with the rest of the chain.
abbrev pub on_authentic : ℕ → ℕ → Result ChainReport → Result Bool → Result ChainReport
on_authentic checked seq rest (ok true) = rest
on_authentic checked seq rest (ok false) = ok (broken_at checked seq)
on_authentic checked seq rest (err e) =
    if is_signing_unavailable e
    then ok (record { status = unverifiable; checked = checked; first_broken = none })
    else err e

abbrev pub is_linked : {R : Type 0} → ℕ → Bytes → Stored R → Bool
is_linked expected_seq expected_prev x =
    nat_beq x.seq expected_seq && codes_beq x.prev_hash expected_prev

module _ {R : Type 0} (canonical : ℕ → Bytes → R → Bytes) where
  -- chain_payload
  unfoldable pub chain_payload : ℕ → Bytes → R → Result Bytes
  chain_payload seq prev_hash entry = do
    require (nat_beq (length prev_hash) 32) (domain_validation "prev_hash")
    ok (canonical seq prev_hash entry)

  -- The link that an append makes of a record, which is not stored yet.
  unfoldable pub make_link : MacSigner → ℕ → Bytes → R → Result (Stored R)
  make_link signer seq prev_hash entry = do
    payload ← chain_payload seq prev_hash entry
    mac ← on_mac (signer.mac payload)
    ok (record {
      entry = entry;
      seq = seq;
      prev_hash = prev_hash;
      record_hmac = mac;
      signer_key_id = signer.key_id;
    })

  -- `self._signer.verify(...)` on the recomputed payload.
  unfoldable pub authenticate : MacSigner → Stored R → Result Bool
  authenticate signer x = do
    payload ← chain_payload x.seq x.prev_hash x.entry
    signer.verify_mac payload x.record_hmac x.signer_key_id

  -- The loops of verify and of _verify_outcome_chain.
  unfoldable pub verify_chain : MacSigner → ℕ → Bytes → ℕ → List (Stored R) → Result ChainReport
  verify_chain signer expected_seq expected_prev checked [] =
      ok (record { status = intact; checked = checked; first_broken = none })
  verify_chain signer expected_seq expected_prev checked (x ∷ xs) =
      let rest = verify_chain signer (expected_seq + 1) x.record_hmac (checked + 1) xs in
      if is_linked expected_seq expected_prev x
      then on_authentic checked x.seq rest (authenticate signer x)
      else ok (broken_at checked x.seq)

-- `chain[-1].record_hmac if chain else ...`
unfoldable pub last_mac : {R : Type 0} → Bytes → List (Stored R) → Bytes
last_mac otherwise [] = otherwise
last_mac otherwise (x ∷ xs) = last_mac x.record_hmac xs
