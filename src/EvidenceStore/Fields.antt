-- ===== src/EvidenceStore/Fields.antt =====
-- glassbox/adapters/outbound/memory/evidence.py: what the reads of the store see after a write, and
-- when all its segments are chains.
use glassbox_agentic_governa.Prelude.{
  ℕ, ◌≡◌, refl, sym, ◌∙◌, String, Option, none, some, [], if◌then◌else◌, ◌==◌, string_eq,
  Bool-cases, Option-cases, inl, inr,
}
use mathlib.Core.Path.{subst}
use glassbox_agentic_governa.Prelude.Dict.{Dict, lookup, insert, lookup-insert}
use glassbox_agentic_governa.Evidence.{IntentRecord}
use glassbox_agentic_governa.Merkle.{Bytes}
use glassbox_agentic_governa.EvidenceStore.{MacSigner}
use glassbox_agentic_governa.EvidenceStore.Chains.{IsChain}
use glassbox_agentic_governa.EvidenceStore.Store.{EvidenceStore, get, setdefault, expected_first}

pub get-lookup :
    {V : Type 0} (otherwise : V) (key : String) (dict : Dict String V) (o : Option V)
    → lookup key dict ≡ o
    → get otherwise key dict ≡ (elim o [ none ↦ otherwise | some v ↦ v ])
unfolding get
get-lookup otherwise key dict o found = rw (found, get) refl

pub get-insert :
    {V : Type 0} (otherwise value : V) (key other : String) (dict : Dict String V)
    → get otherwise other (insert key value dict)
      ≡ (if key == other then value else get otherwise other dict)
get-insert otherwise value key other dict = elim (Bool-cases (key == other)) [
  | inl same ↦
      let found : lookup other (insert key value dict) ≡ some value =
        lookup-insert key other value dict ∙ rw same refl in
      rw same (get-lookup otherwise other (insert key value dict) (some value) found)
  | inr different ↦
      let found : lookup other (insert key value dict) ≡ lookup other dict =
        lookup-insert key other value dict ∙ rw different refl in
      rw different (
        get-lookup otherwise other (insert key value dict) (lookup other dict) found
        ∙ sym (get-lookup otherwise other dict (lookup other dict) refl))
]

pub get-setdefault :
    {V : Type 0} (otherwise : V) (key other : String) (dict : Dict String V)
    → get otherwise other (setdefault key otherwise dict) ≡ get otherwise other dict
unfolding setdefault
get-setdefault otherwise key other dict = elim (Option-cases (lookup key dict)) [
  | inr (v, found) ↦ rw (found, setdefault) refl
  | inl missing ↦
      rw (missing, setdefault)
        (get-insert otherwise otherwise key other dict ∙ elim (Bool-cases (key == other)) [
          | inr different ↦ rw different refl
          | inl same ↦
              let named : key ≡ other = (string_eq.beq_iff key other).0 same in
              let absent : lookup other dict ≡ none =
                subst (λ k. lookup k dict ≡ none) named missing in
              rw same (sym (get-lookup otherwise other dict none absent))
        ])
]

module _ (intent_payload : ℕ → Bytes → IntentRecord → Bytes) where
  -- Every segment is a chain from where the purge left off.
  abbrev pub AreChained : MacSigner → EvidenceStore → Type 0
  AreChained signer s =
      (g : String)
      → IsChain intent_payload signer (get 0 g s.purged) (expected_first g s) (get [] g s.segments)
