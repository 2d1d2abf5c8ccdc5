-- ===== src/EvidenceStore/Tampering.antt =====
-- glassbox/adapters/outbound/memory/evidence.py: what the last MAC of a verified chain commits to.
-- Where the code relies on MACs being unforgeable, the theorems give the alternative as data: two
-- different payloads that the signer accepts under one MAC.
use glassbox_agentic_governa.Prelude.{
  ℕ, suc, ◌+◌, ◌≡◌, ◌≢◌, refl, String, true, false, some, List, [], ◌∷◌, length, map, nat_beq,
  nat_beq_iff, arith, Bool-cases, ◌⊎◌, inl, inr, string_eq,
}
use mathlib.Core.Path.{subst}
use glassbox_agentic_governa.Prelude.Dict.{lookup}
use glassbox_agentic_governa.Errors.{ok, >>=-eq-ok}
use glassbox_agentic_governa.Evidence.{IntentRecord, OutcomeRecord}
use glassbox_agentic_governa.Merkle.{Bytes}
use glassbox_agentic_governa.Merkle.Binding.{codes-dec}
use glassbox_agentic_governa.EvidenceStore.{
  MacSigner, Stored, chain_payload, authenticate, last_mac, is_acceptable, genesis_prev_hash,
}
use glassbox_agentic_governa.EvidenceStore.Chains.{IsChain, IsLink}
use glassbox_agentic_governa.EvidenceStore.Verdicts.{verify-IsChain}
use glassbox_agentic_governa.EvidenceStore.Reports.{IntegrityReport}
use glassbox_agentic_governa.EvidenceStore.Store.{
  StoredRecord, EvidenceStore, get, expected_first, verify,
}

pub data Forgery (signer : MacSigner) : Type 0 where
  forgery :
      (payload other mac : Bytes) (key_id other_key_id : String)
      → payload ≢ other
      → signer.verify_mac payload mac key_id ≡ ok true
      → signer.verify_mac other mac other_key_id ≡ ok true
      → Forgery signer

module _ {R E : Type 0} (as_evidence : R → E) (canonical : ℕ → Bytes → R → Bytes)
    (canonical-injective : (seq other : ℕ) (prev before : Bytes) (r q : R)
      → canonical seq prev r ≡ canonical other before q
      → (seq ≡ other) × (prev ≡ before) × (as_evidence r ≡ as_evidence q))
    (signer : MacSigner) where
  -- A payload that the signer accepts under a MAC.
  abbrev Accepted : Bytes → Bytes → Type 0
  Accepted payload mac = (key_id : String) × (signer.verify_mac payload mac key_id ≡ ok true)

  Accepted-dec :
      (payload other mac : Bytes)
      → Accepted payload mac
      → Accepted other mac
      → (payload ≡ other) ⊎ Forgery signer
  Accepted-dec payload other mac (k, first) (j, second) = elim (codes-dec payload other) [
    | inl same ↦ inl same
    | inr differ ↦ inr (forgery payload other mac k j differ first second)
  ]

  authenticate-Accepted :
      (x : Stored R)
      → authenticate canonical signer x ≡ ok true
      → Accepted (canonical x.seq x.prev_hash x.entry) x.record_hmac
  unfolding authenticate chain_payload
  authenticate-Accepted x h =
      let (payload, paid, accepted) =
        >>=-eq-ok (chain_payload canonical x.seq x.prev_hash x.entry) _ h in
      let (_, _, same) = >>=-eq-ok _ (λ u. ok (canonical x.seq x.prev_hash x.entry)) paid in
      (x.signer_key_id, cc)

  abbrev evidence_of : List (Stored R) → List E
  evidence_of = map (λ x. as_evidence x.entry)

  link-Accepted :
      (seq : ℕ) (prev : Bytes) (x : Stored R)
      → IsLink canonical signer seq prev x
      → Accepted (canonical seq prev x.entry) x.record_hmac
  link-Accepted seq prev x (here, linked, good) =
      subst (λ n. Accepted (canonical n prev x.entry) x.record_hmac) here
        (subst (λ p. Accepted (canonical x.seq p x.entry) x.record_hmac) linked
          (authenticate-Accepted x good))

  -- Chains of one length from one number that end in one MAC.
  same_chain :
      (seq : ℕ) (prev before : Bytes) (xs ys : List (Stored R))
      → IsChain canonical signer seq prev xs
      → IsChain canonical signer seq before ys
      → length xs ≡ length ys
      → last_mac prev xs ≡ last_mac before ys
      → ((prev ≡ before) × (evidence_of xs ≡ evidence_of ys)) ⊎ Forgery signer
  unfolding last_mac
  same_chain seq prev before [] [] h k lengths macs = inl (macs, refl)
  same_chain seq prev before [] (y ∷ ys) h k lengths macs = absurd (omega arith)
  same_chain seq prev before (x ∷ xs) [] h k lengths macs = absurd (omega arith)
  same_chain seq prev before (x ∷ xs) (y ∷ ys) (h, hs) (k, ks) lengths macs =
      elim (same_chain (seq + 1) x.record_hmac y.record_hmac xs ys hs ks (omega arith) macs) [
        | inr forged ↦ inr forged
        | inl (mac, rest) ↦
            elim (Accepted-dec (canonical seq prev x.entry) (canonical seq before y.entry)
              y.record_hmac
              (subst (λ m. Accepted (canonical seq prev x.entry) m) mac
                (link-Accepted seq prev x h))
              (link-Accepted seq before y k)) [
                | inr forged ↦ inr forged
                | inl payloads ↦
                    let (_, links, records) =
                      canonical-injective seq seq prev before x.entry y.entry payloads in
                    inl (links, cc)
              ]
      ]

  -- The payload that the last MAC of a chain authenticates has the number of its place.
  last-Accepted :
      (seq : ℕ) (prev : Bytes) (x : Stored R) (xs : List (Stored R))
      → IsChain canonical signer seq prev (x ∷ xs)
      → (before : Bytes) × (r : R) × Accepted
          (canonical (seq + length xs) before r)
          (last_mac prev (x ∷ xs))
  unfolding last_mac
  last-Accepted seq prev x [] (h, hs) =
      let start : seq ≡ seq + 0 = omega arith in
      (
        prev,
        x.entry,
        subst (λ n. Accepted (canonical n prev x.entry) x.record_hmac) start
            (link-Accepted seq prev x h),
      )
  last-Accepted seq prev x (y ∷ ys) (h, hs) =
      let (before, r, accepted) = last-Accepted (seq + 1) x.record_hmac y ys hs in
      let shifted : (seq + 1) + length ys ≡ seq + suc (length ys) = omega arith in
      (
        before,
        r,
        subst (λ n. Accepted (canonical n before r) (last_mac x.record_hmac (y ∷ ys))) shifted
            accepted,
      )

  same_end :
      (seq : ℕ) (prev before : Bytes) (x y : Stored R) (xs ys : List (Stored R))
      → IsChain canonical signer seq prev (x ∷ xs)
      → IsChain canonical signer seq before (y ∷ ys)
      → last_mac prev (x ∷ xs) ≡ last_mac before (y ∷ ys)
      → (evidence_of (x ∷ xs) ≡ evidence_of (y ∷ ys)) ⊎ Forgery signer
  same_end seq prev before x y xs ys h k macs =
      elim (Bool-cases (nat_beq (length xs) (length ys))) [
        | inl level ↦
            let lengths = (nat_beq_iff (length xs) (length ys)).0 level in
            elim (same_chain seq prev before (x ∷ xs) (y ∷ ys) h k (omega arith) macs) [
              | inl (_, records) ↦ inl records
              | inr forged ↦ inr forged
            ]
        | inr uneven ↦
            let (p, r, first) = last-Accepted seq prev x xs h in
            let (q, t, second) = last-Accepted seq before y ys k in
            elim (Accepted-dec (canonical (seq + length xs) p r) (canonical (seq + length ys) q t)
              (last_mac before (y ∷ ys))
              (subst (λ m. Accepted (canonical (seq + length xs) p r) m) macs first) second) [
                | inr forged ↦ inr forged
                | inl payloads ↦
                    let (places, _, _) =
                      canonical-injective (seq + length xs) (seq + length ys) p q r t payloads in
                    let uneven_lengths : nat_beq (length xs) (length ys) ≡ false = uneven in
                    absurd (ground arith)
              ]
      ]

module _ {E : Type 0} (as_evidence : IntentRecord → E)
    (intent_payload : ℕ → Bytes → IntentRecord → Bytes)
    (outcome_payload : ℕ → Bytes → OutcomeRecord → Bytes)
    (canonical-injective : (seq other : ℕ) (prev before : Bytes) (r q : IntentRecord)
      → intent_payload seq prev r ≡ intent_payload other before q
      → (seq ≡ other) × (prev ≡ before) × (as_evidence r ≡ as_evidence q))
    (signer : MacSigner) where
  -- The last MAC of a segment commits to all of it: where two segments, in one store or in two, are
  -- not empty and are reported as acceptable, as many records were purged from each, and the last
  -- MACs are the same, then the records agree in everything that is evidence, in number and in
  -- order, or two different payloads are at hand that the signer accepts under one MAC.
  pub verify-last_mac :
      (g k : String) (now later : ℕ) (s t : EvidenceStore) (x y : StoredRecord)
      (xs ys : List StoredRecord) (report other : IntegrityReport)
      → lookup g s.segments ≡ some (x ∷ xs)
      → lookup k t.segments ≡ some (y ∷ ys)
      → verify intent_payload outcome_payload signer g now s ≡ ok report
      → is_acceptable report.status ≡ true
      → verify intent_payload outcome_payload signer k later t ≡ ok other
      → is_acceptable other.status ≡ true
      → get 0 g s.purged ≡ get 0 k t.purged
      → last_mac genesis_prev_hash (x ∷ xs) ≡ last_mac genesis_prev_hash (y ∷ ys)
      → (map (λ z. as_evidence z.entry) (x ∷ xs) ≡ map (λ z. as_evidence z.entry) (y ∷ ys))
        ⊎ Forgery signer
  unfolding last_mac
  verify-last_mac g k now later s t x y xs ys report other found met first sound second firm purges
        macs =
      same_end as_evidence intent_payload canonical-injective signer (get 0 k t.purged)
        (expected_first g s) (expected_first k t) x y xs ys
        (subst (λ n. IsChain intent_payload signer n (expected_first g s) (x ∷ xs)) purges
          (verify-IsChain intent_payload outcome_payload signer g now s (x ∷ xs) report found first
            sound))
        (verify-IsChain intent_payload outcome_payload signer k later t (y ∷ ys) other met second
          firm)
        macs
