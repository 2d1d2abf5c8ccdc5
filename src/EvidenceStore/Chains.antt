-- ===== src/EvidenceStore/Chains.antt =====
-- glassbox/adapters/outbound/memory/evidence.py: what a walk along a chain says of it, and the
-- links that an append and a purge make and keep.
use glassbox_agentic_governa.Prelude.{
  String, ℕ, ◌+◌, ◌≡◌, refl, ap, ◌∙◌, Bool, true, false, none, List, [], ◌∷◌, ◌++◌, length,
  nat_beq_iff, arith, Bool-cases, inl, inr, ◌↔◌,
}
use mathlib.Core.Path.{subst}
use glassbox_agentic_governa.Prelude.Text.{codes_beq_iff}
use glassbox_agentic_governa.Errors.{
  Result, ok, err, Result-cases, err≢ok, >>=-eq-ok, require, is_signing_unavailable,
}
use glassbox_agentic_governa.Merkle.{Bytes}
use glassbox_agentic_governa.EvidenceStore.{
  is_acceptable, MacSigner, IntegrityStatus, intact, Stored, ChainReport, chain_payload, on_mac,
  make_link, authenticate, broken_at, is_linked, verify_chain, last_mac,
}

-- One signer accepts what another one signs, under the key that this one names. One that cannot be
-- reached signs nothing.
abbrev pub Accepts : MacSigner → MacSigner → Type 0
Accepts signer writer =
    (payload mac : Bytes)
    → writer.mac payload ≡ ok mac
    → signer.verify_mac payload mac writer.key_id ≡ ok true

abbrev pub AcceptsOwn : MacSigner → Type 0
AcceptsOwn signer = Accepts signer signer

require-eq-ok : (b : Bool) (e : _) {u : Unit {0}} → require b e ≡ ok u → b ≡ true
require-eq-ok true e h = refl
require-eq-ok false e h = absurd (err≢ok h)

-- What one signer accepts the other accepts too, as after a rotation of the key.
abbrev pub Extends : MacSigner → MacSigner → Type 0
Extends before after =
    (payload mac : Bytes) (key_id : String)
    → before.verify_mac payload mac key_id ≡ ok true
    → after.verify_mac payload mac key_id ≡ ok true

module _ {R : Type 0} (canonical : ℕ → Bytes → R → Bytes) where
  abbrev pub IsLink : MacSigner → ℕ → Bytes → Stored R → Type 0
  IsLink signer seq prev x =
      (x.seq ≡ seq) × (x.prev_hash ≡ prev) × (authenticate canonical signer x ≡ ok true)

  -- Every link stands in its place and authenticates.
  abbrev pub IsChain : MacSigner → ℕ → Bytes → List (Stored R) → Type 0
  IsChain signer seq prev [] = Unit
  IsChain signer seq prev (x ∷ xs) =
      IsLink signer seq prev x × IsChain signer (seq + 1) x.record_hmac xs

  abbrev pub intact_report : ℕ → ChainReport
  intact_report checked = record { status = intact; checked = checked; first_broken = none }

  pub IsChain-append :
      (signer : MacSigner) (seq : ℕ) (prev : Bytes) (xs : List (Stored R)) (x : Stored R)
      → IsChain signer seq prev xs
      → IsLink signer (seq + length xs) (last_mac prev xs) x
      → IsChain signer seq prev (xs ++ (x ∷ []))
  unfolding last_mac
  IsChain-append signer seq prev [] x h (here, linked, good) = ((omega arith, linked, good), tt)
  IsChain-append signer seq prev (y ∷ ys) x (h, hs) (here, linked, good) =
      (h, IsChain-append signer (seq + 1) y.record_hmac ys x hs (omega arith, linked, good))

  pub IsChain-drop :
      (signer : MacSigner) (seq : ℕ) (prev : Bytes) (xs ys : List (Stored R))
      → IsChain signer seq prev (xs ++ ys)
      → IsChain signer (seq + length xs) (last_mac prev xs) ys
  unfolding last_mac
  IsChain-drop signer seq prev [] ys h =
      let none_dropped : seq ≡ seq + 0 = omega arith in
      subst (λ n. IsChain signer n prev ys) none_dropped h
  IsChain-drop signer seq prev (x ∷ xs) ys (h, hs) =
      let shifted : (seq + 1) + length xs ≡ seq + length (x ∷ xs) = omega arith in
      subst (λ n. IsChain signer n (last_mac x.record_hmac xs) ys) shifted
        (IsChain-drop signer (seq + 1) x.record_hmac xs ys hs)

  is_linked_iff :
      (seq : ℕ) (prev : Bytes) (x : Stored R)
      → (is_linked seq prev x ≡ true) ↔ ((x.seq ≡ seq) × (x.prev_hash ≡ prev))
  is_linked_iff seq prev x = ground (arith, codes_beq_iff x.prev_hash prev, nat_beq_iff x.seq seq)

  -- A chain is intact exactly when every link is in its place, and then all of it was checked.
  pub verify_chain-IsChain :
      (signer : MacSigner) (seq : ℕ) (prev : Bytes) (n : ℕ) (xs : List (Stored R))
      → IsChain signer seq prev xs
      → verify_chain canonical signer seq prev n xs ≡ ok (intact_report (n + length xs))
  unfolding verify_chain
  verify_chain-IsChain signer seq prev n [] h =
      let same : n ≡ n + 0 = omega arith in ap (λ m. ok (intact_report m)) same
  verify_chain-IsChain signer seq prev n (x ∷ xs) ((here, linked, good), hs) =
      let placed : is_linked seq prev x ≡ true = (is_linked_iff seq prev x).1 (here, linked) in
      let shifted : (n + 1) + length xs ≡ n + length (x ∷ xs) = omega arith in
      rw (placed, good)
        (verify_chain-IsChain signer (seq + 1) x.record_hmac (n + 1) xs hs
          ∙ ap (λ m. ok (intact_report m)) shifted)

  pub verify_chain_sound :
      (signer : MacSigner) (seq : ℕ) (prev : Bytes) (n : ℕ) (xs : List (Stored R))
      (report : ChainReport)
      → verify_chain canonical signer seq prev n xs ≡ ok report
      → is_acceptable report.status ≡ true
      → IsChain signer seq prev xs
  unfolding verify_chain is_acceptable
  verify_chain_sound signer seq prev n [] report h sound = tt
  verify_chain_sound signer seq prev n (x ∷ xs) report h sound =
      elim (Bool-cases (is_linked seq prev x)) [
        | inr misplaced ↦
            let same : ok (broken_at n x.seq) ≡ ok report = rw misplaced at h in absurd (cc)
        | inl placed ↦
            let (here, linked) = (is_linked_iff seq prev x).0 placed in
            elim (Result-cases (authenticate canonical signer x)) [
              | inl (e, raised) ↦ elim (Bool-cases (is_signing_unavailable e)) [
                | inl away ↦
                    let same : ok (record {
                      status = IntegrityStatus.unverifiable;
                      checked = n;
                      first_broken = none;
                    })
                        ≡ ok report =
                      rw (placed, raised, away) at h in
                    absurd (cc)
                | inr other ↦ absurd (err≢ok (rw (placed, raised, other) at h))
              ]
              | inr (b, answered) ↦ elim (Bool-cases b) [
                | inl authentic ↦
                    let good : authenticate canonical signer x ≡ ok true = cc in
                    (
                      (here, linked, good),
                      verify_chain_sound signer (seq + 1) x.record_hmac (n + 1) xs report
                          (rw (placed, good) at h) sound,
                    )
                | inr forged ↦
                    let bad : authenticate canonical signer x ≡ ok false = cc in
                    let same : ok (broken_at n x.seq) ≡ ok report = rw (placed, bad) at h in
                    absurd (cc)
              ]
            ]
      ]

  on_mac-eq-ok : (m : Result Bytes) {mac : Bytes} → on_mac m ≡ ok mac → m ≡ ok mac
  on_mac-eq-ok (ok mac) h = h
  on_mac-eq-ok (err e) h = elim (Bool-cases (is_signing_unavailable e)) [
    | inl away ↦ absurd (err≢ok (rw away at h))
    | inr other ↦ absurd (err≢ok (rw other at h))
  ]

  authenticate-eq_ok :
      (signer : MacSigner) (x : Stored R) (payload : Bytes)
      → chain_payload canonical x.seq x.prev_hash x.entry ≡ ok payload
      → signer.verify_mac payload x.record_hmac x.signer_key_id ≡ ok true
      → authenticate canonical signer x ≡ ok true
  unfolding authenticate
  authenticate-eq_ok signer x payload paid accepted = rw paid accepted

  -- The link that an append makes is one that a walk accepts.
  pub make_link-IsLink :
      (signer writer : MacSigner) (seq : ℕ) (prev : Bytes) (r : R) (x : Stored R)
      → Accepts signer writer
      → make_link canonical writer seq prev r ≡ ok x
      → (x.entry ≡ r) × IsLink signer seq prev x
  unfolding make_link
  make_link-IsLink signer writer seq prev r x own h =
      let (payload, paid, h1) = >>=-eq-ok (chain_payload canonical seq prev r) _ h in
      let (mac, signed, h2) = >>=-eq-ok (on_mac (writer.mac payload)) _ h1 in
      let y : Stored R = record {
        entry = r;
        seq = seq;
        prev_hash = prev;
        record_hmac = mac;
        signer_key_id = writer.key_id;
      } in
      let made : ok y ≡ ok x = h2 in
      let same : y ≡ x = cc in
      let good : authenticate canonical signer y ≡ ok true =
        authenticate-eq_ok signer y payload paid
          (own payload mac (on_mac-eq-ok (writer.mac payload) signed)) in
      subst (λ z. (z.entry ≡ r) × IsLink signer seq prev z) same (refl, (refl, refl, good))

  authenticate-Extends :
      (signer next : MacSigner) (x : Stored R)
      → Extends signer next
      → authenticate canonical signer x ≡ ok true
      → authenticate canonical next x ≡ ok true
  unfolding authenticate
  authenticate-Extends signer next x more h =
      let (payload, paid, accepted) =
        >>=-eq-ok (chain_payload canonical x.seq x.prev_hash x.entry) _ h in
      rw paid (more payload x.record_hmac x.signer_key_id accepted)

  pub IsChain-Extends :
      (signer next : MacSigner) (seq : ℕ) (prev : Bytes) (xs : List (Stored R))
      → Extends signer next
      → IsChain signer seq prev xs
      → IsChain next seq prev xs
  IsChain-Extends signer next seq prev [] more h = tt
  IsChain-Extends signer next seq prev (x ∷ xs) more ((here, linked, good), hs) = (
    (here, linked, authenticate-Extends signer next x more good),
    IsChain-Extends signer next (seq + 1) x.record_hmac xs more hs,
  )
