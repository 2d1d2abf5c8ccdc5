-- ===== src/EvidenceStore/Purges.antt =====
-- glassbox/adapters/outbound/memory/evidence.py: a purge leaves chains that go on from its anchor.
use glassbox_agentic_governa.Prelude.{
  ℕ, ◌+◌, ◌≡◌, refl, sym, ap, ◌∙◌, String, false, List, [], ◌∷◌, ◌++◌, length, nat_beq,
  if◌then◌else◌, ◌==◌, string_eq, leb, arith, Bool-cases, inl, inr,
}
use mathlib.Core.Path.{subst}
use glassbox_agentic_governa.Prelude.Dict.{lookup}
use glassbox_agentic_governa.Evidence.{IntentRecord}
use glassbox_agentic_governa.Merkle.{Bytes}
use glassbox_agentic_governa.EvidenceStore.{MacSigner, genesis_prev_hash, last_mac}
use glassbox_agentic_governa.EvidenceStore.Chains.{IsChain, IsChain-drop}
use glassbox_agentic_governa.EvidenceStore.Store.{StoredRecord, EvidenceStore, get, expected_first}
use glassbox_agentic_governa.EvidenceStore.Retention.{
  purged_prefix, kept_suffix, purge_prefix, seal_and_purge, purge_before, is_anchored,
}
use glassbox_agentic_governa.EvidenceStore.Fields.{get-insert, AreChained}

module _ (intent_payload : ℕ → Bytes → IntentRecord → Bytes) where
  purged-append-kept :
      (n : ℕ) (xs : List StoredRecord) → purged_prefix n xs ++ kept_suffix n xs ≡ xs
  unfolding purged_prefix kept_suffix
  purged-append-kept n [] = refl
  purged-append-kept n (x ∷ xs) = elim (Bool-cases (leb n x.seq)) [
    | inl stays ↦ rw stays refl
    | inr goes ↦ rw goes (ap (λ ys. x ∷ ys) (purged-append-kept n xs))
  ]

  -- A chain at a number, from the anchor where something was purged.
  abbrev ChainFrom : MacSigner → ℕ → Bytes → List StoredRecord → Type 0
  ChainFrom signer n anchor xs =
      IsChain intent_payload signer n (if nat_beq n 0 then genesis_prev_hash else anchor) xs

  ChainFrom-ext :
      (signer : MacSigner) {n m : ℕ} {a b : Bytes} {xs ys : List StoredRecord}
      → m ≡ n
      → b ≡ a
      → ys ≡ xs
      → ChainFrom signer n a xs
      → ChainFrom signer m b ys
  ChainFrom-ext signer {n} {m} {a} {b} {xs} {ys} p q r h =
      subst (λ k. ChainFrom signer k b ys) (sym p)
        (subst (λ c. ChainFrom signer n c ys) (sym q)
          (subst (λ zs. ChainFrom signer n a zs) (sym r) h))

  -- What is left after a purge goes on from the anchor.
  ChainFrom-drop :
      (signer : MacSigner) (n : ℕ) (prev : Bytes) (x : StoredRecord) (xs kept : List StoredRecord)
      → IsChain intent_payload signer n prev ((x ∷ xs) ++ kept)
      → ChainFrom signer (n + length (x ∷ xs)) (last_mac genesis_prev_hash (x ∷ xs)) kept
  unfolding last_mac
  ChainFrom-drop signer n prev x xs kept h =
      let dropped : nat_beq (n + length (x ∷ xs)) 0 ≡ false = ground arith in
      rw dropped (IsChain-drop intent_payload signer n prev (x ∷ xs) kept h)

  purge_prefix-AreChained :
      (signer : MacSigner) (g : String) (xs kept : List StoredRecord) (s : EvidenceStore)
      → get [] g s.segments ≡ xs ++ kept
      → AreChained intent_payload signer s
      → AreChained intent_payload signer (purge_prefix g xs kept s).1
  unfolding purge_prefix expected_first
  purge_prefix-AreChained signer g [] kept s split h k = h k
  purge_prefix-AreChained signer g (x ∷ xs) kept s split h k =
      let count = get 0 g s.purged + length (x ∷ xs) in
      let mac = last_mac genesis_prev_hash (x ∷ xs) in
      let read_n = get-insert 0 count g k s.purged in
      let read_a = get-insert genesis_prev_hash mac g k s.chain_anchor in
      let read_xs = get-insert [] kept g k s.segments in
      elim (Bool-cases (g == k)) [
        | inl same ↦
            ChainFrom-ext signer (read_n ∙ rw same refl) (read_a ∙ rw same refl)
              (read_xs ∙ rw same refl)
              (ChainFrom-drop signer (get 0 g s.purged) (expected_first g s) x xs kept (
                subst
                  (λ ys. IsChain intent_payload signer (get 0 g s.purged) (expected_first g s) ys)
                  split (h g)))
        | inr different ↦
            ChainFrom-ext signer (read_n ∙ rw different refl) (read_a ∙ rw different refl)
              (read_xs ∙ rw different refl) (h k)
      ]

  pub seal_and_purge-AreChained :
      (signer : MacSigner) (g : String) (n : ℕ) (s : EvidenceStore)
      → AreChained intent_payload signer s
      → AreChained intent_payload signer (seal_and_purge g n s).1
  unfolding seal_and_purge
  seal_and_purge-AreChained signer g n s h =
      purge_prefix-AreChained signer g (purged_prefix n (get [] g s.segments))
        (kept_suffix n (get [] g s.segments)) s (sym (purged-append-kept n (get [] g s.segments))) h

  pub purge_before-AreChained :
      (signer : MacSigner) (g : String) (n : ℕ) (s : EvidenceStore)
      → AreChained intent_payload signer s
      → AreChained intent_payload signer (purge_before g n s).1
  unfolding purge_before
  purge_before-AreChained signer g n s h =
      elim (Bool-cases (is_anchored n (lookup g s.worm_anchors))) [
        | inl anchored ↦ rw anchored (seal_and_purge-AreChained signer g n s h)
        | inr loose ↦ rw loose h
      ]
