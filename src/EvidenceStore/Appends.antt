-- ===== src/EvidenceStore/Appends.antt =====
-- glassbox/adapters/outbound/memory/evidence.py: an append continues the chain of its segment.
use glassbox_agentic_governa.Prelude.{
  ℕ, ◌≡◌, refl, sym, ap, ◌∙◌, String, Bool, true, false, not, ◌||◌, List, [], ◌∷◌, ◌++◌, is_empty,
  nat_beq, if◌then◌else◌, ◌==◌, string_eq, Bool-cases, Option-cases, inl, inr,
}
use mathlib.Core.Path.{subst}
use glassbox_agentic_governa.Prelude.Dict.{lookup, insert}
use glassbox_agentic_governa.Errors.{Result, ok, err}
use glassbox_agentic_governa.Evidence.{IntentRecord, EvidenceReceipt}
use glassbox_agentic_governa.Merkle.{Bytes}
use glassbox_agentic_governa.EvidenceStore.{MacSigner, Stored, genesis_prev_hash, last_mac}
use glassbox_agentic_governa.EvidenceStore.Chains.{
  Accepts, IsChain, IsLink, IsChain-append, make_link-IsLink,
}
use glassbox_agentic_governa.EvidenceStore.Reports.{make_receipt}
use glassbox_agentic_governa.EvidenceStore.Store.{
  StoredRecord, EvidenceStore, get, open_segment, store_record, next_seq, next_link, append_intent,
  expected_first, on_link, on_receipt, receipt_of,
}
use glassbox_agentic_governa.EvidenceStore.Fields.{get-insert, get-setdefault, AreChained}

last_mac_start :
    {R : Type 0} (n : ℕ) (start other : Bytes) (xs : List (Stored R))
    → (nat_beq n 0 || not (is_empty xs)) ≡ true
    → last_mac (if nat_beq n 0 then start else other) xs ≡ last_mac start xs
unfolding last_mac
last_mac_start n start other (x ∷ xs) live = refl
last_mac_start n start other [] live = elim (Bool-cases (nat_beq n 0)) [
  | inl never ↦ rw never refl
  | inr before ↦ let refuted : false ≡ true = rw before at live in absurd (cc)
]

-- The store accepts the next record of a segment as its continuation.
abbrev pub is_live : String → EvidenceStore → Bool
is_live g s = nat_beq (get 0 g s.purged) 0 || not (is_empty (get [] g s.segments))

module _ (intent_payload : ℕ → Bytes → IntentRecord → Bytes) where
  last_mac_live :
      (g : String) (s : EvidenceStore)
      → is_live g s ≡ true
      → last_mac (expected_first g s) (get [] g s.segments)
        ≡ last_mac genesis_prev_hash (get [] g s.segments)
  unfolding expected_first
  last_mac_live g s live =
      last_mac_start (get 0 g s.purged) genesis_prev_hash (get genesis_prev_hash g s.chain_anchor)
        (get [] g s.segments) live

  open_segment-AreChained :
      (signer : MacSigner) (r : IntentRecord) (s : EvidenceStore)
      → AreChained intent_payload signer s
      → AreChained intent_payload signer (open_segment r s)
  unfolding open_segment expected_first
  open_segment-AreChained signer r s h g =
      subst (λ xs. IsChain intent_payload signer (get 0 g s.purged) (expected_first g s) xs)
        (sym (get-setdefault [] r.segment_id g s.segments)) (h g)

  store_record-AreChained :
      (signer : MacSigner) (r : IntentRecord) (x : StoredRecord) (s : EvidenceStore)
      → AreChained intent_payload signer s
      → IsLink intent_payload signer
          (next_seq r.segment_id s)
          (last_mac (expected_first r.segment_id s) (get [] r.segment_id s.segments))
          x
      → AreChained intent_payload signer (store_record r x s)
  unfolding store_record next_seq expected_first
  store_record-AreChained signer r x s h linked g =
      let segment = get [] r.segment_id s.segments in
      let grown = insert r.segment_id (segment ++ (x ∷ [])) s.segments in
      let chain : List StoredRecord → Type 0 =
        λ xs. IsChain intent_payload signer (get 0 g s.purged) (expected_first g s) xs in
      let read = get-insert [] (segment ++ (x ∷ [])) r.segment_id g s.segments in
      elim (Bool-cases (r.segment_id == g)) [
        | inr different ↦ subst chain (sym (read ∙ rw different refl)) (h g)
        | inl same ↦
            let named : r.segment_id ≡ g = (string_eq.beq_iff r.segment_id g).0 same in
            let longer =
              IsChain-append intent_payload signer (get 0 r.segment_id s.purged)
                (expected_first r.segment_id s) segment x (h r.segment_id) linked in
            subst chain (sym (read ∙ rw same refl)) (
              subst
                (λ k.
                  IsChain intent_payload signer (get 0 k s.purged) (expected_first k s)
                    (segment ++ (x ∷ [])))
                named longer)
      ]

  on_receipt-AreChained :
      (signer : MacSigner) (s : EvidenceStore) (made : Result EvidenceReceipt)
      → AreChained intent_payload signer s
      → AreChained intent_payload signer (on_receipt s made).1
  unfolding expected_first
  on_receipt-AreChained signer s (err e) h = h
  on_receipt-AreChained signer s (ok receipt) h = h

  on_link-AreChained :
      (signer writer : MacSigner) (r : IntentRecord) (s : EvidenceStore)
      (link : Result StoredRecord)
      → Accepts signer writer
      → is_live r.segment_id s ≡ true
      → next_link intent_payload writer r s ≡ link
      → AreChained intent_payload signer s
      → AreChained intent_payload signer (on_link r s link).1
  unfolding next_link
  on_link-AreChained signer writer r s (err e) own live made h = h
  on_link-AreChained signer writer r s (ok x) own live made h =
      let (_, linked) =
        make_link-IsLink intent_payload signer writer (next_seq r.segment_id s)
          (last_mac genesis_prev_hash (get [] r.segment_id s.segments)) r x own made in
      on_receipt-AreChained signer (store_record r x s) (make_receipt (receipt_of r x)) (
        store_record-AreChained signer r x s h (
          subst (λ prev. IsLink intent_payload signer (next_seq r.segment_id s) prev x)
            (sym (last_mac_live r.segment_id s live)) linked))

  open_segment-is_live :
      (r : IntentRecord) (s : EvidenceStore) (g : String)
      → is_live g (open_segment r s) ≡ is_live g s
  unfolding open_segment
  open_segment-is_live r s g =
      ap (λ xs. nat_beq (get 0 g s.purged) 0 || not (is_empty xs))
        (get-setdefault [] r.segment_id g s.segments)

  pub append_intent-AreChained :
      (signer writer : MacSigner) (r : IntentRecord) (s : EvidenceStore)
      → Accepts signer writer
      → is_live r.segment_id s ≡ true
      → AreChained intent_payload signer s
      → AreChained intent_payload signer (append_intent intent_payload writer r s).1
  unfolding append_intent
  append_intent-AreChained signer writer r s own live h =
      elim (Option-cases (lookup r.decision_id s.receipts)) [
        | inr (receipt, found) ↦ rw (found, append_intent) h
        | inl missing ↦
            rw (missing, append_intent)
              (on_link-AreChained signer writer r (open_segment r s)
                (next_link intent_payload writer r (open_segment r s)) own
                (open_segment-is_live r s r.segment_id ∙ live) refl
                (open_segment-AreChained signer r s h))
      ]
