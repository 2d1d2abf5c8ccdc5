-- ===== src/EvidenceStore/Log.antt =====
-- glassbox/adapters/outbound/memory/evidence.py: what append_intent promises to its callers, on an
-- abstract view of the store: for every segment the sequence of its live records.
use glassbox_agentic_governa.Prelude.{
  ℕ, ◌+◌, ◌≡◌, refl, sym, ap, ◌∙◌, String, true, Option, none, some, List, [], ◌∷◌, ◌++◌, map,
  length, if◌then◌else◌, ◌==◌, string_eq, nat_beq_iff, Bool-cases, inl, inr, ◌⊎◌, arith,
}
use mathlib.Core.Path.{subst}
use glassbox_agentic_governa.Prelude.Text.{codes, codes_beq_iff}
use glassbox_agentic_governa.Prelude.Dict.{lookup, insert, lookup-insert_self, beq_refl}
use glassbox_agentic_governa.Errors.{Result, ok, err, err≢ok, >>=-eq-ok}
use glassbox_agentic_governa.Serialization.{require_identifier, require_timestamp}
use glassbox_agentic_governa.Evidence.{IntentRecord, EvidenceReceipt}
use glassbox_agentic_governa.Merkle.{Bytes}
use glassbox_agentic_governa.EvidenceStore.{
  MacSigner, genesis_prev_hash, make_link, last_mac, on_mac, chain_payload,
}
use glassbox_agentic_governa.EvidenceStore.Reports.{make_receipt, require_mac}
use glassbox_agentic_governa.EvidenceStore.Store.{
  StoredRecord, EvidenceStore, get, setdefault, open_segment, store_record, next_seq, next_link,
  append_intent, on_link, on_receipt, on_existing, receipt_of, receipt_beq, has_receipt,
}
use glassbox_agentic_governa.EvidenceStore.Fields.{get-insert, get-setdefault}

-- The abstract view, and the append on it.
abbrev pub log_of : EvidenceStore → String → List IntentRecord
log_of s g = map (λ x. x.entry) (get [] g s.segments)

abbrev pub log_append : IntentRecord → (String → List IntentRecord) → String → List IntentRecord
log_append r log g = if r.segment_id == g then log g ++ (r ∷ []) else log g

pub make_receipt-eq_ok : (a b : EvidenceReceipt) → make_receipt a ≡ ok b → a ≡ b
unfolding make_receipt
make_receipt-eq_ok a b h =
    let (_, _, h1) = >>=-eq-ok (require_identifier (codes a.decision_id) "decision_id") _ h in
    let (_, _, h2) = >>=-eq-ok (require_identifier (codes a.segment_id) "segment_id") _ h1 in
    let (_, _, h3) = >>=-eq-ok (require_mac a.record_hmac "record_hmac") _ h2 in
    let (_, _, h4) = >>=-eq-ok (require_identifier (codes a.signer_key_id) "signer_key_id") _ h3 in
    let (_, _, h5) = >>=-eq-ok (require_timestamp a.persisted_at "persisted_at") _ h4 in cc

receipt_beq_refl : (a : EvidenceReceipt) → receipt_beq a a ≡ true
unfolding receipt_beq
receipt_beq_refl a = ground (
  arith,
  beq_refl a.decision_id,
  beq_refl a.segment_id,
  beq_refl a.signer_key_id,
  (nat_beq_iff a.seq a.seq).1 refl,
  (nat_beq_iff a.persisted_at a.persisted_at).1 refl,
  (codes_beq_iff a.record_hmac a.record_hmac).1 refl,
)

map-append : {A B : Type 0} (f : A → B) (xs ys : List A) → map f (xs ++ ys) ≡ map f xs ++ map f ys
map-append f [] ys = refl
map-append f (x ∷ xs) ys = ap (λ r. f x ∷ r) (map-append f xs ys)

store_record-log :
    (r : IntentRecord) (x : StoredRecord) (s : EvidenceStore) (g : String)
    → x.entry ≡ r
    → log_of (store_record r x (open_segment r s)) g ≡ log_append r (log_of s) g
unfolding store_record open_segment
store_record-log r x s g entry =
    let entries : List StoredRecord → List IntentRecord = λ xs. map (λ y. y.entry) xs in
    let m = setdefault r.segment_id [] s.segments in
    let read = get-insert [] (get [] r.segment_id m ++ (x ∷ [])) r.segment_id g m in
    elim (Bool-cases (r.segment_id == g)) [
      | inr other ↦
          rw other (ap entries (read ∙ rw other (get-setdefault [] r.segment_id g s.segments)))
      | inl same ↦
          let named : r.segment_id ≡ g = (string_eq.beq_iff r.segment_id g).0 same in
          let before : get [] r.segment_id m ≡ get [] g s.segments =
            get-setdefault [] r.segment_id r.segment_id s.segments
            ∙ ap (λ k. get [] k s.segments) named in
          rw same (
            ap entries (read ∙ rw same (ap (λ xs. xs ++ (x ∷ [])) before))
            ∙ map-append (λ y. y.entry) (get [] g s.segments) (x ∷ [])
            ∙ ap (λ q. entries (get [] g s.segments) ++ (q ∷ [])) entry)
    ]

module _ (intent_payload : ℕ → Bytes → IntentRecord → Bytes) where
  pub make_link-fields :
      (signer : MacSigner) (seq : ℕ) (prev : Bytes) (r : IntentRecord) (x : StoredRecord)
      → make_link intent_payload signer seq prev r ≡ ok x
      → (x.entry ≡ r) × (x.seq ≡ seq) × (x.prev_hash ≡ prev)
  unfolding make_link
  make_link-fields signer seq prev r x h =
      let (payload, _, h1) = >>=-eq-ok (chain_payload intent_payload seq prev r) _ h in
      let (mac, _, h2) = >>=-eq-ok (on_mac (signer.mac payload)) _ h1 in (cc, cc, cc)

  -- What an append that returns a receipt has done.
  abbrev pub Appended : IntentRecord → EvidenceStore → EvidenceReceipt → EvidenceStore → Type 0
  Appended r s receipt after =
      ((lookup r.decision_id s.receipts ≡ some receipt) × (after ≡ s))
      ⊎ ((lookup r.decision_id s.receipts ≡ none)
          × ((g : String) → log_of after g ≡ log_append r (log_of s) g)
          × (receipt.decision_id ≡ r.decision_id)
          × (receipt.segment_id ≡ r.segment_id)
          × (receipt.seq ≡ next_seq r.segment_id s)
          × (has_receipt receipt after ≡ true))

  next_seq-open_segment :
      (r : IntentRecord) (s : EvidenceStore) (g : String)
      → next_seq g (open_segment r s) ≡ next_seq g s
  unfolding next_seq open_segment
  next_seq-open_segment r s g =
      ap (λ xs. get 0 g s.purged + length xs) (get-setdefault [] r.segment_id g s.segments)

  has_receipt-inserted :
      (receipt : EvidenceReceipt) (s : EvidenceStore)
      → has_receipt receipt (record s { receipts = insert receipt.decision_id receipt s.receipts })
        ≡ true
  unfolding has_receipt
  has_receipt-inserted receipt s =
      rw (lookup-insert_self receipt.decision_id receipt s.receipts, has_receipt)
        (receipt_beq_refl receipt)

  on_receipt-Appended :
      (r : IntentRecord) (x : StoredRecord) (s : EvidenceStore) (receipt : EvidenceReceipt)
      (made : Result EvidenceReceipt)
      → lookup r.decision_id s.receipts ≡ none
      → x.entry ≡ r
      → x.seq ≡ next_seq r.segment_id (open_segment r s)
      → make_receipt (receipt_of r x) ≡ made
      → (on_receipt (store_record r x (open_segment r s)) made).0 ≡ ok receipt
      → Appended r s receipt (on_receipt (store_record r x (open_segment r s)) made).1
  on_receipt-Appended r x s receipt (err e) new entry place built h = absurd (err≢ok h)
  on_receipt-Appended r x s receipt (ok issued) new entry place built h =
      let t = store_record r x (open_segment r s) in
      let fields : receipt_of r x ≡ issued = make_receipt-eq_ok (receipt_of r x) issued built in
      let same : issued ≡ receipt = cc in
      subst (λ q. Appended r s q (on_receipt t (ok issued)).1) same
        (inr (
          new,
          (λ g. store_record-log r x s g entry),
          ap (λ q. q.decision_id) (sym fields),
          ap (λ q. q.segment_id) (sym fields),
          ap (λ q. q.seq) (sym fields) ∙ place ∙ next_seq-open_segment r s r.segment_id,
          has_receipt-inserted issued t,
        ))

  on_link-Appended :
      (signer : MacSigner) (r : IntentRecord) (s : EvidenceStore) (receipt : EvidenceReceipt)
      (link : Result StoredRecord)
      → lookup r.decision_id s.receipts ≡ none
      → next_link intent_payload signer r (open_segment r s) ≡ link
      → (on_link r (open_segment r s) link).0 ≡ ok receipt
      → Appended r s receipt (on_link r (open_segment r s) link).1
  unfolding next_link
  on_link-Appended signer r s receipt (err e) new made h = absurd (err≢ok h)
  on_link-Appended signer r s receipt (ok x) new made h =
      let opened = open_segment r s in
      let (entry, place, _) =
        make_link-fields signer (next_seq r.segment_id opened)
          (last_mac genesis_prev_hash (get [] r.segment_id opened.segments)) r x made in
      on_receipt-Appended r x s receipt (make_receipt (receipt_of r x)) new entry place refl h

  on_existing-Appended :
      (signer : MacSigner) (r : IntentRecord) (s : EvidenceStore) (receipt : EvidenceReceipt)
      (known : Option EvidenceReceipt)
      → lookup r.decision_id s.receipts ≡ known
      → let link = next_link intent_payload signer r (open_segment r s) in
        (on_existing s (on_link r (open_segment r s) link) known).0 ≡ ok receipt
        → Appended r s receipt (on_existing s (on_link r (open_segment r s) link) known).1
  on_existing-Appended signer r s receipt (some issued) found h =
      let same : issued ≡ receipt = cc in inl (found ∙ ap (λ q. some q) same, refl)
  on_existing-Appended signer r s receipt none new h =
      on_link-Appended signer r s receipt (next_link intent_payload signer r (open_segment r s)) new
        refl h

  -- The append of an intent implements an append on sequences. Where it returns a receipt, either
  -- the decision had this receipt and nothing changes, or the decision had none; then, in every
  -- segment's sequence of live records, the record is now the last one of its own segment and
  -- nothing else changed, the receipt names the decision, the segment and the record's number
  -- there, and the store confirms the receipt.
  pub append_intent-Appended :
      (signer : MacSigner) (r : IntentRecord) (s : EvidenceStore) (receipt : EvidenceReceipt)
      → (append_intent intent_payload signer r s).0 ≡ ok receipt
      → Appended r s receipt (append_intent intent_payload signer r s).1
  unfolding append_intent
  append_intent-Appended signer r s receipt h =
      on_existing-Appended signer r s receipt (lookup r.decision_id s.receipts) refl h
