-- ===== src/EvidenceStore/PurgedOut.antt =====
-- glassbox/adapters/outbound/memory/evidence.py: an append to a segment from which every record was
-- purged. append_intent starts from the genesis hash there, and verify expects the anchor.
use glassbox_agentic_governa.Prelude.{
  ℕ, ◌≡◌, refl, sym, ap, ◌∙◌, String, Bool, true, false, ◌&&◌, none, some, [], ◌∷◌, ◌++◌, string_eq,
  nat_beq,
}
use mathlib.Core.Path.{subst}
use glassbox_agentic_governa.Prelude.Text.{codes_beq}
use glassbox_agentic_governa.Prelude.Dict.{lookup, insert, lookup-insert_self}
use glassbox_agentic_governa.Errors.{Result, ok, err, err≢ok}
use glassbox_agentic_governa.Evidence.{IntentRecord, EvidenceReceipt}
use glassbox_agentic_governa.Merkle.{Bytes}
use glassbox_agentic_governa.EvidenceStore.{
  MacSigner, ChainReport, genesis_prev_hash, last_mac, verify_chain, broken_at, is_linked,
}
use glassbox_agentic_governa.EvidenceStore.Reports.{make_receipt}
use glassbox_agentic_governa.EvidenceStore.Store.{
  StoredRecord, EvidenceStore, get, open_segment, store_record, next_seq, next_link, append_intent,
  on_link, on_receipt, receipt_of, verify_segment, expected_first, intact_status,
}
use glassbox_agentic_governa.EvidenceStore.Fields.{get-setdefault}
use glassbox_agentic_governa.EvidenceStore.Log.{make_receipt-eq_ok, make_link-fields}

and_false : (a : Bool) {b : Bool} → b ≡ false → (a && b) ≡ false
and_false true h = h
and_false false h = refl

module _ (intent_payload : ℕ → Bytes → IntentRecord → Bytes) where
  abbrev pub reported : EvidenceStore → MacSigner → String → Result ChainReport
  reported s signer g = verify_segment intent_payload signer g s (lookup g s.segments)

  not_linked :
      (n : ℕ) (prev : Bytes) (x : StoredRecord)
      → x.prev_hash ≡ genesis_prev_hash
      → codes_beq genesis_prev_hash prev ≡ false
      → is_linked n prev x ≡ false
  not_linked n prev x start differ =
      let apart : codes_beq x.prev_hash prev ≡ false =
        subst (λ p. codes_beq p prev ≡ false) (sym start) differ in
      and_false (nat_beq x.seq n) apart

  -- A segment with one record, which is linked to the genesis hash.
  reported_broken :
      (signer : MacSigner) (g : String) (t : EvidenceStore) (x : StoredRecord)
      → lookup g t.segments ≡ some (x ∷ [])
      → x.prev_hash ≡ genesis_prev_hash
      → codes_beq genesis_prev_hash (expected_first g t) ≡ false
      → reported t signer g ≡ ok (broken_at 0 x.seq)
  unfolding verify_segment verify_chain intact_status
  reported_broken signer g t x found start differ =
      let misplaced : is_linked (get 0 g t.purged) (expected_first g t) x ≡ false =
        not_linked (get 0 g t.purged) (expected_first g t) x start differ in
      rw (found, misplaced) refl

  receipt_seq :
      (r : IntentRecord) (x : StoredRecord) (made : Result EvidenceReceipt)
      (receipt : EvidenceReceipt) (s : EvidenceStore)
      → make_receipt (receipt_of r x) ≡ made
      → (on_receipt (store_record r x s) made).0 ≡ ok receipt
      → x.seq ≡ receipt.seq
  receipt_seq r x (err e) receipt s built h = absurd (err≢ok h)
  receipt_seq r x (ok issued) receipt s built h =
      let same : issued ≡ receipt = cc in
      ap (λ q. q.seq) (make_receipt-eq_ok (receipt_of r x) issued built ∙ same)

  stored :
      (r : IntentRecord) (x : StoredRecord) (s : EvidenceStore)
      → get [] r.segment_id s.segments ≡ []
      → lookup r.segment_id (store_record r x s).segments ≡ some (x ∷ [])
  unfolding store_record
  stored r x s none_left =
      lookup-insert_self r.segment_id (get [] r.segment_id s.segments ++ (x ∷ [])) s.segments
      ∙ ap (λ xs. some (xs ++ (x ∷ []))) none_left

  -- What the store reports after the link of an intent is stored in an empty segment.
  on_receipt-broken :
      (signer : MacSigner) (r : IntentRecord) (x : StoredRecord) (s : EvidenceStore)
      (made : Result EvidenceReceipt)
      → get [] r.segment_id s.segments ≡ []
      → x.prev_hash ≡ genesis_prev_hash
      → codes_beq genesis_prev_hash (expected_first r.segment_id s) ≡ false
      → reported (on_receipt (store_record r x s) made).1 signer r.segment_id
        ≡ ok (broken_at 0 x.seq)
  unfolding verify_segment store_record expected_first
  on_receipt-broken signer r x s (err e) none_left start differ =
      reported_broken signer r.segment_id (store_record r x s) x (stored r x s none_left) start
        differ
  on_receipt-broken signer r x s (ok issued) none_left start differ =
      let t = store_record r x s in
      reported_broken signer r.segment_id
        (record t { receipts = insert issued.decision_id issued t.receipts }) x
        (stored r x s none_left) start differ

  on_link_broken :
      (signer : MacSigner) (r : IntentRecord) (s : EvidenceStore) (receipt : EvidenceReceipt)
      (link : Result StoredRecord)
      → get [] r.segment_id s.segments ≡ []
      → codes_beq genesis_prev_hash (expected_first r.segment_id s) ≡ false
      → next_link intent_payload signer r s ≡ link
      → (on_link r s link).0 ≡ ok receipt
      → reported (on_link r s link).1 signer r.segment_id ≡ ok (broken_at 0 receipt.seq)
  unfolding next_link last_mac
  on_link_broken signer r s receipt (err e) none_left differ made h = absurd (err≢ok h)
  on_link_broken signer r s receipt (ok x) none_left differ made h =
      let (_, _, linked) =
        make_link-fields intent_payload signer (next_seq r.segment_id s)
          (last_mac genesis_prev_hash (get [] r.segment_id s.segments)) r x made in
      let start : x.prev_hash ≡ genesis_prev_hash =
        linked ∙ ap (last_mac genesis_prev_hash) none_left in
      on_receipt-broken signer r x s (make_receipt (receipt_of r x)) none_left start differ
      ∙ ap (λ n. ok (broken_at 0 n))
          (receipt_seq r x (make_receipt (receipt_of r x)) receipt s refl h)

  -- A segment that lost its last record to a purge is reported as broken after the next append,
  -- although nothing was altered: where an intent with a new decision is appended to a segment
  -- without records, and the link that verification expects of a first record is not the genesis
  -- hash, an append that returns a receipt leaves a segment that is reported as broken, at the
  -- number of that receipt.
  pub append_intent-purged_out :
      (signer : MacSigner) (r : IntentRecord) (s : EvidenceStore) (receipt : EvidenceReceipt)
      → lookup r.decision_id s.receipts ≡ none
      → get [] r.segment_id s.segments ≡ []
      → codes_beq genesis_prev_hash (expected_first r.segment_id s) ≡ false
      → (append_intent intent_payload signer r s).0 ≡ ok receipt
      → reported (append_intent intent_payload signer r s).1 signer r.segment_id
        ≡ ok (broken_at 0 receipt.seq)
  unfolding append_intent open_segment expected_first next_link
  append_intent-purged_out signer r s receipt new none_left differ h =
      let opened = open_segment r s in
      let link = next_link intent_payload signer r opened in
      let emptied : get [] r.segment_id opened.segments ≡ [] =
        get-setdefault [] r.segment_id r.segment_id s.segments ∙ none_left in
      let returned : (on_link r opened link).0 ≡ ok receipt = rw (new, append_intent) at h in
      rw (new, append_intent)
        (on_link_broken signer r opened receipt link emptied differ refl returned)
