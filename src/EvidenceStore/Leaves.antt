-- ===== src/EvidenceStore/Leaves.antt =====
-- glassbox/adapters/outbound/memory/evidence.py: every record that a purge removes is among the leaves
-- of the range that is sealed.
use glassbox_agentic_governa.Prelude.{
  ℕ, zero, suc, ◌≡◌, refl, Bool, true, some, List, [], ◌∷◌, map, keep, All, All-map, get_elem?, leb,
  ltb, arith, Bool-cases, inl, inr,
}
use mathlib.Core.Path.{subst}
use glassbox_agentic_governa.EvidenceStore.Store.{StoredRecord}
use glassbox_agentic_governa.EvidenceStore.Retention.{purged_prefix, insert_by_seq, sort_by_seq}

-- A value stands at some place of a list.
abbrev pub Occurs : {A : Type 0} → A → List A → Type 0
Occurs x xs = (i : ℕ) × (get_elem? xs i ≡ some x)

Occurs-later : {A : Type 0} (x y : A) (xs : List A) → Occurs x xs → Occurs x (y ∷ xs)
Occurs-later x y xs (i, h) = (suc i, h)

pub Occurs-map :
    {A B : Type 0} (f : A → B) (x : A) (xs : List A) → Occurs x xs → Occurs (f x) (map f xs)
Occurs-map f x [] (i, h) = absurd (cc)
Occurs-map f x (y ∷ ys) (zero, h) = (0, cc)
Occurs-map f x (y ∷ ys) (suc i, h) = Occurs-later (f x) (f y) (map f ys) (Occurs-map f x ys (i, h))

pub Occurs-keep :
    {A : Type 0} (p : A → Bool) (x : A) (xs : List A)
    → p x ≡ true
    → Occurs x xs
    → Occurs x (keep p xs)
Occurs-keep p x [] good (i, h) = absurd (cc)
Occurs-keep p x (y ∷ ys) good (zero, h) = let kept : p y ≡ true = cc in rw kept (0, h)
Occurs-keep p x (y ∷ ys) good (suc i, h) =
    let rest = Occurs-keep p x ys good (i, h) in
    elim (Bool-cases (p y)) [
      | inl kept ↦ rw kept (Occurs-later x y (keep p ys) rest)
      | inr dropped ↦ rw dropped rest
    ]

inserted-Occurs : (x : StoredRecord) (ys : List StoredRecord) → Occurs x (insert_by_seq x ys)
unfolding insert_by_seq
inserted-Occurs x [] = (0, refl)
inserted-Occurs x (y ∷ ys) = elim (Bool-cases (leb x.seq y.seq)) [
  | inl first ↦ rw first (0, refl)
  | inr later ↦ rw later (Occurs-later x y (insert_by_seq x ys) (inserted-Occurs x ys))
]

Occurs-insert_by_seq :
    (x y : StoredRecord) (ys : List StoredRecord) → Occurs x ys → Occurs x (insert_by_seq y ys)
unfolding insert_by_seq
Occurs-insert_by_seq x y [] (i, h) = absurd (cc)
Occurs-insert_by_seq x y (z ∷ zs) (zero, h) = elim (Bool-cases (leb y.seq z.seq)) [
  | inl first ↦ rw first (1, h)
  | inr later ↦ rw later (0, h)
]
Occurs-insert_by_seq x y (z ∷ zs) (suc i, h) =
    let there = Occurs-insert_by_seq x y zs (i, h) in
    elim (Bool-cases (leb y.seq z.seq)) [
      | inl first ↦ rw first (suc (suc i), h)
      | inr later ↦ rw later (Occurs-later x z (insert_by_seq y zs) there)
    ]

pub Occurs-sort_by_seq :
    (x : StoredRecord) (xs : List StoredRecord) → Occurs x xs → Occurs x (sort_by_seq xs)
unfolding sort_by_seq
Occurs-sort_by_seq x [] h = h
Occurs-sort_by_seq x (y ∷ ys) (zero, h) =
    let same : y ≡ x = cc in
    subst (λ z. Occurs z (insert_by_seq y (sort_by_seq ys))) same
      (inserted-Occurs y (sort_by_seq ys))
Occurs-sort_by_seq x (y ∷ ys) (suc i, h) =
    Occurs-insert_by_seq x y (sort_by_seq ys) (Occurs-sort_by_seq x ys (i, h))

-- A purged record is below the bound and in the segment.
pub purged_prefix-Occurs :
    (n : ℕ) (xs : List StoredRecord)
    → All (λ x. (ltb x.seq n ≡ true) × Occurs x xs) (purged_prefix n xs)
unfolding purged_prefix
purged_prefix-Occurs n [] = tt
purged_prefix-Occurs n (x ∷ xs) = elim (Bool-cases (leb n x.seq)) [
  | inl stays ↦ rw stays (tt)
  | inr goes ↦
      let below : ltb x.seq n ≡ true = ground arith in
      rw goes (
        (below, (0, refl)),
        All-map (λ y. (ltb y.seq n ≡ true) × Occurs y xs)
            (λ y. (ltb y.seq n ≡ true) × Occurs y (x ∷ xs)) (λ y h. (h.0, Occurs-later y x xs h.1))
            (purged_prefix n xs) (purged_prefix-Occurs n xs),
      )
]
