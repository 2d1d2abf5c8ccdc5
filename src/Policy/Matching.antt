-- ===== src/Policy/Matching.antt =====
-- glassbox/domain/policy_bundle.py: which rule of a bundle wins.
use glassbox_agentic_governa.Prelude.{
  ℕ, ◌≡◌, ◌≤◌, true, false, not, none, some, List, [], ◌∷◌, leb, All, find, length, arith,
  Bool-cases, inl, inr,
}
use mathlib.Core.Path.{subst}
use glassbox_agentic_governa.Prelude.Text.{codes}
use glassbox_agentic_governa.Errors.{ok, require, >>=-eq-ok}
use glassbox_agentic_governa.Serialization.{require_identifier, require_timestamp}
use glassbox_agentic_governa.Action.{ProposedAction}
use glassbox_agentic_governa.Policy.{
  PolicyRule, PolicyBundle, matches, insert_rule, sort_rules, make_bundle, matching_rule,
  max_rules_per_bundle, repeats_name,
}

-- Every rule of the list has at least this priority number.
abbrev AtLeast : ℕ → List PolicyRule → Type 0
AtLeast n rs = All (λ r. n ≤ r.priority) rs

abbrev Sorted : List PolicyRule → Type 0
Sorted [] = Unit
Sorted (r ∷ rs) = AtLeast r.priority rs × Sorted rs

All-insert_rule :
    (P : PolicyRule → Type 0) (r : PolicyRule) (rs : List PolicyRule)
    → P r
    → All P rs
    → All P (insert_rule r rs)
unfolding insert_rule
All-insert_rule P r [] p ps = (p, tt)
All-insert_rule P r (q ∷ qs) p (pq, ps) = elim (Bool-cases (leb r.priority q.priority)) [
  | inl before ↦ rw before (p, (pq, ps))
  | inr after ↦ rw after (pq, All-insert_rule P r qs p ps)
]

insert_rule-All :
    (P : PolicyRule → Type 0) (r : PolicyRule) (rs : List PolicyRule)
    → All P (insert_rule r rs)
    → P r × All P rs
unfolding insert_rule
insert_rule-All P r [] (p, ps) = (p, tt)
insert_rule-All P r (q ∷ qs) h = elim (Bool-cases (leb r.priority q.priority)) [
  | inl before ↦ rw before at h
  | inr after ↦
      let (pq, rest) = rw after at h in let (p, ps) = insert_rule-All P r qs rest in (p, (pq, ps))
]

All-sort_rules : (P : PolicyRule → Type 0) (rs : List PolicyRule) → All P rs → All P (sort_rules rs)
unfolding sort_rules
All-sort_rules P [] h = tt
All-sort_rules P (r ∷ rs) (p, ps) = All-insert_rule P r (sort_rules rs) p (All-sort_rules P rs ps)

sort_rules-All : (P : PolicyRule → Type 0) (rs : List PolicyRule) → All P (sort_rules rs) → All P rs
unfolding sort_rules
sort_rules-All P [] h = tt
sort_rules-All P (r ∷ rs) h =
    let (p, ps) = insert_rule-All P r (sort_rules rs) h in (p, sort_rules-All P rs ps)

AtLeast-trans : (m n : ℕ) (rs : List PolicyRule) → m ≤ n → AtLeast n rs → AtLeast m rs
AtLeast-trans m n [] h g = tt
AtLeast-trans m n (r ∷ rs) h (g, gs) = (omega arith, AtLeast-trans m n rs h gs)

insert_rule-Sorted : (r : PolicyRule) (rs : List PolicyRule) → Sorted rs → Sorted (insert_rule r rs)
unfolding insert_rule
insert_rule-Sorted r [] h = (tt, tt)
insert_rule-Sorted r (q ∷ qs) (low, sorted) = elim (Bool-cases (leb r.priority q.priority)) [
  | inl before ↦
      let le : r.priority ≤ q.priority = ground arith in
      rw before ((le, AtLeast-trans r.priority q.priority qs le low), (low, sorted))
  | inr after ↦
      let le : q.priority ≤ r.priority = ground arith in
      rw after
        (All-insert_rule (λ x. q.priority ≤ x.priority) r qs le low, insert_rule-Sorted r qs sorted)
]

sort_rules-Sorted : (rs : List PolicyRule) → Sorted (sort_rules rs)
unfolding sort_rules
sort_rules-Sorted [] = tt
sort_rules-Sorted (r ∷ rs) = insert_rule-Sorted r (sort_rules rs) (sort_rules-Sorted rs)

make_bundle-rules : (b c : PolicyBundle) → make_bundle b ≡ ok c → c.rules ≡ sort_rules b.rules
unfolding make_bundle
make_bundle-rules b c h =
    let (_, _, h1) = >>=-eq-ok (require_identifier (codes b.bundle_id) "bundle_id") _ h in
    let (_, _, h2) = >>=-eq-ok (require_identifier (codes b.tenant_id) "tenant_id") _ h1 in
    let (_, _, h3) = >>=-eq-ok (require_timestamp b.created_at "created_at") _ h2 in
    let (_, _, h4) = >>=-eq-ok (require (leb (length b.rules) max_rules_per_bundle) _) _ h3 in
    let (_, _, h5) = >>=-eq-ok (require (not (repeats_name [] b.rules)) _) _ h4 in cc

-- No rule that matches is better than the given one.
abbrev pub Best : ProposedAction → PolicyRule → List PolicyRule → Type 0
Best a r rs = All (λ q. matches q a ≡ true → r.priority ≤ q.priority) rs

AtLeast-Best :
    (a : ProposedAction) (r : PolicyRule) (rs : List PolicyRule)
    → AtLeast r.priority rs
    → Best a r rs
AtLeast-Best a r [] h = tt
AtLeast-Best a r (q ∷ qs) (h, hs) = ((λ m. h), AtLeast-Best a r qs hs)

find-Best :
    (a : ProposedAction) (r : PolicyRule) (rs : List PolicyRule)
    → Sorted rs
    → find (λ q. matches q a) rs ≡ some r
    → (matches r a ≡ true) × Best a r rs
find-Best a r [] s h = cc
find-Best a r (q ∷ qs) (low, sorted) h = elim (Bool-cases (matches q a)) [
  | inl hit ↦
      let found : some q ≡ some r = rw hit at h in
      let same : q ≡ r = cc in
      subst (λ x. (matches x a ≡ true) × Best a x (q ∷ qs)) same
        (hit, ((λ m. omega arith), AtLeast-Best a q qs low))
  | inr miss ↦ let (m, best) = find-Best a r qs sorted (rw miss at h) in (m, ((λ hit. cc), best))
]

find-none :
    (a : ProposedAction) (rs : List PolicyRule)
    → find (λ q. matches q a) rs ≡ none
    → All (λ q. matches q a ≡ false) rs
find-none a [] h = tt
find-none a (q ∷ qs) h = elim (Bool-cases (matches q a)) [
  | inl hit ↦ cc
  | inr miss ↦ (miss, find-none a qs (rw miss at h))
]

find-All :
    (P : PolicyRule → Type 0) (a : ProposedAction) (r : PolicyRule) (rs : List PolicyRule)
    → find (λ q. matches q a) rs ≡ some r
    → All P rs
    → P r
find-All P a r [] h ps = cc
find-All P a r (q ∷ qs) h (p, ps) = elim (Bool-cases (matches q a)) [
  | inl hit ↦ let found : some q ≡ some r = rw hit at h in let same : q ≡ r = cc in subst P same p
  | inr miss ↦ find-All P a r qs (rw miss at h) ps
]

-- The rule that an accepted bundle applies to an action is one of the rules that it was built from,
-- matches the action, and has the lowest priority number among the rules that match; and where the
-- bundle applies no rule, none of the rules that it was built from matches. To be one of the rules
-- is to have every property that all of them have.
pub matching_rule-Best :
    (b c : PolicyBundle) (a : ProposedAction)
    → make_bundle b ≡ ok c
    → (matching_rule c a ≡ none → All (λ q. matches q a ≡ false) b.rules)
      × ((r : PolicyRule)
          → matching_rule c a ≡ some r
          → (matches r a ≡ true)
            × Best a r b.rules
            × ((P : PolicyRule → Type 0) → All P b.rules → P r))
unfolding matching_rule
matching_rule-Best b c a h =
    let same = make_bundle-rules b c h in
    (
      (λ missing. sort_rules-All _ b.rules (find-none a (sort_rules b.rules) (rw same at missing))),
      λ r found.
          let hit = rw same at found in
          let (m, best) = find-Best a r (sort_rules b.rules) (sort_rules-Sorted b.rules) hit in
          (
            m,
            sort_rules-All (λ q. matches q a ≡ true → r.priority ≤ q.priority) b.rules best,
            λ P all. find-All P a r (sort_rules b.rules) hit (All-sort_rules P b.rules all),
          ),
    )
