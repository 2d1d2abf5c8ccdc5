-- ===== src/Identity/Attenuation.antt =====
-- glassbox/domain/identity.py: what an accepted delegation chain guarantees of its leaf.
use glassbox_agentic_governa.Prelude.{
  ◌≤◌, ◌≡◌, refl, ap, ◌∙◌, String, Bool, true, false, ◌&&◌, List, [], ◌∷◌, keep, ltb, ◌==◌,
  string_eq, All, arith, Bool-cases, inl, inr,
}
use glassbox_agentic_governa.Errors.{ok, err≢ok, >>=-eq-ok}
use glassbox_agentic_governa.Identity.{
  DelegationHop, member, is_subset, require_attenuating, make_chain, leaf_from, narrow,
  effective_capabilities,
}

-- What the checks of a chain leave.
abbrev Narrows : DelegationHop → List DelegationHop → Type 0
Narrows h [] = Unit
Narrows h (k ∷ hops) =
    (is_subset k.capabilities h.capabilities ≡ true)
    × (k.expires_at ≤ h.expires_at)
    × Narrows k hops

require_attenuating-Narrows :
    (h : DelegationHop) (hops : List DelegationHop) {u : Unit {0}}
    → require_attenuating h hops ≡ ok u
    → Narrows h hops
unfolding require_attenuating
require_attenuating-Narrows h [] accepted = tt
require_attenuating-Narrows h (k ∷ hops) accepted =
    elim (Bool-cases (is_subset k.capabilities h.capabilities)) [
      | inr wider ↦ absurd (err≢ok (rw wider at accepted))
      | inl within ↦ elim (Bool-cases (ltb h.expires_at k.expires_at)) [
        | inl longer ↦ absurd (err≢ok (rw (within, longer) at accepted))
        | inr shorter ↦ (
          within,
          ground arith,
          require_attenuating-Narrows k hops (rw (within, shorter) at accepted),
        )
      ]
    ]

is_subset-member :
    (c : String) (xs ys : List String)
    → is_subset xs ys ≡ true
    → member c xs ≡ true
    → member c ys ≡ true
unfolding is_subset
is_subset-member c [] ys h m = absurd (cc)
is_subset-member c (x ∷ xs) ys h m = ground (arith, is_subset-member c xs ys, string_eq.beq_iff x c)

member_same : (x c : String) (ys : List String) → (x == c) ≡ true → member x ys ≡ member c ys
member_same x c ys same = ap (λ s. member s ys) ((string_eq.beq_iff x c).0 same)

and_absorbs : (a b : Bool) → (b ≡ true → a ≡ true) → (a && b) ≡ b
and_absorbs true b h = refl
and_absorbs false true h = h refl
and_absorbs false false h = refl

member-keep :
    (c : String) (ys xs : List String)
    → member c (keep (λ x. member x ys) xs) ≡ (member c xs && member c ys)
member-keep c ys [] = refl
member-keep c ys (x ∷ xs) =
    ground (arith, member-keep c ys xs, string_eq.beq_iff x c, member_same x c ys)

is_subset_intro :
    (xs ys : List String)
    → ((c : String) → member c xs ≡ true → member c ys ≡ true)
    → is_subset xs ys ≡ true
unfolding is_subset
is_subset_intro [] ys h = refl
is_subset_intro (x ∷ xs) ys h =
    let here : member x ys ≡ true = h x (ground (arith, string_eq.beq_iff x x)) in
    let rest = is_subset_intro xs ys (λ c m. h c (ground (arith, m))) in rw here rest

-- The leaf stands under a hop: no capability more, and no longer.
abbrev pub IsWithin : DelegationHop → DelegationHop → Type 0
IsWithin leaf h =
    (leaf.expires_at ≤ h.expires_at) × (is_subset leaf.capabilities h.capabilities ≡ true)

leaf_from-IsWithin :
    (h : DelegationHop) (hops : List DelegationHop)
    → Narrows h hops
    → All (IsWithin (leaf_from h hops)) (h ∷ hops)
unfolding leaf_from
leaf_from-IsWithin h [] narrows =
    ((omega arith, is_subset_intro h.capabilities h.capabilities (λ c m. m)), tt)
leaf_from-IsWithin h (k ∷ hops) (within, shorter, narrows) =
    let ((sooner, fewer), rest) = leaf_from-IsWithin k hops narrows in
    let leaf = leaf_from k hops in
    (
      (
        omega arith,
        is_subset_intro leaf.capabilities h.capabilities (λ c m.
            is_subset-member c k.capabilities h.capabilities within
              (is_subset-member c leaf.capabilities k.capabilities fewer m)),
      ),
      ((sooner, fewer), rest),
    )

narrow-member :
    (c : String) (effective : List String) (h : DelegationHop) (hops : List DelegationHop)
    → Narrows h hops
    → member c effective ≡ member c h.capabilities
    → member c (narrow effective hops) ≡ member c (leaf_from h hops).capabilities
unfolding narrow leaf_from
narrow-member c effective h [] narrows same = same
narrow-member c effective h (k ∷ hops) (within, shorter, narrows) same =
    let kept = member-keep c k.capabilities effective in
    let still : member c (keep (λ x. member x k.capabilities) effective) ≡ member c k.capabilities =
      kept
      ∙ ap (λ b. b && member c k.capabilities) same
      ∙ and_absorbs (member c h.capabilities) (member c k.capabilities)
          (is_subset-member c k.capabilities h.capabilities within) in
    narrow-member c (keep (λ x. member x k.capabilities) effective) k hops narrows still

-- Authority only narrows along a delegation chain that the constructor accepts: the leaf expires no
-- later than any hop and has no capability that a hop lacks, and the effective capabilities, which
-- are the intersection over all hops, are those of the leaf.
pub make_chain-IsWithin :
    (root : DelegationHop) (hops chain : List DelegationHop) (c : String)
    → make_chain (root ∷ hops) ≡ ok chain
    → All (IsWithin (leaf_from root hops)) (root ∷ hops)
      × (member c (effective_capabilities (root ∷ hops))
          ≡ member c (leaf_from root hops).capabilities)
unfolding make_chain effective_capabilities
make_chain-IsWithin root hops chain c accepted =
    let (_, checked, _) =
      >>=-eq-ok (require_attenuating root hops) (λ u. ok (root ∷ hops)) accepted in
    let narrows = require_attenuating-Narrows root hops checked in
    (leaf_from-IsWithin root hops narrows, narrow-member c root.capabilities root hops narrows refl)
