-- ===== src/Mandate/Tools.antt =====
-- glassbox/domain/mandate.py: a tool call against the grants of a mandate that was constructed.
use glassbox_agentic_governa.Prelude.{
  ◌≡◌, refl, String, Bool, true, false, Option, none, some, List, [], ◌∷◌, any, keep, find, ◌==◌,
  string_eq, if◌then◌else◌, arith, inl, inr, Bool-cases,
}
use glassbox_agentic_governa.Prelude.Text.{codes, codes_beq, lower}
use glassbox_agentic_governa.Errors.{Result, ok}
use glassbox_agentic_governa.Serialization.{require_non_empty, require_identifier}
use glassbox_agentic_governa.Mandate.{
  Mandate, MandateVerdict, ToolGrant, Digest, make_mandate, has_duplicate, tool_grant, tool_verdict,
  permits_tool, grant_matches, permit, refuse, tool_not_granted, tool_definition_changed,
}

abbrev named : String → ToolGrant → Bool
named name g = g.tool_name == name

abbrev seen_name : String → List String → Bool
seen_name name seen = any (λ n. n == name) seen

no_later_grant :
    (name : String) (seen : List String) (gs : List ToolGrant)
    → seen_name name seen ≡ true
    → has_duplicate seen gs ≡ false
    → keep (named name) gs ≡ []
unfolding has_duplicate
no_later_grant name seen [] s h = refl
no_later_grant name seen (g ∷ gs) s h = elim (Bool-cases (g.tool_name == name)) [
  | inl e ↦
      let same = (string_eq.beq_iff g.tool_name name).0 e in
      let again : seen_name g.tool_name seen ≡ true = rw same s in ground arith
  | inr e ↦
      let further : has_duplicate (g.tool_name ∷ seen) gs ≡ false = ground arith in
      let later : seen_name name (g.tool_name ∷ seen) ≡ true = rw (e, s) refl in
      rw e (no_later_grant name (g.tool_name ∷ seen) gs later further)
]

abbrev option_list {ℓ} : {A : Type ℓ} → Option A → List A
option_list none = []
option_list (some a) = a ∷ []

-- With unique names the grants of one name are the first grant of that name, if any.
keep-find :
    (name : String) (seen : List String) (gs : List ToolGrant)
    → has_duplicate seen gs ≡ false
    → keep (named name) gs ≡ option_list (find (named name) gs)
unfolding has_duplicate
keep-find name seen [] h = refl
keep-find name seen (g ∷ gs) h =
    let further : has_duplicate (g.tool_name ∷ seen) gs ≡ false = ground arith in
    elim (Bool-cases (g.tool_name == name)) [
      | inl e ↦
          let first : seen_name name (g.tool_name ∷ seen) ≡ true = rw e refl in
          rw (e, no_later_grant name (g.tool_name ∷ seen) gs first further) refl
      | inr e ↦ rw e (keep-find name (g.tool_name ∷ seen) gs further)
    ]

-- What the grant found by name says of a digest.
abbrev pub verdict_on : Mandate → Option ToolGrant → Digest → Result MandateVerdict
verdict_on m none digest = refuse (tool_not_granted ∷ []) m.version
verdict_on m (some g) digest =
    if codes_beq g.definition_sha256 (lower digest)
    then permit m.version
    else refuse (tool_definition_changed ∷ []) m.version

find-named :
    (name : String) (gs : List ToolGrant) (g : ToolGrant)
    → find (named name) gs ≡ some g
    → named name g ≡ true
find-named name [] g h = cc
find-named name (x ∷ gs) g h = ground (arith, find-named name gs g)

tool_verdict-one :
    (m : Mandate) (name : String) (digest : Digest) (o : Option ToolGrant)
    → ((g : ToolGrant) → o ≡ some g → named name g ≡ true)
    → tool_verdict m name digest (option_list o) ≡ verdict_on m o digest
unfolding tool_verdict grant_matches
tool_verdict-one m name digest none h = refl
tool_verdict-one m name digest (some g) h =
    let same = h g refl in
    elim (Bool-cases (codes_beq g.definition_sha256 (lower digest))) [
      | inl e ↦ rw (same, e) refl
      | inr e ↦ rw (same, e) refl
    ]

make_mandate_unique :
    (m n : Mandate) → make_mandate m ≡ ok n → has_duplicate [] m.tool_grants ≡ false
unfolding make_mandate
make_mandate_unique m n h = ground arith

-- Of a mandate that the constructor accepts, a tool call is permitted exactly when the grant of
-- that name pins the presented digest in lower case; a name without a grant and a changed
-- digest are refused, each with its own reason.
pub permits_tool-tool_grant :
    (m n : Mandate) (name : String) (digest : Digest)
    → make_mandate m ≡ ok n
    → require_identifier (codes name) "tool_name" ≡ ok (codes name)
    → require_non_empty digest "definition_sha256" ≡ ok digest
    → permits_tool m name digest ≡ verdict_on m (tool_grant m name) digest
unfolding permits_tool tool_grant
permits_tool-tool_grant m n name digest made id full =
    rw (id, full, keep-find name [] m.tool_grants (make_mandate_unique m n made))
      (tool_verdict-one m name digest (find (named name) m.tool_grants)
        (λ g e. find-named name m.tool_grants g e))
