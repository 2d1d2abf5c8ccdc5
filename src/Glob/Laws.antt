-- ===== src/Glob/Laws.antt =====
-- What the glob patterns of mandates and rules grant.
use glassbox_agentic_governa.Prelude.{ℕ, String, ◌≡◌, refl, List, [], ◌∷◌, true, false}
use glassbox_agentic_governa.Prelude.Text.{codes}
use glassbox_agentic_governa.Glob.{
  star, read_set, cut_at_bracket, cut_set, cut_negated, read_bracket, read_part, read_pattern,
  in_set, matches_parts, fnmatchcase,
}

-- `*` grants everything.
pub matches_star : (cs : List ℕ) → matches_parts (star ∷ []) cs ≡ true
unfolding matches_parts
matches_star [] = refl
matches_star (c ∷ cs) = matches_star cs

pub fnmatchcase-star : (name : String) → fnmatchcase name "*" ≡ true
unfolding fnmatchcase read_pattern read_part
fnmatchcase-star name = matches_star (codes name)

payments_wire : fnmatchcase "payments.wire" "payments.*" ≡ true
unfolding fnmatchcase read_pattern read_part matches_parts
payments_wire = refl

payments_other : fnmatchcase "payment.wire" "payments.*" ≡ false
unfolding fnmatchcase read_pattern read_part matches_parts
payments_other = refl

class_range : fnmatchcase "acc-7" "acc[!a-z][0-9]" ≡ true
unfolding fnmatchcase read_pattern read_part read_bracket cut_negated cut_set cut_at_bracket
    read_set in_set matches_parts
class_range = refl
