-- ===== src/Action/Exposures.antt =====
-- glassbox/domain/action.py: an exposure against a ceiling.
use glassbox_agentic_governa.Prelude.{ℕ, ◌≤◌, ◌≡◌, refl, ◌↔◌, false, Option, none, some, arith}
use glassbox_agentic_governa.Action.{Exposure, blast_severity, breaches, exceeds}

-- An amount is within a ceiling: no ceiling, or both known and in order.
abbrev pub WithinAmount : Option ℕ → Option ℕ → Type 0
WithinAmount amount none = Unit {0}
WithinAmount none (some ceiling) = ⊥
WithinAmount (some amount) (some ceiling) = amount ≤ ceiling

abbrev pub Within : Exposure → Exposure → Type 0
Within e c =
    (blast_severity e.blast_radius ≤ blast_severity c.blast_radius)
    × WithinAmount e.monetary c.monetary
    × WithinAmount e.records c.records

breaches_iff : (a c : Option ℕ) → (breaches a c ≡ false) ↔ WithinAmount a c
unfolding breaches
breaches_iff none none = (λ h. tt, λ h. refl)
breaches_iff (some a) none = (λ h. tt, λ h. refl)
breaches_iff none (some c) = (λ h. cc, λ h. absurd h)
breaches_iff (some a) (some c) = ground arith

-- `exceeds` is false exactly when the exposure is within the ceiling on every dimension: the blast
-- radius, and each amount that the ceiling bounds, which must be known and no larger.
pub exceeds_iff : (e c : Exposure) → (exceeds e c ≡ false) ↔ Within e c
unfolding exceeds
exceeds_iff e c = (
  λ h. (ground arith, (breaches_iff _ _).0 (ground arith), (breaches_iff _ _).0 (ground arith)),
  λ w.
      ground (
        arith,
        (breaches_iff e.monetary c.monetary).1 w.1,
        (breaches_iff e.records c.records).1 w.2,
      ),
)

WithinAmount-trans : (a b c : Option ℕ) → WithinAmount a b → WithinAmount b c → WithinAmount a c
WithinAmount-trans a b none p q = tt
WithinAmount-trans a none (some c) p q = absurd q
WithinAmount-trans none (some b) (some c) p q = absurd p
WithinAmount-trans (some a) (some b) (some c) p q = omega arith

pub Within-trans : (e c d : Exposure) → Within e c → Within c d → Within e d
Within-trans e c d p q = (
  omega arith,
  WithinAmount-trans e.monetary c.monetary d.monetary p.1 q.1,
  WithinAmount-trans e.records c.records d.records p.2 q.2,
)

-- What is within a ceiling is within every ceiling that the first is within.
pub exceeds_trans :
    (e c d : Exposure) → exceeds e c ≡ false → exceeds c d ≡ false → exceeds e d ≡ false
exceeds_trans e c d p q =
    (exceeds_iff e d).1 (Within-trans e c d ((exceeds_iff e c).0 p) ((exceeds_iff c d).0 q))
