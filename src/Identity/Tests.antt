-- ===== src/Identity/Tests.antt =====
-- glassbox/domain/identity.py at concrete inputs: a person delegates to an agent.
use glassbox_agentic_governa.Prelude.{◌≡◌, refl, [], ◌∷◌, All, string_eq}
use glassbox_agentic_governa.Identity.{
  DelegationHop, human, agent, member, make_chain, require_attenuating, is_subset, leaf_from,
  effective_capabilities,
}
use glassbox_agentic_governa.Identity.Attenuation.{IsWithin, make_chain-IsWithin}

abbrev person : DelegationHop
person = record {
  subject = "alice";
  subject_type = human;
  capabilities = "pay" ∷ "read" ∷ [];
  issued_at = 0;
  expires_at = 100;
}

abbrev helper : DelegationHop
helper = record {
  subject = "agent-7";
  subject_type = agent;
  capabilities = "pay" ∷ [];
  issued_at = 10;
  expires_at = 50;
}

make_chain-IsWithin_example :
    All (IsWithin (leaf_from person (helper ∷ []))) (person ∷ helper ∷ [])
    × (member "pay" (effective_capabilities (person ∷ helper ∷ []))
        ≡ member "pay" (leaf_from person (helper ∷ [])).capabilities)
unfolding make_chain require_attenuating is_subset
make_chain-IsWithin_example =
    make_chain-IsWithin person (helper ∷ []) (person ∷ helper ∷ []) "pay" refl
