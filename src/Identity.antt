-- ===== src/Identity.antt =====
-- glassbox/domain/identity.py: the hops of a delegation and the chain of them, which may only narrow
-- the authority that it passes on, and when a principal is usable. A set of capabilities is a list;
-- the chain stands beside the fields of the principal that the records keep.
pub mod Attenuation
pub mod Tests
use glassbox_agentic_governa.Prelude.{
  ℕ, String, Bool, true, false, not, ◌&&◌, Option, none, some, List, [], ◌∷◌, any, all, keep,
  is_empty, if◌then◌else◌, ltb, leb, ◌==◌, string_eq,
}
use glassbox_agentic_governa.Prelude.Text.{codes}
use glassbox_agentic_governa.Errors.{
  Result, ok, err, domain_validation, delegation_error, credential_expired, ◌>>=◌, ◌>>◌, require,
}
use glassbox_agentic_governa.Serialization.{require_identifier, require_timestamp}
use glassbox_agentic_governa.Catalogue.{require_identifiers}
use glassbox_agentic_governa.Evidence.{VerifiedPrincipal}

pub data SubjectType : Type 0 where
  human agent service : SubjectType

pub record DelegationHop : Type 0 where
  pub subject : String
  pub subject_type : SubjectType
  pub capabilities : List String
  pub issued_at : ℕ
  pub expires_at : ℕ

-- DelegationHop.__post_init__
unfoldable pub make_hop : DelegationHop → Result DelegationHop
make_hop h = do
  require_identifier (codes h.subject) "subject"
  require_identifiers "capabilities" h.capabilities
  require_timestamp h.issued_at "issued_at"
  require_timestamp h.expires_at "expires_at"
  require (ltb h.issued_at h.expires_at) (domain_validation "expires_at")
  ok h

-- DelegationHop.is_valid_at
unfoldable pub hop_is_valid_at : ℕ → DelegationHop → Bool
hop_is_valid_at now h = leb h.issued_at now && ltb now h.expires_at

abbrev pub member : String → List String → Bool
member x xs = any (λ y. y == x) xs

-- No capability is in the first set and not in the second.
unfoldable pub is_subset : List String → List String → Bool
is_subset xs ys = all (λ x. member x ys) xs

-- _require_attenuating, from one hop on.
unfoldable pub require_attenuating : DelegationHop → List DelegationHop → Result (Unit {0})
require_attenuating delegator [] = ok tt
require_attenuating delegator (delegate ∷ hops) =
    let rest = require_attenuating delegate hops in
    if not (is_subset delegate.capabilities delegator.capabilities)
    then err delegation_error
    else if ltb delegator.expires_at delegate.expires_at
    then err delegation_error
    else rest

-- DelegationChain.__post_init__
unfoldable pub make_chain : List DelegationHop → Result (List DelegationHop)
make_chain [] = ok []
make_chain (root ∷ hops) = do require_attenuating root hops; ok (root ∷ hops)

-- DelegationChain.leaf
unfoldable pub leaf_from : DelegationHop → List DelegationHop → DelegationHop
leaf_from h [] = h
leaf_from h (k ∷ hops) = leaf_from k hops

-- DelegationChain.effective_capabilities
unfoldable pub narrow : List String → List DelegationHop → List String
narrow effective [] = effective
narrow effective (h ∷ hops) = narrow (keep (λ c. member c h.capabilities) effective) hops

unfoldable pub effective_capabilities : List DelegationHop → List String
effective_capabilities [] = []
effective_capabilities (root ∷ hops) = narrow root.capabilities hops

-- DelegationChain.is_valid_at
unfoldable pub chain_is_valid_at : ℕ → List DelegationHop → Bool
chain_is_valid_at now hops = not (is_empty hops) && all (hop_is_valid_at now) hops

-- _require_chain_consistency
unfoldable pub root_agrees : Option String → DelegationHop → Bool
root_agrees none root = true
root_agrees (some delegating) root = root.subject == delegating

unfoldable pub require_chain_consistency :
    VerifiedPrincipal → List DelegationHop → Result (Unit {0})
require_chain_consistency p [] = ok tt
require_chain_consistency p (root ∷ hops) = do
  require ((leaf_from root hops).subject == p.agent_ref) delegation_error
  require (root_agrees p.delegating_subject root) delegation_error

-- VerifiedPrincipal.is_expired
unfoldable pub is_expired : VerifiedPrincipal → ℕ → Bool
is_expired p now = not (leb p.issued_at now && ltb now p.expires_at)

-- VerifiedPrincipal.require_valid_at
unfoldable pub require_valid_at : VerifiedPrincipal → List DelegationHop → ℕ → Result (Unit {0})
require_valid_at p chain now = do
  require_timestamp now "now"
  require (not (is_expired p now)) credential_expired
  require (not (not (is_empty chain) && not (chain_is_valid_at now chain))) credential_expired
