-- ===== src/Mandate.antt =====
-- glassbox/domain/mandate.py: mandates, tool grants and the verdict on a proposed action. Sets of
-- patterns are lists, digests are the code points of their hexadecimal text.
pub mod Authority
pub mod Reasons
pub mod Tools
pub mod Tests
use glassbox_agentic_governa.Prelude.{
  ℕ, String, Bool, true, false, ◌&&◌, ◌||◌, not, Option, none, some, List, [], ◌∷◌, ◌++◌, any, keep,
  find, is_empty, ltb, leb, ◌==◌, string_eq, if◌then◌else◌,
}
use Prim.Native.String.{◌++◌ as string_append}
use glassbox_agentic_governa.Prelude.Text.{codes, codes_beq, lower}
use glassbox_agentic_governa.Errors.{Result, ok, err, domain_validation, ◌>>=◌, ◌>>◌, require}
use glassbox_agentic_governa.Serialization.{
  require_non_empty, require_identifier, require_timestamp, require_sha256_hex,
}
use glassbox_agentic_governa.Glob.{fnmatchcase}
use glassbox_agentic_governa.Action.{
  ConsequenceClass, Exposure, ResourceRef, ProposedAction, severity, exceeds,
}

pub data MandateDenialReason : Type 0 where
  not_yet_valid expired revoked wrong_tenant wrong_agent : MandateDenialReason
  action_not_granted resource_not_granted action_resource_pair_not_granted : MandateDenialReason
  consequence_exceeds_ceiling exposure_exceeds_ceiling : MandateDenialReason
  tool_not_granted tool_definition_changed : MandateDenialReason

pub record MandateVerdict : Type 0 where
  pub permitted : Bool
  pub reasons : List MandateDenialReason
  pub mandate_version : ℕ

-- MandateVerdict.permit and MandateVerdict.refuse
unfoldable pub permit : ℕ → Result MandateVerdict
permit version = ok (record { permitted = true; reasons = []; mandate_version = version })

unfoldable pub refuse : List MandateDenialReason → ℕ → Result MandateVerdict
refuse [] version = err (domain_validation "reasons")
refuse (r ∷ rs) version =
    ok (record { permitted = false; reasons = r ∷ rs; mandate_version = version })

abbrev pub Digest : Type 0
Digest = List ℕ

pub record ToolGrant : Type 0 where
  pub tool_name : String
  pub definition_sha256 : Digest
  pub max_consequence : ConsequenceClass
  pub requires_approval : Bool

-- ToolGrant.matches
unfoldable pub grant_matches : ToolGrant → String → Digest → Bool
grant_matches g name digest = g.tool_name == name && codes_beq g.definition_sha256 (lower digest)

pub record ActionResourceGrant : Type 0 where
  pub action_pattern : String
  pub resource_pattern : String

-- ActionResourceGrant.matches
unfoldable pub pair_matches : ActionResourceGrant → String → String → Bool
pair_matches g action resource =
    fnmatchcase action g.action_pattern && fnmatchcase resource g.resource_pattern

pub record Mandate : Type 0 where
  pub tenant_id : String
  pub agent_ref : String
  pub version : ℕ
  pub max_consequence : ConsequenceClass
  pub max_exposure : Exposure
  pub valid_from : ℕ
  pub allowed_actions : List String
  pub allowed_resources : List String
  pub tool_grants : List ToolGrant
  pub valid_until : Option ℕ
  pub revoked_at : Option ℕ
  pub approved_by : List String
  pub resource_scoped_grants : List ActionResourceGrant

unfoldable pub each_ok : (String → Result (List ℕ)) → List String → Result (Unit {0})
each_ok check [] = ok tt
each_ok check (x ∷ xs) = do check x; each_ok check xs

unfoldable pub has_duplicate : List String → List ToolGrant → Bool
has_duplicate seen [] = false
has_duplicate seen (g ∷ gs) =
    let rest = has_duplicate (g.tool_name ∷ seen) gs in
    if any (λ n. n == g.tool_name) seen then true else rest

unfoldable pub optional_timestamp : Option ℕ → String → Result (Unit {0})
optional_timestamp none field = ok tt
optional_timestamp (some t) field = do require_timestamp t field; ok tt

unfoldable pub is_after : ℕ → Option ℕ → Bool
is_after start none = true
is_after start (some stop) = ltb start stop

-- Mandate.__post_init__: the mandate as it was given, or the first check that fails.
pub make_mandate : Mandate → Result Mandate
make_mandate m = do
  require_identifier (codes m.tenant_id) "tenant_id"
  require_identifier (codes m.agent_ref) "agent_ref"
  require (leb 1 m.version) (domain_validation "version")
  require_timestamp m.valid_from "valid_from"
  optional_timestamp m.valid_until "valid_until"
  require (is_after m.valid_from m.valid_until) (domain_validation "valid_until")
  optional_timestamp m.revoked_at "revoked_at"
  each_ok (λ p. require_non_empty (codes p) "allowed_actions") m.allowed_actions
  each_ok (λ p. require_non_empty (codes p) "allowed_resources") m.allowed_resources
  require (not (has_duplicate [] m.tool_grants)) (domain_validation "tool_grants")
  each_ok (λ a. require_identifier (codes a) "approved_by") m.approved_by
  ok m

-- is_revoked_at and is_active_at, past the check of the moment.
unfoldable pub is_revoked : Mandate → ℕ → Bool
is_revoked m moment = elim m.revoked_at [ none ↦ false | some at ↦ leb at moment ]

unfoldable pub is_expired : Mandate → ℕ → Bool
is_expired m moment = elim m.valid_until [ none ↦ false | some until ↦ leb until moment ]

pub is_revoked_at : Mandate → ℕ → Result Bool
is_revoked_at m now = do moment ← require_timestamp now "now"; ok (is_revoked m moment)

unfoldable pub is_active : Mandate → ℕ → Bool
is_active m moment =
    if is_revoked m moment
    then false
    else if ltb moment m.valid_from
    then false
    else elim m.valid_until [ none ↦ true | some until ↦ ltb moment until ]

pub is_active_at : Mandate → ℕ → Result Bool
is_active_at m now = do moment ← require_timestamp now "now"; ok (is_active m moment)

unfoldable pub matches_any : List String → String → Bool
matches_any patterns value = any (λ p. fnmatchcase value p) patterns

abbrev pub resource_name : ProposedAction → String
resource_name a = string_append a.resource.kind (string_append "/" a.resource.id)

abbrev pub when : Bool → MandateDenialReason → List MandateDenialReason
when true r = r ∷ []
when false r = []

unfoldable pub lifecycle_reasons : Mandate → ℕ → List MandateDenialReason
lifecycle_reasons m moment =
    if is_revoked m moment
    then revoked ∷ []
    else if ltb moment m.valid_from
    then not_yet_valid ∷ []
    else if is_expired m moment
    then expired ∷ []
    else []

unfoldable pub lacks_pair : Mandate → ProposedAction → Bool
lacks_pair m a =
    not (is_empty m.resource_scoped_grants)
    && not (any (λ g. pair_matches g a.action (resource_name a)) m.resource_scoped_grants)

-- The list that `permits` collects.
unfoldable pub refusal_reasons : Mandate → ProposedAction → ℕ → List MandateDenialReason
refusal_reasons m a moment =
    lifecycle_reasons m moment
    ++ (when (not (a.resource.tenant_id == m.tenant_id)) wrong_tenant
        ++ (when (not (matches_any m.allowed_actions a.action)) action_not_granted
            ++ (when (not (matches_any m.allowed_resources (resource_name a))) resource_not_granted
                ++ (when (lacks_pair m a) action_resource_pair_not_granted
                    ++ (when (ltb (severity m.max_consequence) (severity a.consequence))
                          consequence_exceeds_ceiling
                        ++ when (exceeds a.exposure m.max_exposure) exposure_exceeds_ceiling)))))

unfoldable pub verdict_of : List MandateDenialReason → ℕ → Result MandateVerdict
verdict_of [] version = permit version
verdict_of (r ∷ rs) version = refuse (r ∷ rs) version

-- Mandate.permits
pub permits : Mandate → ProposedAction → ℕ → Result MandateVerdict
permits m a now = do
  moment ← require_timestamp now "now"
  verdict_of (refusal_reasons m a moment) m.version

unfoldable pub tool_verdict : Mandate → String → Digest → List ToolGrant → Result MandateVerdict
tool_verdict m name digest by_name =
    if is_empty by_name
    then refuse (tool_not_granted ∷ []) m.version
    else if not (any (λ g. grant_matches g name digest) by_name)
    then refuse (tool_definition_changed ∷ []) m.version
    else permit m.version

-- Mandate.permits_tool
pub permits_tool : Mandate → String → Digest → Result MandateVerdict
permits_tool m name digest = do
  require_identifier (codes name) "tool_name"
  require_non_empty digest "definition_sha256"
  tool_verdict m name digest (keep (λ g. g.tool_name == name) m.tool_grants)

-- Mandate.tool_grant
unfoldable pub tool_grant : Mandate → String → Option ToolGrant
tool_grant m name = find (λ g. g.tool_name == name) m.tool_grants
