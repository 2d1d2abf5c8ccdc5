-- ===== src/ToolRegistry.antt =====
-- glassbox/domain/tool_registry.py and glassbox/adapters/outbound/memory/tool_registry.py: tools that
-- are pinned to the digest of their definition, bundles of them, and the registry, which quarantines
-- a tool whose definition changed. A set is a list.
pub mod Pinned
pub mod Approved
pub mod Tests
use glassbox_agentic_governa.Prelude.{
  ℕ, String, Bool, true, false, not, Option, none, some, List, [], ◌∷◌, map, any, find, keep,
  if◌then◌else◌, ◌==◌, string_eq, pair_eq,
}
use glassbox_agentic_governa.Prelude.Text.{codes, codes_beq, lower}
use glassbox_agentic_governa.Prelude.Dict.{Dict, lookup, insert}
use glassbox_agentic_governa.Errors.{
  Result, ok, err, tool_not_governed, tool_registry_unavailable, tool_quarantined, ◌>>=◌, ◌>>◌,
}
use glassbox_agentic_governa.Serialization.{require_identifier, require_sha256_hex}
use glassbox_agentic_governa.Mandate.{Digest}
use glassbox_agentic_governa.Catalogue.{ActionDefinition, unseen}

pub record ToolDefinition : Type 0 where
  pub tool_name : String
  pub definition_sha256 : Digest
  pub action : ActionDefinition

-- ToolDefinition.__post_init__
unfoldable pub make_tool : ToolDefinition → Result ToolDefinition
make_tool d = do
  require_identifier (codes d.tool_name) "tool_name"
  digest ← require_sha256_hex d.definition_sha256 "definition_sha256"
  ok (record d { definition_sha256 = digest })

pub record ToolRegistryBundle : Type 0 where
  pub bundle_id : String
  pub tenant_id : String
  pub version : ℕ
  pub definitions : List ToolDefinition

-- ToolRegistryBundle.__post_init__
unfoldable pub make_bundle : ToolRegistryBundle → Result ToolRegistryBundle
make_bundle b = do
  require_identifier (codes b.bundle_id) "bundle_id"
  require_identifier (codes b.tenant_id) "tenant_id"
  unseen "definitions" [] (map (λ d. d.tool_name) b.definitions)
  ok b

-- ToolRegistryBundle.resolve
unfoldable pub resolve_in : String → List ToolDefinition → Option ToolDefinition
resolve_in tool_name definitions = find (λ d. d.tool_name == tool_name) definitions

abbrev pub ToolKey : Type 0
ToolKey = String × String

pub record ToolRegistry : Type 0 where
  pub bundles : Dict String ToolRegistryBundle
  pub available : Bool
  pub approved_digests : Dict ToolKey Digest
  pub quarantined : List ToolKey

unfoldable pub is_in : ToolKey → List ToolKey → Bool
is_in key keys = any (λ k. k == key) keys

-- One step of the loop of load_bundle.
abbrev pub on_previous : ToolKey → ToolDefinition → ToolRegistry → Option Digest → ToolRegistry
on_previous key d r none = record r {
  approved_digests = insert key d.definition_sha256 r.approved_digests;
}
on_previous key d r (some previous) =
    if codes_beq previous d.definition_sha256
    then r
    else record r { quarantined = key ∷ r.quarantined }

unfoldable pub consider : String → ToolDefinition → ToolRegistry → ToolRegistry
consider tenant_id d r =
    on_previous (tenant_id, d.tool_name) d r (lookup (tenant_id, d.tool_name) r.approved_digests)

unfoldable pub consider_all : String → List ToolDefinition → ToolRegistry → ToolRegistry
consider_all tenant_id [] r = r
consider_all tenant_id (d ∷ ds) r = consider_all tenant_id ds (consider tenant_id d r)

-- load_bundle
unfoldable pub load_bundle : ToolRegistryBundle → ToolRegistry → ToolRegistry
load_bundle b r =
    let considered = consider_all b.tenant_id b.definitions r in
    record considered { bundles = insert b.tenant_id b considered.bundles }

abbrev pub bundle_or_raise : Option ToolRegistryBundle → Result ToolRegistryBundle
bundle_or_raise none = err tool_registry_unavailable
bundle_or_raise (some b) = ok b

-- _active_bundle
unfoldable pub active_bundle : String → ToolRegistry → Result ToolRegistryBundle
active_bundle tenant_id r =
    if not r.available
    then err tool_registry_unavailable
    else bundle_or_raise (lookup tenant_id r.bundles)

-- The definition at the presented digest.
abbrev pub at_digest : Digest → Option ToolDefinition → Result ToolDefinition
at_digest presented none = err tool_not_governed
at_digest presented (some d) =
    if not (codes_beq d.definition_sha256 presented) then err tool_not_governed else ok d

unfoldable pub resolve_from :
    String → String → Digest → ToolRegistry → ToolRegistryBundle → Result ToolDefinition
resolve_from tenant_id tool_name presented r b =
    if is_in (tenant_id, tool_name) r.quarantined
    then err tool_quarantined
    else at_digest (lower presented) (resolve_in tool_name b.definitions)

-- resolve
unfoldable pub resolve : String → String → Digest → ToolRegistry → Result ToolDefinition
resolve tenant_id tool_name presented r =
    active_bundle tenant_id r >>= resolve_from tenant_id tool_name presented r

-- approve
unfoldable pub approve : String → String → Digest → ToolRegistry → ToolRegistry
approve tenant_id tool_name digest r = record r {
  quarantined = keep (λ k. not (k == (tenant_id, tool_name))) r.quarantined;
  approved_digests = insert (tenant_id, tool_name) (lower digest) r.approved_digests;
}

-- is_quarantined
unfoldable pub is_quarantined : String → String → ToolRegistry → Bool
is_quarantined tenant_id tool_name r = is_in (tenant_id, tool_name) r.quarantined

-- set_available
unfoldable pub set_available : Bool → ToolRegistry → ToolRegistry
set_available available r = record r { available = available }
