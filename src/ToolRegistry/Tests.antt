-- ===== src/ToolRegistry/Tests.antt =====
-- glassbox/adapters/outbound/memory/tool_registry.py at concrete inputs: one tool in one bundle.
use glassbox_agentic_governa.Prelude.{◌≡◌, refl, true, none, some, [], ◌∷◌, string_eq, pair_eq}
use glassbox_agentic_governa.Prelude.Text.{codes, codes_beq, lower, to_lower}
use glassbox_agentic_governa.Prelude.Dict.{lookup, insert}
use glassbox_agentic_governa.Action.{single, irreversible}
use glassbox_agentic_governa.Catalogue.{ActionDefinition}
use glassbox_agentic_governa.ToolRegistry.{
  ToolDefinition, ToolRegistryBundle, ToolRegistry, load_bundle, consider_all, consider, resolve,
  active_bundle, resolve_from, resolve_in, is_in,
}
use glassbox_agentic_governa.ToolRegistry.Pinned.{IsLoaded}
use glassbox_agentic_governa.ToolRegistry.Approved.{opened, loaded, resolve-Reachable}

abbrev wire : ActionDefinition
wire = record {
  action = "wire";
  consequence = irreversible;
  exposure_rule = record {
    blast_radius = single;
    monetary_field = some "amount";
    records_field = none;
  };
  required_attestations = [];
  parameter_schema = [];
  untrusted_text_fields = [];
  sensitive_parameter_fields = [];
}

abbrev wire_tool : ToolDefinition
wire_tool = record { tool_name = "wire_tool"; definition_sha256 = codes "ab"; action = wire }

abbrev tools : ToolRegistryBundle
tools = record { bundle_id = "b1"; tenant_id = "t1"; version = 1; definitions = wire_tool ∷ [] }

abbrev registry : ToolRegistry
registry =
    load_bundle tools
      (record { bundles = []; available = true; approved_digests = []; quarantined = [] })

resolve-Reachable_example :
    IsLoaded "t1" "wire_tool" wire_tool registry
    × (wire_tool.definition_sha256 ≡ lower (codes "AB"))
    × (lookup ("t1", "wire_tool") registry.approved_digests ≡ some wire_tool.definition_sha256)
unfolding load_bundle consider_all consider lookup insert resolve active_bundle resolve_from
    resolve_in is_in codes_beq lower to_lower
resolve-Reachable_example =
    resolve-Reachable "t1" "wire_tool" (codes "AB") wire_tool (loaded tools opened) refl
