-- ===== src/ToolRegistry/Pinned.antt =====
-- glassbox/adapters/outbound/memory/tool_registry.py: the load of a bundle approves each tool or
-- quarantines it.
use glassbox_agentic_governa.Prelude.{
  ◌≡◌, refl, ap, ◌∙◌, String, true, false, not, Option, none, some, List, [], ◌∷◌, keep, ◌==◌,
  string_eq, pair_eq, Bool-cases, ◌⊎◌, inl, inr, arith,
}
use mathlib.Core.Path.{subst}
use glassbox_agentic_governa.Prelude.Text.{codes_beq, codes_beq_iff}
use glassbox_agentic_governa.Prelude.Dict.{lookup, lookup-insert, lookup-insert_self}
use glassbox_agentic_governa.Mandate.{Digest}
use glassbox_agentic_governa.ToolRegistry.{
  ToolDefinition, ToolRegistryBundle, ToolRegistry, ToolKey, resolve_in, is_in, on_previous,
  consider, consider_all,
}

-- The tool is quarantined, or this digest is approved for it.
abbrev pub IsPinned : ToolKey → Digest → ToolRegistry → Type 0
IsPinned key digest r =
    (is_in key r.quarantined ≡ true) ⊎ (lookup key r.approved_digests ≡ some digest)

-- The definition that is loaded under a name.
abbrev pub IsLoaded : String → String → ToolDefinition → ToolRegistry → Type 0
IsLoaded tenant_id tool_name d r =
    (b : ToolRegistryBundle) × (lookup tenant_id r.bundles ≡ some b)
    × (resolve_in tool_name b.definitions ≡ some d)

is_in-cons :
    (key other : ToolKey) (keys : List ToolKey)
    → is_in key keys ≡ true
    → is_in key (other ∷ keys) ≡ true
unfolding is_in
is_in-cons key other keys h = ground (arith, h)

is_in-head : (key : ToolKey) (keys : List ToolKey) → is_in key (key ∷ keys) ≡ true
unfolding is_in
is_in-head key keys = ground (arith, (pair_eq.beq_iff key key).1 refl)

pub is_in-keep :
    (key other : ToolKey) (keys : List ToolKey)
    → (other == key) ≡ false
    → is_in key keys ≡ true
    → is_in key (keep (λ k. not (k == other)) keys) ≡ true
unfolding is_in
is_in-keep key other [] apart h = h
is_in-keep key other (k ∷ keys) apart h = elim (Bool-cases (k == key)) [
  | inl here ↦
      let named : k ≡ key = (pair_eq.beq_iff k key).0 here in
      let stays : (k == other) ≡ false =
        ground (arith, pair_eq.beq_iff k other, pair_eq.beq_iff other key) in
      rw (stays, here) refl
  | inr there ↦
      let rest = is_in-keep key other keys apart (rw there at h) in
      elim (Bool-cases (k == other)) [
        | inl gone ↦ rw gone rest
        | inr stays ↦ rw (stays, there) rest
      ]
]

consider-IsPinned :
    (tenant_id : String) (d : ToolDefinition) (r : ToolRegistry) (previous : Option Digest)
    (key : ToolKey) (digest : Digest)
    → lookup (tenant_id, d.tool_name) r.approved_digests ≡ previous
    → IsPinned key digest r
    → IsPinned key digest (on_previous (tenant_id, d.tool_name) d r previous)
consider-IsPinned tenant_id d r (some previous) key digest found h =
    elim (Bool-cases (codes_beq previous d.definition_sha256)) [
      | inl same ↦ rw same h
      | inr changed ↦ rw changed (elim h [
        | inl held ↦ inl (is_in-cons key (tenant_id, d.tool_name) r.quarantined held)
        | inr approved ↦ inr approved
      ])
    ]
consider-IsPinned tenant_id d r none key digest found (inl held) = inl held
consider-IsPinned tenant_id d r none key digest found (inr approved) =
    let tool : ToolKey = (tenant_id, d.tool_name) in
    let read = lookup-insert tool key d.definition_sha256 r.approved_digests in
    elim (Bool-cases (tool == key)) [
      | inr other ↦ inr (read ∙ rw other approved)
      | inl same ↦
          let named : tool ≡ key = (pair_eq.beq_iff tool key).0 same in
          let absent : lookup key r.approved_digests ≡ none =
            subst (λ k. lookup k r.approved_digests ≡ none) named found in
          absurd (cc)
    ]

consider_pins :
    (tenant_id : String) (d : ToolDefinition) (r : ToolRegistry) (previous : Option Digest)
    → lookup (tenant_id, d.tool_name) r.approved_digests ≡ previous
    → IsPinned
        (tenant_id, d.tool_name)
        d.definition_sha256
        (on_previous (tenant_id, d.tool_name) d r previous)
consider_pins tenant_id d r none found =
    inr (lookup-insert_self (tenant_id, d.tool_name) d.definition_sha256 r.approved_digests)
consider_pins tenant_id d r (some previous) found =
    elim (Bool-cases (codes_beq previous d.definition_sha256)) [
      | inl same ↦
          let equal = (codes_beq_iff previous d.definition_sha256).0 same in
          rw same (inr (found ∙ ap (λ x. some x) equal))
      | inr changed ↦ rw changed (inl (is_in-head (tenant_id, d.tool_name) r.quarantined))
    ]

pub consider_all-IsPinned :
    (tenant_id : String) (ds : List ToolDefinition) (r : ToolRegistry) (key : ToolKey)
    (digest : Digest)
    → IsPinned key digest r
    → IsPinned key digest (consider_all tenant_id ds r)
unfolding consider_all consider
consider_all-IsPinned tenant_id [] r key digest h = h
consider_all-IsPinned tenant_id (d ∷ ds) r key digest h =
    consider_all-IsPinned tenant_id ds (consider tenant_id d r) key digest (
      consider-IsPinned tenant_id d r (lookup (tenant_id, d.tool_name) r.approved_digests) key
        digest refl h)

-- Every tool of a bundle is pinned after the bundle was considered.
pub consider_all_pins :
    (tenant_id tool_name : String) (ds : List ToolDefinition) (r : ToolRegistry)
    (d : ToolDefinition)
    → resolve_in tool_name ds ≡ some d
    → IsPinned (tenant_id, tool_name) d.definition_sha256 (consider_all tenant_id ds r)
unfolding consider_all consider resolve_in
consider_all_pins tenant_id tool_name [] r d h = absurd (cc)
consider_all_pins tenant_id tool_name (e ∷ ds) r d h =
    elim (Bool-cases (e.tool_name == tool_name)) [
      | inr other ↦
          consider_all_pins tenant_id tool_name ds (consider tenant_id e r) d (rw other at h)
      | inl found ↦
          let same : some e ≡ some d = rw found at h in
          let named = (string_eq.beq_iff e.tool_name tool_name).0 found in
          let pinned =
            consider_all-IsPinned tenant_id ds (consider tenant_id e r) (tenant_id, e.tool_name)
              e.definition_sha256
              (consider_pins tenant_id e r (lookup (tenant_id, e.tool_name) r.approved_digests)
                refl) in
          let digests : e.definition_sha256 ≡ d.definition_sha256 = cc in
          subst
            (λ n. IsPinned (tenant_id, n) d.definition_sha256 (consider_all tenant_id (e ∷ ds) r))
            named
            (subst (λ x. IsPinned (tenant_id, e.tool_name) x (consider_all tenant_id (e ∷ ds) r))
              digests pinned)
    ]
