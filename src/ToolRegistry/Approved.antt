-- ===== src/ToolRegistry/Approved.antt =====
-- glassbox/adapters/outbound/memory/tool_registry.py: over every history of loads, approvals and
-- outages, a tool resolves only at the digest that is approved for it.
use glassbox_agentic_governa.Prelude.{
  ◌≡◌, refl, sym, ap, ◌∙◌, String, Bool, true, false, not, Option, none, some, List, [], ◌∷◌,
  if◌then◌else◌, ◌==◌, string_eq, pair_eq, Bool-cases, inl, inr,
}
use mathlib.Core.Path.{subst}
use glassbox_agentic_governa.Prelude.Text.{codes_beq, codes_beq_iff, lower}
use glassbox_agentic_governa.Prelude.Dict.{lookup, lookup-insert}
use glassbox_agentic_governa.Errors.{Result, ok, err, err≢ok, >>=-eq-ok, tool_registry_unavailable}
use glassbox_agentic_governa.Mandate.{Digest}
use glassbox_agentic_governa.ToolRegistry.{
  ToolDefinition, ToolRegistryBundle, ToolRegistry, ToolKey, resolve_in, is_in, on_previous,
  consider, consider_all, load_bundle, bundle_or_raise, active_bundle, at_digest, resolve_from,
  resolve, approve, set_available,
}
use glassbox_agentic_governa.ToolRegistry.Pinned.{
  IsPinned, IsLoaded, is_in-keep, consider_all-IsPinned, consider_all_pins,
}

-- An approval is for the definition that is loaded, if there is one.
abbrev pub Approves : String → String → Digest → ToolRegistry → Type 0
Approves tenant_id tool_name digest r =
    (d : ToolDefinition) → IsLoaded tenant_id tool_name d r → lower digest ≡ d.definition_sha256

-- The registries that loads, approvals of loaded definitions and outages reach.
pub data Reachable : ToolRegistry → Type 0 where
  opened :
      Reachable (record { bundles = []; available = true; approved_digests = []; quarantined = [] })
  loaded : {r : ToolRegistry} (b : ToolRegistryBundle) → Reachable r → Reachable (load_bundle b r)
  approved :
      {r : ToolRegistry} (tenant_id tool_name : String) (digest : Digest)
      → Reachable r
      → Approves tenant_id tool_name digest r
      → Reachable (approve tenant_id tool_name digest r)
  switched :
      {r : ToolRegistry} (available : Bool) → Reachable r → Reachable (set_available available r)

-- Every loaded definition is quarantined or approved.
abbrev pub ArePinned : ToolRegistry → Type 0
ArePinned r =
    (tenant_id tool_name : String) (d : ToolDefinition)
    → IsLoaded tenant_id tool_name d r
    → IsPinned (tenant_id, tool_name) d.definition_sha256 r

consider-bundles :
    (tenant_id : String) (d : ToolDefinition) (r : ToolRegistry) (previous : Option Digest)
    → (on_previous (tenant_id, d.tool_name) d r previous).bundles ≡ r.bundles
consider-bundles tenant_id d r none = refl
consider-bundles tenant_id d r (some previous) =
    elim (Bool-cases (codes_beq previous d.definition_sha256)) [
      | inl same ↦ rw same refl
      | inr changed ↦ rw changed refl
    ]

consider_all-bundles :
    (tenant_id : String) (ds : List ToolDefinition) (r : ToolRegistry)
    → (consider_all tenant_id ds r).bundles ≡ r.bundles
unfolding consider_all consider
consider_all-bundles tenant_id [] r = refl
consider_all-bundles tenant_id (d ∷ ds) r =
    consider_all-bundles tenant_id ds (consider tenant_id d r)
    ∙ consider-bundles tenant_id d r (lookup (tenant_id, d.tool_name) r.approved_digests)

load_bundle-ArePinned :
    (b : ToolRegistryBundle) (r : ToolRegistry) → ArePinned r → ArePinned (load_bundle b r)
unfolding load_bundle
load_bundle-ArePinned b r h tenant_id tool_name d (c, found, resolved) =
    let considered = consider_all b.tenant_id b.definitions r in
    let read = lookup-insert b.tenant_id tenant_id b considered.bundles in
    elim (Bool-cases (b.tenant_id == tenant_id)) [
      | inl same ↦
          let named = (string_eq.beq_iff b.tenant_id tenant_id).0 same in
          let newest : some b ≡ some c = sym (read ∙ rw same refl) ∙ found in
          let current : resolve_in tool_name b.definitions ≡ some d = cc in
          subst (λ t. IsPinned (t, tool_name) d.definition_sha256 considered) named
            (consider_all_pins b.tenant_id tool_name b.definitions r d current)
      | inr other ↦
          let before : lookup tenant_id r.bundles ≡ some c =
            ap (lookup tenant_id) (sym (consider_all-bundles b.tenant_id b.definitions r))
            ∙ sym (read ∙ rw other refl)
            ∙ found in
          consider_all-IsPinned b.tenant_id b.definitions r (tenant_id, tool_name)
            d.definition_sha256 (h tenant_id tool_name d (c, before, resolved))
    ]

approve-ArePinned :
    (tenant_id tool_name : String) (digest : Digest) (r : ToolRegistry)
    → Approves tenant_id tool_name digest r
    → ArePinned r
    → ArePinned (approve tenant_id tool_name digest r)
unfolding approve
approve-ArePinned tenant_id tool_name digest r current h tenant tool d loaded_d =
    let approved_tool : ToolKey = (tenant_id, tool_name) in
    let asked : ToolKey = (tenant, tool) in
    let read = lookup-insert approved_tool asked (lower digest) r.approved_digests in
    elim (Bool-cases (approved_tool == asked)) [
      | inl same ↦
          let named : approved_tool ≡ asked = (pair_eq.beq_iff approved_tool asked).0 same in
          let tenants : tenant_id ≡ tenant = ap (λ k. k.0) named in
          let tools : tool_name ≡ tool = ap (λ k. k.1) named in
          let digests : lower digest ≡ d.definition_sha256 = current d (
            subst (λ t. IsLoaded t tool_name d r) (sym tenants)
              (subst (λ n. IsLoaded tenant n d r) (sym tools) loaded_d)) in
          inr (read ∙ rw same (ap (λ x. some x) digests))
      | inr other ↦ elim (h tenant tool d loaded_d) [
        | inl held ↦ inl (is_in-keep asked approved_tool r.quarantined other held)
        | inr before ↦ inr (read ∙ rw other before)
      ]
    ]

Reachable-ArePinned : {r : ToolRegistry} → Reachable r → ArePinned r
unfolding set_available lookup
Reachable-ArePinned opened =
    λ tenant_id tool_name d there. let found : none ≡ some there.0 = there.1 in absurd (cc)
Reachable-ArePinned (loaded {r = r} b h) = load_bundle-ArePinned b r (Reachable-ArePinned h)
Reachable-ArePinned (approved {r = r} tenant_id tool_name digest h current) =
    approve-ArePinned tenant_id tool_name digest r current (Reachable-ArePinned h)
Reachable-ArePinned (switched {r = r} available h) = Reachable-ArePinned h

bundle_or_raise-eq_ok :
    (o : Option ToolRegistryBundle) (b : ToolRegistryBundle) → bundle_or_raise o ≡ ok b → o ≡ some b
bundle_or_raise-eq_ok none b h = absurd (err≢ok h)
bundle_or_raise-eq_ok (some c) b h = cc

available_or :
    (available : Bool) (answer : Result ToolRegistryBundle) {b : ToolRegistryBundle}
    → (if not available then err tool_registry_unavailable else answer) ≡ ok b
    → answer ≡ ok b
available_or true answer h = h
available_or false answer h = absurd (err≢ok h)

at_digest-eq_ok :
    (presented : Digest) (o : Option ToolDefinition) (d : ToolDefinition)
    → at_digest presented o ≡ ok d
    → (o ≡ some d) × (d.definition_sha256 ≡ presented)
at_digest-eq_ok presented none d h = absurd (err≢ok h)
at_digest-eq_ok presented (some e) d h =
    elim (Bool-cases (codes_beq e.definition_sha256 presented)) [
      | inr differ ↦ absurd (err≢ok (rw differ at h))
      | inl same ↦
          let equal = (codes_beq_iff e.definition_sha256 presented).0 same in
          let found : ok e ≡ ok d = rw same at h in
          let one : e ≡ d = cc in
          (ap (λ x. some x) one, ap (λ x. x.definition_sha256) (sym one) ∙ equal)
    ]

-- A tool whose definition changed does not run on an old approval: over every history of loads,
-- outages and approvals, each approval for the digest of the definition that is loaded then, a tool
-- resolves only to the definition that is loaded for the tenant under that name, at the presented
-- digest in lower case, and that digest is the one that is approved for the tool.
pub resolve-Reachable :
    {r : ToolRegistry} (tenant_id tool_name : String) (presented : Digest) (d : ToolDefinition)
    → Reachable r
    → resolve tenant_id tool_name presented r ≡ ok d
    → IsLoaded tenant_id tool_name d r
      × (d.definition_sha256 ≡ lower presented)
      × (lookup (tenant_id, tool_name) r.approved_digests ≡ some d.definition_sha256)
unfolding resolve active_bundle resolve_from
resolve-Reachable {r} tenant_id tool_name presented d reached h =
    let (b, active, h1) =
      >>=-eq-ok (active_bundle tenant_id r) (resolve_from tenant_id tool_name presented r) h in
    elim (Bool-cases (is_in (tenant_id, tool_name) r.quarantined)) [
      | inl held ↦ absurd (err≢ok (rw held at h1))
      | inr free ↦
          let (resolved, digest) =
            at_digest-eq_ok (lower presented) (resolve_in tool_name b.definitions) d
              (rw free at h1) in
          let found =
            bundle_or_raise-eq_ok (lookup tenant_id r.bundles) b
              (available_or r.available (bundle_or_raise (lookup tenant_id r.bundles)) active) in
          let there : IsLoaded tenant_id tool_name d r = (b, found, resolved) in
          elim (Reachable-ArePinned reached tenant_id tool_name d there) [
            | inr pinned ↦ (there, digest, pinned)
            | inl held ↦ absurd (cc)
          ]
    ]
