-- ===== src/Mandate/Tests.antt =====
-- glassbox/domain/mandate.py at concrete inputs: a treasury agent that may wire up to 500 from one
-- account, and a call of a pinned tool.
use glassbox_agentic_governa.Prelude.{◌≡◌, ◌↔◌, refl, true, false, none, some, [], ◌∷◌, arith}
use glassbox_agentic_governa.Prelude.Text.{codes}
use glassbox_agentic_governa.Errors.{ok}
use glassbox_agentic_governa.Serialization.{
  require_non_empty, require_identifier, is_whitespace, is_blank, matches_identifier_pattern,
  matches_tail, is_identifier_char, is_alphanumeric, require_timestamp,
}
use glassbox_agentic_governa.Action.{ProposedAction, Exposure, irreversible, single}
use glassbox_agentic_governa.Mandate.{
  Mandate, MandateVerdict, Digest, make_mandate, permits, exposure_exceeds_ceiling, each_ok,
  optional_timestamp, is_after, has_duplicate, refusal_reasons,
}
use glassbox_agentic_governa.Mandate.Authority.{Authorises, permits_iff}
use glassbox_agentic_governa.Mandate.Reasons.{reports, fails, refusal_reasons_complete}

abbrev pub five_hundred : Exposure
five_hundred = record { blast_radius = single; monetary = some 500; records = none }

abbrev pub digest_a : Digest
digest_a = codes "aa"

abbrev pub treasury : Mandate
treasury = record {
  tenant_id = "t1";
  agent_ref = "agent-7";
  version = 3;
  max_consequence = irreversible;
  max_exposure = five_hundred;
  valid_from = 100;
  allowed_actions = "payments.*" ∷ [];
  allowed_resources = "account/*" ∷ [];
  tool_grants =
      record {
        tool_name = "wire";
        definition_sha256 = digest_a;
        max_consequence = irreversible;
        requires_approval = false;
      }
      ∷ [];
  valid_until = some 1000;
  revoked_at = none;
  approved_by = "cfo" ∷ [];
  resource_scoped_grants = [];
}

abbrev pub wire_400 : ProposedAction
wire_400 = record {
  action = "payments.wire";
  resource = record { kind = "account"; id = "ACC-1"; tenant_id = "t1" };
  consequence = irreversible;
  exposure = record { blast_radius = single; monetary = some 400; records = none };
  idempotency_key = "k1";
  parameters = [];
}

permits_iff_example :
    (v : MandateVerdict) × (permits treasury wire_400 200 ≡ ok v)
    × (v.mandate_version ≡ 3)
    × ((v.permitted ≡ true) ↔ Authorises treasury wire_400 200)
permits_iff_example = permits_iff treasury wire_400 200 (omega arith)

treasury_made : make_mandate treasury ≡ ok treasury
unfolding make_mandate require_identifier require_non_empty is_blank is_whitespace
    matches_identifier_pattern matches_tail is_identifier_char is_alphanumeric require_timestamp
    each_ok optional_timestamp is_after has_duplicate
treasury_made = refl

wire_named : require_identifier (codes "wire") "tool_name" ≡ ok (codes "wire")
unfolding require_identifier require_non_empty is_blank is_whitespace matches_identifier_pattern
    matches_tail is_identifier_char is_alphanumeric
wire_named = refl

digest_full : require_non_empty (codes "AA") "definition_sha256" ≡ ok (codes "AA")
unfolding require_non_empty is_blank is_whitespace
digest_full = refl

refusal_reasons_complete_example :
    reports exposure_exceeds_ceiling (refusal_reasons treasury wire_400 200)
    ≡ fails treasury wire_400 200 exposure_exceeds_ceiling
refusal_reasons_complete_example =
    refusal_reasons_complete treasury wire_400 200 exposure_exceeds_ceiling
