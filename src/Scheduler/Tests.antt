-- ===== src/Scheduler/Tests.antt =====
-- glassbox/app/retention_scheduler.py at concrete inputs: a segment with one intent, which a pass
-- seals and purges.
use glassbox_agentic_governa.Prelude.{ℕ, String, List, [], ◌∷◌}
use glassbox_agentic_governa.EvidenceStore.Tests.{toy_sha256, shelf, signer, one_intent}
use glassbox_agentic_governa.Merkle.{Bytes}
use glassbox_agentic_governa.EvidenceStore.{genesis_prev_hash}
use glassbox_agentic_governa.Scheduler.{RetentionScheduler, RetentionOutcome, run_once}
use glassbox_agentic_governa.Errors.{Result}
use glassbox_agentic_governa.EvidenceStore.Reports.{WormAnchor}
use glassbox_agentic_governa.EvidenceStore.Store.{EvidenceStore}
use glassbox_agentic_governa.Scheduler.Sweeps.{Swept, run_once-Swept}
use glassbox_agentic_governa.Scheduler.Passes.{Complete, run_once-Complete}

abbrev eager : RetentionScheduler
eager = record { seal_after_seconds = 0; purge_grace_seconds = 0 }

abbrev zero_text : ℕ → String
zero_text n = "0"

abbrev toy_canonical : String → String → String → Bytes → ℕ → ℕ → ℕ → ℕ → Bytes
toy_canonical a g t r z f l n = genesis_prev_hash

abbrev twice : List String
twice = "s1" ∷ "s1" ∷ []

abbrev pass : Result (List RetentionOutcome) × EvidenceStore × List WormAnchor
pass = run_once toy_sha256 zero_text toy_canonical shelf signer eager twice 300 one_intent []

run_once-Swept_example :
    Swept toy_sha256 zero_text toy_canonical shelf signer eager 300 one_intent [] pass.1 pass.2
run_once-Swept_example =
    run_once-Swept toy_sha256 zero_text toy_canonical shelf signer eager twice 300 one_intent []

run_once-Complete_example :
    Complete twice
      (run_once toy_sha256 zero_text toy_canonical shelf signer eager twice 300 one_intent []).0
run_once-Complete_example =
    run_once-Complete toy_sha256 zero_text toy_canonical shelf signer eager twice 300 one_intent []
