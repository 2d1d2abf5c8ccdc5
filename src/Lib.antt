-- ===== src/Lib.antt =====
-- A governance layer decides, for every action that an agent proposes, whether it may happen. The
-- decision service runs the stages of a decision in order (tool registry and catalogue, identity,
-- emergency stop, mandate, policy, risk, limits, baseline), writes the intent record, dispatches
-- the action if the decision allows it, and records the outcome. What it calls stands behind ports.
--
-- Parts, and the files of the program that they model:
--   Errors: glassbox/domain/errors.py, the exceptions as values and a result type.
--   Serialization: glassbox/domain/serialization.py, the checks of identifiers, texts and digests.
--   Glob: Python's fnmatch.fnmatchcase, which mandates and rules match names with.
--   Action: glassbox/domain/action.py, consequence classes, exposure, proposed actions.
--   Mandate: glassbox/domain/mandate.py, the ceiling of an agent's authority.
--   Risk: glassbox/domain/risk.py, the banding table, the consequence floor and scores.
--   Decision: glassbox/domain/decision.py, decisions, stages, outcomes, the lifecycle of approvals.
--   Merkle: glassbox/domain/merkle.py, roots and inclusion proofs over evidence.
--   Limits: glassbox/domain/limits.py, the keys and verdicts of counters, and the limit store of
--     glassbox/adapters/outbound/memory/governance_state.py.
--   Evidence: glassbox/domain/evidence.py, the records of a decision and the receipt.
--   EvidenceStore: glassbox/adapters/outbound/memory/evidence.py, the MAC chains of intents and
--     outcomes with their verification, purge and seals; glassbox/app/sealer.py over that store; and
--     glassbox/adapters/outbound/memory/signing.py, the local signer.
--   Scheduler: glassbox/app/retention_scheduler.py, when segments are sealed and purged.
--   Dispatch: glassbox/adapters/outbound/memory/dispatch.py, the dispatcher, alone and interleaved.
--   Catalogue: glassbox/domain/catalogue.py and glassbox/adapters/outbound/memory/catalogue.py, the
--     governed shape of actions, parameter schemas, exposure rules and attestations.
--   ToolRegistry: glassbox/domain/tool_registry.py and
--     glassbox/adapters/outbound/memory/tool_registry.py, tools pinned to their digests.
--   Policy: glassbox/domain/policy_bundle.py and glassbox/adapters/outbound/memory/policy.py, rules,
--     signed bundles and the decision point.
--   Workflow: glassbox/workflow/workflow_engine.py with the instances and steps of
--     glassbox/store/repository.py, the review of decisions that wait for a person.
--   Identity: glassbox/domain/identity.py, delegation chains and what they leave of a capability.
--   Service: glassbox/app/decision_service.py, DecisionService._evaluate with all its stages, and in
--     Service.Entry the entry points decide_and_dispatch, those for a request and a tool call, and
--     replay.
-- A constructor's check `__post_init__` is a function `make_...` into the result type; an operation
-- keeps the name of its method, without a leading underscore. Prelude holds the names that the
-- parts share.
--
-- How the program's constructs are read:
--   Numbers. Amounts, scores, priorities and moments are naturals. The source has floats for
--     amounts, scores and moments; the operations here only compare and add them. A parameter
--     of an action is an int or a float with a natural value; negative and fractional ones are not
--     values here.
--   Text. A text that the program walks is the list of its code points.
--   Ports. Service.Ports has one record with an operation per port, on a state of their own, so that
--     each call may answer differently and may raise. The service's steps log every call, the last
--     one first; the theorems on the service hold of every record of ports.
--   Parameters. SHA-256, the digest of a policy bundle and the verification of its signature are
--     parameters; of SHA-256 the theorems on Merkle trees assume only that a digest has 32 bytes.
--     HMAC, the canonical bytes of a record in its chain, the write-once storage of anchors and the
--     texts of numbers in the keys of the limit store are parameters too. Where records are to be
--     told apart by their bytes, the bytes are assumed to determine the evidence.
--   Interleaving. A dispatch checks its receipt without the lock and takes the lock three times: to
--     reserve the key, to release its place in flight, and to store the outcome. Any number of
--     callers is a sequence of these steps.
--   Fuel. The loops over Merkle trees, patterns and bits run on fuel. A tree's fuel is the number of
--     its leaves and a pattern's is its length: every step takes one away from what is left.
--
-- Left out: logs, metrics and tracing; the texts of error messages and, in rationales, the numbers
-- they quote; model provenance and attributes of records; risk factors, which these operations do
-- not read; canonical JSON; the reasons of skipped stages; the patterns that find an injected
-- prompt, whose scan is a parameter; diff_outcomes of two decisions. The adapters for
-- databases, brokers and the network call other services.
pub mod Prelude
pub mod Errors
pub mod Scheduler
pub mod Serialization
pub mod Glob
pub mod Action
pub mod Mandate
pub mod Risk
pub mod Decision
pub mod Merkle
pub mod Limits
pub mod Evidence
pub mod Policy
pub mod Workflow
pub mod Service
pub mod EvidenceStore
pub mod Dispatch
pub mod Catalogue
pub mod ToolRegistry
pub mod Identity
