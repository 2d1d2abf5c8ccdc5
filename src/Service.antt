-- ===== src/Service.antt =====
-- glassbox/app/decision_service.py: the orchestration of one decision, from its stages to the
-- evidence and the dispatch.
pub mod Ports
pub mod Checks
pub mod Budget
pub mod Evaluate
pub mod Conclude
pub mod Entry
pub mod Quiet
pub mod Stages
pub mod Trace
pub mod EvidenceFirst
pub mod Replay
pub mod EntryQuiet
pub mod EntrySafe
pub mod Unverified
pub mod Receipts
pub mod FailClosed
pub mod Tests
pub mod EntryTests
