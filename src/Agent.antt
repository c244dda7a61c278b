-- ===== src/Agent.antt =====
-- internal/agent/agent.go: the agent's loop, in parts. `Mode` has what a round makes of the node's mode,
-- `Reload` how it brings a desired state to the core, `External` the mirror of the limits, `Sessions`
-- the merge of session reports.
pub mod Mode
pub mod Reload
pub mod Bring
pub mod External
pub mod Sessions
pub mod Snapshot
pub mod Round
pub mod Report
pub mod Sync
pub mod Run
mod Tests
mod SyncTests
mod RunTests
