-- ===== src/Traffic.antt =====
-- internal/traffic/spool.go and the two loops of internal/agent/agent.go that move traffic through
-- the spool. `Spool` has the directory and its operations, `Deliver` the agent's side.
pub mod Spool
pub mod Deliver
mod Tests
