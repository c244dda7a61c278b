-- ===== src/Session.antt =====
-- internal/session: who uses a node, as the access log tells.
pub mod Tracker
pub mod Address
pub mod AccessLine
pub mod LogFile
mod Tests
mod LogTests
