-- ===== src/Limits.antt =====
-- internal/limits: the policy file that the patched core reads (`PolicyFile`), with the tombstones of
-- removed users (`Tombstones`), and the observe-only backend.
pub mod PolicyFile
pub mod Backend
pub mod Service
mod Tests
mod ServiceTests
