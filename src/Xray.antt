-- ===== src/Xray.antt =====
-- internal/xray: `Email` has the accounting names of builder.go, `Plan` the hot-reload plan of
-- runtime.go.
pub mod Email
pub mod Plan
pub mod Config
pub mod Manager
pub mod Stats
pub mod Command
pub mod Version
mod TableCore
mod Tests
mod ManagerTests
mod ConfigTests
mod StatsTests
mod CommandTests
