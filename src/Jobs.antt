-- ===== src/Jobs.antt =====
-- The life of a job.
pub mod Model
pub mod Queries
pub mod Push
pub mod Callback
pub mod Hook
pub mod Watchdog
pub mod Poller
pub mod Queue
pub mod History
pub mod Validity
pub mod Rows
pub mod Lifecycle
pub mod Fixtures
mod Tests
