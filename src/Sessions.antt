-- ===== src/Sessions.antt =====
-- Login sessions and their refresh tokens: services/auth/internal/handler/session/.
pub mod Model
pub mod Queries
pub mod Stored
pub mod Refresh
pub mod Logout
pub mod Fixtures
pub mod Spent
pub mod Lifecycle
