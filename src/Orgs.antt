-- ===== src/Orgs.antt =====
-- Organizations, their members and their invites: services/auth/internal/handler/org/ and
-- handler/invite/.
pub mod Model
pub mod Queries
pub mod Access
pub mod Owners
pub mod Untouched
pub mod Settings
pub mod Members
pub mod Invites
pub mod Authority
pub mod Lifecycle
pub mod Accepted
pub mod Spent
pub mod Fixtures
mod Tests
