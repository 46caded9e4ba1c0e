-- ===== src/Workspace.antt =====
-- Organizations of the API service: services/api/internal/handler/org/handler.go.
pub mod Model
pub mod Queries
pub mod Handlers
pub mod Owned
pub mod Lifecycle
pub mod Ranks
pub mod Scope
mod Tests
