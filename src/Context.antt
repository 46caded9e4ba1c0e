-- ===== src/Context.antt =====
-- Context tokens: who may read the context of a repository by its link. Handlers of
-- api/internal/handler/contexturl/ and api/internal/handler/contexttokens/.
pub mod Model
pub mod Queries
pub mod Visit
pub mod Manage
pub mod Reach
mod Tests
