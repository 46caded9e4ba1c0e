-- ===== src/Webhooks.antt =====
-- Outgoing webhooks: services/auth/internal/service/webhook/.
pub mod Model
pub mod Rows
pub mod Dispatcher
