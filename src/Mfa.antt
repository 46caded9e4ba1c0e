-- ===== src/Mfa.antt =====
-- The second factor at login: services/auth/internal/handler/mfa/challenge.go.
pub mod Model
pub mod Backup
