-- ===== src/Auth.antt =====
-- Access to the users' mail accounts: `internal/auth`.
pub mod Stores
pub mod OAuth
pub mod Renewal
pub mod Credentials
pub mod Refresh
