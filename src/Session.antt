-- ===== src/Session.antt =====
-- Sessions of the web server: `internal/session`.
pub mod Store
pub mod Granted
