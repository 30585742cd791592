-- ===== src/App.antt =====
-- The web application: `internal/app`.
pub mod Middleware
pub mod Handlers
