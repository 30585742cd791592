-- ===== src/Storage.antt =====
-- The storage of the program: `internal/storage`.
pub mod Config
pub mod Database
pub mod Sqlite
pub mod Cleanup
pub mod Transaction
pub mod Keys
pub mod History
pub mod Access
pub mod Metrics
pub mod Tokens
pub mod Accounts
pub mod Connection
pub mod Backup
