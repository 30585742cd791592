-- ===== src/Jobs.antt =====
-- internal/scheduler/job.go: jobs and their SQLite store.
pub mod Job
pub mod Store
pub mod Keys
pub mod History
pub mod Access
pub mod Filter
pub mod Listing
