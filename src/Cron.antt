-- ===== src/Cron.antt =====
-- internal/scheduler/cron.go: the five-field cron parser and the search for the next run.
pub mod Words
pub mod Field
pub mod Calendar
pub mod Schedule
pub mod Search
pub mod Horizon
pub mod Recurring
