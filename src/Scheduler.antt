-- ===== src/Scheduler.antt =====
-- internal/scheduler/scheduler.go and job_handler.go: scheduling, dispatch and the outcome of jobs.
pub mod State
pub mod Schedule
pub mod Dispatch
pub mod Outcome
pub mod Lifecycle
pub mod Timing
pub mod TokenRefresh
pub mod Locks
