-- ===== src/Tests.antt =====
-- Runs of the definitions on small inputs, and the theorems at concrete arguments.
mod Cron
mod Jobs
mod Worker
mod Scheduler
mod Session
mod Auth
mod Storage
mod Database
mod Tokens
mod Backup
mod Digest
mod Settings
mod App
