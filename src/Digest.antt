-- ===== src/Digest.antt =====
-- The digest of unread mails: internal/gmail, internal/summary, internal/telegram and
-- internal/scheduler/digest_job.go.
pub mod Mail
pub mod Summary
pub mod Job
pub mod Telegram
