-- ===== src/Lib.antt =====
-- Gmail Digest Assistant: a server that fetches, summarises and delivers mail digests. Modelled is
-- its core: the job scheduler, with its cron schedules, its job table and its worker pool, the
-- access to the users' accounts, with sessions, the OAuth flow, the refreshing of tokens and the
-- handlers of the web server, the storage of users and encrypted tokens with its transactions, the
-- configuration, and the digest itself.
--
-- A user signs in (internal/app, internal/auth, internal/session). `ScheduleJob` adds a recurring
-- job to the scheduler's map and to the table `jobs`; the scheduling loop sleeps until the next
-- run of a pending job, submits the jobs that are due to the worker pool, and each worker executes
-- the handler of the job's type and calls `OnSuccess` or `OnFailure`, which change the job again.
-- Token refresh is one such type of job. A digest reads the user's token from the storage, fetches
-- the unread mails, has them summarised and sends the summary to the user's Telegram chat.
--
-- Cron (internal/scheduler/cron.go):
-- - Cron/Words: `strings.Fields`, `strings.Split`, `strings.Contains` and `strconv.Atoi` on ASCII
--   text.
-- - Cron/Field: `parseCronField`; a `map[int]bool` is the list of its keys.
-- - Cron/Calendar: `time.Time` as nanoseconds since the year 1, in UTC, and its calendar fields.
--   The server's time zone is not modelled.
-- - Cron/Schedule: `CronSchedule`, `ParseCron` and `Next`. The loop of `Next` has no bound: it
--   runs on fuel, and `none` means that the fuel ran out. For schedules open in day, month and
--   weekday 1440 rounds are enough; for some schedules none are.
-- - Cron/Search, Cron/Horizon, Cron/Recurring and the children of Cron/Field and Cron/Calendar:
--   proofs.
--
-- Jobs (internal/scheduler/job.go):
-- - Jobs/Job: `Job`, `JobStatus`, `JobFilter`. Jobs/Store: `SQLiteJobStore`. The table is the list
--   of its rows; its key and its unique and check constraints are tested as SQLite does. Each call
--   is given an `Env`: the clock, the next UUID and whether the database fails. `encoding/json` is
--   a parameter that reads back what it writes.
-- - Jobs/Keys, Jobs/History, Jobs/Access, Jobs/Filter, Jobs/Listing: proofs.
--
-- Worker (internal/worker/pool.go):
-- - Worker/Pool: `WorkerPool`, `Metrics` and each method run by itself.
-- - Worker/System: the interleavings of submitters, workers, `ResetMetrics` and `Stop`, as a step
--   relation whose steps are the sections between two lock operations or channel operations.
-- - Worker/Invariant, Worker/Conservation, Worker/Shutdown: proofs.
--
-- Scheduler (internal/scheduler/scheduler.go, job_handler.go, token_refresh.go):
-- - Scheduler/State: `Scheduler`, the handler registry, `NewScheduler`, `nextRunTime`,
--   `findNextJobTime`; the Prometheus metrics of internal/metrics are a list of observations.
-- - Scheduler/Schedule: `ScheduleJob` and `ListJobs`. Scheduler/Dispatch: `dispatchDueJobs`.
--   Scheduler/Outcome: `Execute`, `OnSuccess`, `OnFailure`. Scheduler/Lifecycle: sequences of
--   events between two calls of `ScheduleJob`.
-- - A job object is shared between the map and its task: a task is the id of its job, and each
--   change of the object is a change of the entry. A call that searches for a next run gives
--   nothing where the fuel of the search ends.
-- - Scheduler/Locks: the order in which `dispatchDueJobs` with `Submit`, and `worker` with the
--   callbacks, take `JobMu` and the lock of the metrics, for one worker and without the data.
-- - Scheduler/TokenRefresh: the token refresh service. Setting its HTTP client is left out.
-- - The other children and Scheduler/Timing: proofs.
--
-- Session (internal/session): Session/Store is the in-memory store; Session/Granted says what it
-- grants, from its history.
--
-- Auth (internal/auth):
-- - Auth/Stores: the in-memory stores for states and PKCE verifiers, with their proofs below.
-- - Auth/OAuth: `OAuthManager`, `GetAuthURL` and `HandleCallback`; Auth/Renewal: `RefreshToken`
--   and `RevokeToken`; Auth/Credentials: `LoadCredentials`. The token storage is an interface with
--   one law, and what is used of the package oauth2 a record of functions, with the law that a
--   token source returns its token until that expires. A call that panics, on a missing
--   configuration, gives nothing.
-- - Auth/Refresh: the token refresh service. Printing errors is left out, and a missing token
--   without an error gives nothing, as the code panics.
--
-- App (internal/app): App/Middleware is `requireAuth`, with the cookie of the request and the
-- outcome for it. App/Handlers are the routes and the handlers, on the state that they share;
-- `a.Auth` is taken as the OAuth manager and `a.SessionStore` as the in-memory store, which the
-- calls fit. A request whose handler panics gives nothing. App/Handlers/Reached,
-- App/Handlers/Nobody and App/Handlers/Link: proofs. The header lines of replies other than the
-- location and the cookie are left out.
--
-- Settings (internal/config/config.go): Settings is `Load` with `applyEnvOverrides` and
-- `validate`, and Settings/Numbers the numbers with a sign, whose printing has the number itself
-- as fuel for its digits. Settings/Durations: durations in JSON. Settings/Loaded: proofs.
--
-- Storage (internal/storage):
-- - Storage/Config: the configuration of the database and its `Validate`.
-- - Storage/Database: the tables of the variable `migrations` as lists of rows, with their keys,
--   and the statements on them. Times are seconds since the year 1, as `CURRENT_TIMESTAMP` has
--   them. Foreign keys are not enforced.
-- - Storage/Sqlite: `SQLiteStorage`. Each call is given the clock of the database and whether the
--   database fails. Storage/Accounts: its two methods on the users with Telegram details.
--   Storage/Cleanup: the removal of old rows. Storage/Metrics: the counts.
-- - Storage/Transaction: `Transaction`: what the file holds, what the transaction sees, and
--   whether it is closed.
-- - Storage/Tokens: the encryption of tokens, and `TokenStore`; Storage/Tokens/Provided takes it
--   as the storage of Auth/OAuth. Storage/Connection: the scripts of backup.go as lists of
--   statements, on a connection with an attached file; as SQLite documents, `ATTACH` fails where
--   its name is in use and `DETACH` fails in the middle of a transaction. Storage/Backup: the
--   backups and restores that run them, and the status of the migrations.
-- - Storage/History: sequences of calls and of whole transactions, with what every statement
--   preserves. Storage/Keys, Storage/Access and the children: proofs.
--
-- Digest (internal/gmail, internal/summary, internal/scheduler/digest_job.go): Digest/Mail fetches
-- and parses mails, Digest/Summary asks for their summary, and Digest/Job is the job that sends
-- it. Digest/Telegram answers the commands of the bot. The Gmail API is an interface over the
-- states of a mailbox, with laws on the label UNREAD; OpenAI and Telegram are functions.
--
-- Prelude has the shared types and lemmas: texts as lists of bytes, Go maps as association lists
-- in the order in which they are ranged over, tables of rows, results, signed integers. Tests runs
-- the definitions on small inputs.
--
-- Counters are unbounded numbers: machine integers do not overflow at the sizes that occur. Not
-- modelled are contexts, logging, the remote services, the migration of the database by a library,
-- and the start of the program.
pub mod Prelude
pub mod Cron
pub mod Jobs
pub mod Worker
pub mod Scheduler
pub mod Session
pub mod Auth
pub mod App
pub mod Digest
pub mod Settings
pub mod Storage
mod Tests
