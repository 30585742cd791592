-- ===== src/Jobs/Job.antt =====
-- `Job`, `JobStatus` and `JobFilter`.
use gmaildigest_go.Prelude.{ℕ, ℕ_discrete, Bool, true, false, List, Option}
use gmaildigest_go.Prelude.Text.{Text}
use gmaildigest_go.Cron.Calendar.{Time}

-- The five statuses that the table allows, the empty string, and any text that is none of these.
pub data JobStatus : Type 0 where
  pending running completed failed dead unset : JobStatus
  other_status : Text → JobStatus

unfoldable pub status_dec : Discrete JobStatus
status_dec = hlevel (ℕ_discrete)

-- The zero time is 0.
pub record Job : Type 0 where
  pub id : Text
  pub user_id : Text
  pub job_type : Text
  pub schedule : Text
  pub payload : Text
  pub status : JobStatus
  pub retry_count : ℕ
  pub last_error : Text
  pub next_run : Time
  pub last_run : Option Time
  pub created_at : Time
  pub updated_at : Time

-- An empty text, the status `unset`, the zero time and the empty list select nothing.
pub record JobFilter : Type 0 where
  pub user_id : Text
  pub job_type : Text
  pub status : JobStatus
  pub next_run : Time
  pub statuses : List JobStatus

abbrev pub is_valid_status : JobStatus → Bool
is_valid_status unset = false
is_valid_status (other_status s) = false
is_valid_status _ = true
