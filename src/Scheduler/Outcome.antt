-- ===== src/Scheduler/Outcome.antt =====
-- `JobTask.Execute`, `OnSuccess` and `OnFailure`. Each is given the job object as it is at the call.
use gmaildigest_go.Prelude.{ℕ, suc, ◌+◌, ◌*◌, [], Option, none, some, if◌then◌else◌, ltb, leb}
use gmaildigest_go.Prelude.Text.{Text}
use gmaildigest_go.Prelude.Maps.{insert}
use gmaildigest_go.Prelude.Results.{Result, ok, err}
use gmaildigest_go.Cron.Calendar.{Time, minute, hour}
use gmaildigest_go.Jobs.Job.{Job, completed, failed}
use gmaildigest_go.Jobs.Store.{Json, Env, Table, StoreError, update_job_in}
use gmaildigest_go.Scheduler.State.{
  Scheduler, jobs_completed, jobs_failed, job_retries, jobs_in_flight_dec, job_duration, observe,
  signal_cron_wakeup, get_handler, next_run_time,
}

pub data TaskError : Type 0 where
  nil_job : TaskError
  no_handler : Text → TaskError
  handler_error : Text → TaskError

-- What calling a handler does: the job object afterwards, the error if any, and the time it took.
pub record Handlers (H : Type 0) : Type 0 where
  pub call : H → Job → Job × Option Text × ℕ

abbrev pub as_error : Option Text → Option TaskError
as_error none = none
as_error (some x) = some (handler_error x)

-- `RetryCount² · time.Minute`, capped at 24 hours.
unfoldable pub retry_delay : ℕ → ℕ
retry_delay n = if ltb (24 * hour) (n * n * minute) then 24 * hour else n * n * minute

-- The next run after the n-th failure; the zero time stands for no more retries.
unfoldable pub retry_time : ℕ → Time → Time
retry_time n now = if leb 5 n then 0 else now + retry_delay n

-- The assignments of `OnSuccess` and of `OnFailure` to the job object.
unfoldable pub completed_job : Job → Time → Job
completed_job j t = record j { status = completed; last_error = []; retry_count = 0; next_run = t }

unfoldable pub failed_job : Job → Text → Time → Job
failed_job j message now = record j {
  status = failed;
  last_error = message;
  retry_count = suc j.retry_count;
  next_run = retry_time (suc j.retry_count) now;
}

module _ {H : Type 0} where
  abbrev pub after_call :
      Scheduler H → Job × Option Text × ℕ → Scheduler H × Option Job × Option TaskError
  after_call s (j, x, duration) = (observe (job_duration j.job_type duration) s, some j, as_error x)

  abbrev pub execute_with :
      Handlers H → Scheduler H → Job → Option H → Scheduler H × Option Job × Option TaskError
  execute_with hs s j none = (s, some j, some (no_handler j.job_type))
  execute_with hs s j (some h) = after_call s (hs.call h j)

  -- `Execute`: the scheduler, the job object and the error. The duration is labelled by the type
  -- that the object has after the call.
  unfoldable pub execute :
      Handlers H → Scheduler H → Option Job → Scheduler H × Option Job × Option TaskError
  execute hs s none = (s, none, some nil_job)
  execute hs s (some j) = execute_with hs s j (get_handler s.registry j.job_type)

  abbrev pub persist : Scheduler H → Job × Result StoreError Table → Scheduler H
  persist s (j, ok t) = signal_cron_wakeup (record s { jobs = insert j.id j s.jobs; store = t })
  persist s (j, err x) = signal_cron_wakeup (record s { jobs = insert j.id j s.jobs })

  abbrev pub observe_success : Job → Scheduler H → Scheduler H
  observe_success j s = observe (jobs_completed j.job_type) (observe jobs_in_flight_dec s)

  abbrev pub observe_failure : Job → Scheduler H → Scheduler H
  observe_failure j s =
      observe (job_retries j.job_type)
        (observe (jobs_failed j.job_type) (observe jobs_in_flight_dec s))

  abbrev pub succeed : Json → Env → Scheduler H → Job → Option Time → Option (Scheduler H)
  succeed js e s j none = none
  succeed js e s j (some t) =
      some (persist (observe_success j s) (update_job_in js e s.store (completed_job j t)))

  -- `OnSuccess`; `none` means that the search for the next run did not end within the fuel.
  unfoldable pub on_success : ℕ → Json → Env → Scheduler H → Job → Option (Scheduler H)
  on_success fuel js e s j = succeed js e s j (next_run_time fuel j.schedule e.now)

  unfoldable pub on_failure : Json → Env → Scheduler H → Job → Text → Scheduler H
  on_failure js e s j message =
      persist (observe_failure j s) (update_job_in js e s.store (failed_job j message e.now))
