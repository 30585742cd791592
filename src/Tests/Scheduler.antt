-- ===== src/Tests/Scheduler.antt =====
-- A scheduler with one hourly job.
use gmaildigest_go.Prelude.{◌*◌, ◌≡◌, refl, true, false, List, [], ◌∷◌, some, none, arith}
use gmaildigest_go.Prelude.Int.{pos}
use gmaildigest_go.Prelude.Text.{Text, codes, text_dec}
use gmaildigest_go.Prelude.Maps.{lookup, insert}
use gmaildigest_go.Prelude.Results.{ok}
use gmaildigest_go.Cron.Words.{fields, split, atoi, contains}
use gmaildigest_go.Cron.Field.{has, parse_field, parse_part, fill}
use gmaildigest_go.Cron.Calendar.{
  Time, hour, minute_of, hour_of, day_of, month_of, weekday_of, civil_month, march_month,
  day_of_month, day_of_year, year_of_era,
}
use gmaildigest_go.Cron.Schedule.{parse_cron, matches, next, first_candidate}
use gmaildigest_go.Jobs.Job.{Job, pending, completed, status_dec}
use gmaildigest_go.Jobs.Store.{Json, Env, update_job_in, update_row, update_rows, set_row}
use gmaildigest_go.Worker.Pool.{new_worker_pool, submit, send}
use gmaildigest_go.Scheduler.State.{Scheduler, jobs_completed, jobs_in_flight_dec, next_run_time}
use gmaildigest_go.Scheduler.Schedule.{raw, is_for, find_existing, reschedule, schedule_job}
use gmaildigest_go.Scheduler.Schedule.Unique.{Unique, schedule_job-Unique}
use gmaildigest_go.Scheduler.Schedule.Effect.{Asked, Kept, schedule_job-ok}
use gmaildigest_go.Scheduler.Dispatch.{is_due, start_job, dispatch_job, dispatch_due_jobs}
use gmaildigest_go.Scheduler.Dispatch.Sweep.{
  Swept, AllStarted, dispatch_due_jobs-Swept, dispatch_due_jobs-AllStarted,
}
use gmaildigest_go.Scheduler.Outcome.{on_success, completed_job}
use gmaildigest_go.Scheduler.Lifecycle.{Event, dispatches, step, steps}
use gmaildigest_go.Scheduler.Lifecycle.Entries.{Parked}
use gmaildigest_go.Scheduler.Lifecycle.Parked.{on_success-steps}

abbrev plain_json : Json
plain_json = record {
  marshal = λ p. some p;
  unmarshal = λ p. some p;
  unmarshal-marshal = λ p q h. refl;
}

abbrev env : Env
env = record { now = 1000; uuid = codes "u1"; db_fails = false }

abbrev envs : Text → Env
envs k = env

abbrev digest_job : Job
digest_job = record {
  id = codes "j1";
  user_id = codes "ann";
  job_type = codes "digest";
  schedule = codes "0 * * * *";
  payload = codes "{}";
  status = pending;
  retry_count = 0;
  last_error = [];
  next_run = 1500;
  last_run = none;
  created_at = 7;
  updated_at = 7;
}

-- The job waits, and the pool has two workers and an empty queue.
abbrev ready : Scheduler (Unit {0})
ready = record {
  store = digest_job ∷ [];
  jobs = (codes "j1", digest_job) ∷ [];
  cron_wakeup = false;
  pool = new_worker_pool Text (pos 2);
  registry = [];
  observed = [];
}

dispatch_due_jobs-Swept_example :
    Swept envs 2000 ready.jobs
      (dispatch_due_jobs plain_json envs 2000 ready).jobs
      ready.pool
      (dispatch_due_jobs plain_json envs 2000 ready).pool
unfolding new_worker_pool
dispatch_due_jobs-Swept_example = dispatch_due_jobs-Swept plain_json envs 2000 ready refl

one_started : (dispatch_due_jobs plain_json envs 2000 ready).pool.queue ≡ codes "j1" ∷ []
unfolding dispatch_due_jobs dispatch_job start_job is_due status_dec submit send new_worker_pool
    update_job_in update_row update_rows set_row text_dec
one_started = refl

dispatch_due_jobs-AllStarted_example :
    AllStarted envs 2000 ready.jobs (dispatch_due_jobs plain_json envs 2000 ready).jobs
unfolding new_worker_pool
dispatch_due_jobs-AllStarted_example =
    dispatch_due_jobs-AllStarted plain_json envs 2000 ready refl refl (omega arith)

abbrev moved_job : Job
moved_job = record digest_job { next_run = hour; updated_at = 1000 }

abbrev scheduled : Scheduler (Unit {0})
scheduled = record ready {
  store = moved_job ∷ [];
  jobs = (codes "j1", moved_job) ∷ [];
  cron_wakeup = true;
}

hourly_run : next_run_time 60 (codes "0 * * * *") 1000 ≡ some hour
unfolding next_run_time parse_cron fields parse_field parse_part text_dec split contains atoi fill
    next first_candidate matches has minute_of hour_of day_of month_of weekday_of civil_month
    march_month day_of_month day_of_year year_of_era
hourly_run = refl

rescheduled :
    schedule_job 60 plain_json env ready
      (codes "ann")
      (codes "digest")
      (codes "0 * * * *")
      (raw (codes "{}"))
    ≡ some (scheduled, ok moved_job)
unfolding schedule_job find_existing is_for reschedule update_job_in update_row update_rows set_row
    insert text_dec
rescheduled = rw hourly_run refl

schedule_job-ok_example :
    (time : Time) × (next_run_time 60 (codes "0 * * * *") 1000 ≡ some time)
    × (Asked (codes "ann") (codes "digest") (codes "0 * * * *") time moved_job
        × Kept scheduled moved_job)
schedule_job-ok_example =
    schedule_job-ok 60 plain_json env ready scheduled (codes "ann") (codes "digest")
      (codes "0 * * * *") moved_job (raw (codes "{}")) rescheduled

schedule_job-Unique_example : Unique scheduled.jobs
schedule_job-Unique_example =
    schedule_job-Unique 60 plain_json env ready (codes "ann") (codes "digest") (codes "0 * * * *")
      (raw (codes "{}")) (scheduled, ok moved_job) (tt, tt) rescheduled

abbrev done_job : Job
done_job = record digest_job { status = completed; next_run = hour; updated_at = 1000 }

abbrev done : Scheduler (Unit {0})
done = record ready {
  store = done_job ∷ [];
  jobs = (codes "j1", done_job) ∷ [];
  cron_wakeup = true;
  observed = jobs_completed (codes "digest") ∷ jobs_in_flight_dec ∷ [];
}

succeeded : on_success 60 plain_json env ready digest_job ≡ some done
unfolding on_success completed_job update_job_in update_row update_rows set_row insert text_dec
succeeded = rw hourly_run refl

-- A dispatch long after the next run.
abbrev much_later : List Event
much_later = dispatches envs (2 * hour) ∷ []

nothing_happens : steps 60 plain_json done much_later ≡ some done
unfolding steps step dispatch_due_jobs dispatch_job is_due status_dec
nothing_happens = refl

ready_open : ready.pool.closed ≡ false
unfolding new_worker_pool
ready_open = refl

on_success-steps_example :
    (j : Job) × (lookup (codes "j1") done.jobs ≡ some j) × ((now : Time) → is_due now j ≡ false)
on_success-steps_example =
    on_success-steps 60 plain_json env ready done done digest_job much_later ready_open succeeded
      nothing_happens

done-Parked : Parked (codes "j1") done.jobs
unfolding lookup text_dec status_dec
done-Parked = (done_job, refl, refl)

done_open : done.pool.closed ≡ false
unfolding new_worker_pool
done_open = refl
