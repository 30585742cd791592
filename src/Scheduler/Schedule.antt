-- ===== src/Scheduler/Schedule.antt =====
-- `ScheduleJob` and `ListJobs` of the scheduler.
pub mod Unique
pub mod Effect
use gmaildigest_go.Prelude.{
  ℕ, Bool, List, [], ◌∷◌, Option, none, some, if◌then◌else◌, ltb, ◌&&◌, not, length, take, ◌==◌,
}
use gmaildigest_go.Prelude.Int.{ℤ, pos, negsuc}
use gmaildigest_go.Prelude.Text.{Text, eqt}
use gmaildigest_go.Prelude.Maps.{Map, insert}
use gmaildigest_go.Prelude.Results.{Result, ok, err, ◌>>=◌}
use gmaildigest_go.Cron.Calendar.{Time}
use gmaildigest_go.Jobs.Job.{Job, JobFilter, JobStatus, pending, unset}
use gmaildigest_go.Jobs.Store.{
  Json, Env, Table, StoreError, marshal_payload, create_job, update_job_in, list_jobs,
}
use gmaildigest_go.Scheduler.State.{
  Scheduler, signal_cron_wakeup, observe, jobs_scheduled, next_run_time,
}

-- The argument `payload interface{}`: a raw message, or another value with what marshalling it gives.
pub data PayloadArg : Type 0 where
  raw : Text → PayloadArg
  other : Option Text → PayloadArg

abbrev pub payload_json : PayloadArg → Option Text
payload_json (raw p) = some p
payload_json (other m) = m

-- The test of the deduplication loop.
unfoldable pub is_for : Text → Text → Text → Job → Bool
is_for user_id job_type schedule j =
    eqt j.user_id user_id && eqt j.job_type job_type && eqt j.schedule schedule

-- The first such job, in the order in which the map yields its entries.
unfoldable pub find_existing : Text → Text → Text → Map Job → Option (Text × Job)
find_existing u ty sch [] = none
find_existing u ty sch ((k, j) ∷ m) =
    if is_for u ty sch j then some (k, j) else find_existing u ty sch m

abbrev pub new_job : Text → Text → Text → Text → Time → Job
new_job user_id job_type schedule payload next_run = record {
  id = [];
  user_id = user_id;
  job_type = job_type;
  schedule = schedule;
  payload = payload;
  status = pending;
  retry_count = 0;
  last_error = [];
  next_run = next_run;
  last_run = none;
  created_at = 0;
  updated_at = 0;
}

module _ {H : Type 0} where
  abbrev pub finish_update :
      Text → Scheduler H → Job × Result StoreError Table → Scheduler H × Result StoreError Job
  finish_update k s (j, err x) = (record s { jobs = insert k j s.jobs }, err x)
  finish_update k s (j, ok t) =
      (signal_cron_wakeup (record s { jobs = insert k j s.jobs; store = t }), ok j)

  -- The branch for a job that exists: the object is changed before the store is.
  unfoldable pub reschedule :
      Json → Env → Scheduler H → Text → Job → Text → Time → Scheduler H × Result StoreError Job
  reschedule js e s k j payload next_run = finish_update k s (
      update_job_in js e s.store
        (record j { payload = payload; status = pending; retry_count = 0; next_run = next_run }))

  abbrev pub finish_create :
      Text → Scheduler H → Job × Result StoreError Table → Scheduler H × Result StoreError Job
  finish_create job_type s (j, err x) = (s, err x)
  finish_create job_type s (j, ok t) = (
    signal_cron_wakeup
        (observe (jobs_scheduled job_type) (record s { jobs = insert j.id j s.jobs; store = t })),
    ok j,
  )

  unfoldable pub schedule_new : Json → Env → Scheduler H → Job → Scheduler H × Result StoreError Job
  schedule_new js e s j = finish_create j.job_type s (create_job js e s.store j)

  abbrev pub schedule_found :
      Json
      → Env
      → Scheduler H
      → Text
      → Text
      → Text
      → Text
      → Time
      → Option (Text × Job)
      → Scheduler H × Result StoreError Job
  schedule_found js e s u ty sch payload next_run (some (k, j)) =
      reschedule js e s k j payload next_run
  schedule_found js e s u ty sch payload next_run none =
      schedule_new js e s (new_job u ty sch payload next_run)

  abbrev pub schedule_at :
      Json
      → Env
      → Scheduler H
      → Text
      → Text
      → Text
      → Text
      → Option Time
      → Option (Scheduler H × Result StoreError Job)
  schedule_at js e s u ty sch p none = none
  schedule_at js e s u ty sch p (some t) =
      some (schedule_found js e s u ty sch p t (find_existing u ty sch s.jobs))

  abbrev pub schedule_payload :
      ℕ
      → Json
      → Env
      → Scheduler H
      → Text
      → Text
      → Text
      → Option Text
      → Option (Scheduler H × Result StoreError Job)
  schedule_payload fuel js e s u ty sch none = some (s, err marshal_payload)
  schedule_payload fuel js e s u ty sch (some p) =
      schedule_at js e s u ty sch p (next_run_time fuel sch e.now)

  -- `ScheduleJob`. `none` means that the search for the next run did not end within the fuel,
  -- while the call holds the scheduler's lock.
  unfoldable pub schedule_job :
      ℕ
      → Json
      → Env
      → Scheduler H
      → Text
      → Text
      → Text
      → PayloadArg
      → Option (Scheduler H × Result StoreError Job)
  schedule_job fuel js e s u ty sch payload =
      schedule_payload fuel js e s u ty sch (payload_json payload)

pub record ListJobsOptions : Type 0 where
  pub job_type : Text
  pub user_id : Text
  pub status : JobStatus
  pub before : Time
  pub after : Time
  pub limit : ℤ

abbrev pub filter_of : ListJobsOptions → JobFilter
filter_of o = record {
  user_id = o.user_id;
  job_type = o.job_type;
  status = o.status;
  next_run = o.before;
  statuses = [];
}

-- The loop that drops what runs before `After`.
unfoldable pub keep_after : Time → List Job → List Job
keep_after after [] = []
keep_after after (j ∷ js) =
    let rest = keep_after after js in
    if not (after == 0) && ltb j.next_run after then rest else j ∷ rest

abbrev pub apply_limit : ℤ → List Job → List Job
apply_limit (pos n) js = if ltb 0 n && ltb n (length js) then take n js else js
apply_limit (negsuc n) js = js

abbrev pub no_options : ListJobsOptions
no_options = record {
  job_type = [];
  user_id = [];
  status = unset;
  before = 0;
  after = 0;
  limit = pos 0;
}

abbrev pub options_or : Option ListJobsOptions → ListJobsOptions
options_or none = no_options
options_or (some o) = o

unfoldable pub list_scheduled :
    {H : Type 0} → Json → Env → Scheduler H → Option ListJobsOptions → Result StoreError (List Job)
list_scheduled js e s opts = do
  let o = options_or opts
  jobs ← list_jobs js e s.store (filter_of o)
  ok (apply_limit o.limit (keep_after o.after jobs))
