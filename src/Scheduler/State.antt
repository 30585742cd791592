-- ===== src/Scheduler/State.antt =====
-- `Scheduler` and `JobHandlerRegistry`. A task of the pool is the id of its job; the job object that
-- a task points to is the entry of that id in `jobs`.
use gmaildigest_go.Prelude.{
  ℕ, ◌+◌, Bool, true, false, List, [], ◌∷◌, Option, none, some, if◌then◌else◌, map, ltb, ite, ◌&&◌,
  ◌*◌,
}
use gmaildigest_go.Prelude.Text.{Text, is_empty}
use gmaildigest_go.Prelude.Maps.{Map, lookup, insert, delete}
use gmaildigest_go.Prelude.Results.{Result, ok, err, ◌>>=◌}
use gmaildigest_go.Cron.Calendar.{Time, hour}
use gmaildigest_go.Cron.Schedule.{CronError, CronSchedule, parse_cron, next}
use gmaildigest_go.Jobs.Job.{Job, JobFilter, pending, unset, status_dec}
use gmaildigest_go.Jobs.Store.{Json, Env, Table, StoreError, initialize, list_jobs}
use gmaildigest_go.Worker.Pool.{WorkerPool}

-- A change of a Prometheus metric; the text is the label `job_type`.
pub data Observation : Type 0 where
  jobs_scheduled jobs_completed jobs_failed job_retries : Text → Observation
  jobs_in_flight_inc jobs_in_flight_dec : Observation
  job_duration : Text → ℕ → Observation

-- `H` is the type of handlers, a Go function value each.
pub record Scheduler (H : Type 0) : Type 0 where
  pub store : Table
  pub jobs : Map Job
  pub cron_wakeup : Bool
  pub pool : WorkerPool Text
  pub registry : Map H
  pub observed : List Observation

module _ {H : Type 0} where
  -- `RegisterHandler`: an empty type and a nil handler are ignored.
  unfoldable pub register_handler : Map H → Text → Option H → Map H
  register_handler r job_type none = r
  register_handler r job_type (some h) = if is_empty job_type then r else insert job_type h r

  unfoldable pub get_handler : Map H → Text → Option H
  get_handler r job_type = lookup job_type r

  unfoldable pub unregister_handler : Map H → Text → Map H
  unregister_handler r job_type = delete job_type r

  pub list_handler_types : Map H → List Text
  list_handler_types r = map (λ e. e.0) r

  -- `signalCronWakeup`: the channel holds one signal at most.
  abbrev pub signal_cron_wakeup : Scheduler H → Scheduler H
  signal_cron_wakeup s = record s { cron_wakeup = true }

  abbrev pub observe : Observation → Scheduler H → Scheduler H
  observe o s = record s { observed = o ∷ s.observed }

-- The body of `loadJobsFromDB` and the maps of `NewScheduler`.
unfoldable pub load_jobs : Map Job → List Job → Map Job
load_jobs m [] = m
load_jobs m (j ∷ js) = load_jobs (insert j.id j m) js

abbrev pub no_filter : JobFilter
no_filter = record { user_id = []; job_type = []; status = unset; next_run = 0; statuses = [] }

abbrev pub start_with : (H : Type 0) → Table → WorkerPool Text → List Job → Scheduler H
start_with H t p js = record {
  store = t;
  jobs = load_jobs [] js;
  cron_wakeup = false;
  pool = p;
  registry = [];
  observed = [];
}

-- `NewScheduler`, with an environment for each of its two statements.
unfoldable pub new_scheduler :
    (H : Type 0) → Json → Env → Env → Table → WorkerPool Text → Result StoreError (Scheduler H)
unfolding load_jobs
new_scheduler H js e₁ e₂ t p = do
  u ← initialize e₁ t
  loaded ← list_jobs js e₂ u no_filter
  ok (start_with H u p loaded)

abbrev pub next_of : ℕ → Time → Result CronError CronSchedule → Option Time
next_of fuel now (err x) = some (now + hour)
next_of fuel now (ok c) = next fuel c now

-- `nextRunTime`. `none` means that the search for the next run did not end within the fuel.
unfoldable pub next_run_time : ℕ → Text → Time → Option Time
next_run_time fuel schedule now = next_of fuel now (parse_cron schedule)

abbrev pub is_pending : Job → Bool
is_pending j = ite (status_dec j.status pending) true false

-- The loop of `findNextJobTime`, over the entries in the order in which the map yields them.
unfoldable pub soonest : Map Job → Time → Time
soonest [] best = best
soonest ((k, j) ∷ m) best =
    soonest m (if is_pending j && ltb j.next_run best then j.next_run else best)

unfoldable pub find_next_job_time : {H : Type 0} → Scheduler H → Time → Time
unfolding soonest
find_next_job_time s now = soonest s.jobs (now + 24 * hour)
