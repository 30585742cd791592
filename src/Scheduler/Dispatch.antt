-- ===== src/Scheduler/Dispatch.antt =====
-- `dispatchDueJobs`.
pub mod Effects
pub mod Sweep
use gmaildigest_go.Prelude.{
  Bool, true, false, List, [], ◌∷◌, Option, none, some, if◌then◌else◌, ltb, ◌&&◌, not,
}
use gmaildigest_go.Prelude.Text.{Text}
use gmaildigest_go.Prelude.Maps.{Map}
use gmaildigest_go.Prelude.Results.{Result, ok, err}
use gmaildigest_go.Cron.Calendar.{Time}
use gmaildigest_go.Jobs.Job.{Job, running}
use gmaildigest_go.Jobs.Store.{Json, Env, Table, StoreError, update_job_in}
use gmaildigest_go.Worker.Pool.{WorkerPool, submit}
use gmaildigest_go.Scheduler.State.{Scheduler, Observation, jobs_in_flight_inc, is_pending}

-- `job.Status == JobStatusPending && !job.NextRun.After(now)`.
unfoldable pub is_due : Time → Job → Bool
is_due now j = is_pending j && not (ltb now j.next_run)

-- What one round of the loop reads and changes beside the job.
pub record Shared : Type 0 where
  pub store : Table
  pub pool : WorkerPool Text
  pub observed : List Observation

-- A failed update leaves the store as it was; the object keeps its change in both cases.
abbrev pub keep_store : Shared → Job × Result StoreError Table → Job × Shared
keep_store w (j, ok t) = (j, record w { store = t })
keep_store w (j, err x) = (j, w)

unfoldable pub start_job : Json → Env → Time → Shared → Job → Job × Shared
start_job js e now w j =
    keep_store (record w { observed = jobs_in_flight_inc ∷ w.observed })
      (update_job_in js e w.store (record j { status = running; last_run = some now }))

-- The pool refuses by `false`. It does not panic: its channel is closed only once it is stopped.
abbrev pub after_submit :
    Json → Env → Time → Shared → Job → WorkerPool Text × Option Bool → Job × Shared
after_submit js e now w j (p, some true) = start_job js e now (record w { pool = p }) j
after_submit js e now w j (p, some false) = (j, record w { pool = p })
after_submit js e now w j (p, none) = (j, record w { pool = p })

-- The body of the loop. The task of a job is its id.
unfoldable pub dispatch_job : Json → Env → Time → Shared → Job → Job × Shared
dispatch_job js e now w j =
    if is_due now j then after_submit js e now w j (submit w.pool j.id) else (j, w)

-- The loop over the entries, in the order in which the map yields them; the environment is that of
-- the update of each job.
unfoldable pub dispatch_loop : Json → (Text → Env) → Time → Shared → Map Job → Map Job × Shared
dispatch_loop js env now w [] = ([], w)
dispatch_loop js env now w ((k, j) ∷ m) =
    let (j', w') = dispatch_job js (env k) now w j in
    let (m', w'') = dispatch_loop js env now w' m in ((k, j') ∷ m', w'')

unfoldable pub dispatch_due_jobs :
    {H : Type 0} → Json → (Text → Env) → Time → Scheduler H → Scheduler H
unfolding dispatch_loop
dispatch_due_jobs js env now s =
    let (m, w) =
      dispatch_loop js env now (record { store = s.store; pool = s.pool; observed = s.observed })
        s.jobs in
    record s { jobs = m; store = w.store; pool = w.pool; observed = w.observed }
