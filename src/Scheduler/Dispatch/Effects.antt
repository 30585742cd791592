-- ===== src/Scheduler/Dispatch/Effects.antt =====
-- What one call of `dispatchDueJobs` does to the jobs and to the queue of the pool.
use gmaildigest_go.Prelude.{
  ◌≡◌, ◌≤◌, refl, true, false, List, [], ◌∷◌, ◌++◌, some, if◌then◌else◌, ltb, ◌&&◌, not, arith,
  length, Bool-cases, inl, inr, ◌⊎◌,
}
use gmaildigest_go.Prelude.Text.{Text}
use gmaildigest_go.Prelude.Maps.{Map}
use gmaildigest_go.Prelude.Results.{Result, ok, err}
use gmaildigest_go.Cron.Calendar.{Time}
use gmaildigest_go.Jobs.Job.{Job, running}
use gmaildigest_go.Jobs.Store.{Json, Env, Table, StoreError, update_job_in}
use gmaildigest_go.Worker.Pool.{WorkerPool, count_submit, submit, send}
use gmaildigest_go.Scheduler.State.{is_pending}
use gmaildigest_go.Scheduler.Dispatch.{Shared, is_due, keep_store, start_job, dispatch_job}

-- The job as it is once it is started: all else is as before.
unfoldable pub started_job : Env → Time → Job → Job
started_job e now j = record j { status = running; last_run = some now; updated_at = e.now }

keep_store-job :
    (w : Shared) (r : Job × Result StoreError Table)
    → ((keep_store w r).0 ≡ r.0) × ((keep_store w r).1.pool ≡ w.pool)
keep_store-job w (j, ok t) = (refl, refl)
keep_store-job w (j, err x) = (refl, refl)

start_job-job :
    (js : Json) (e : Env) (now : Time) (w : Shared) (j : Job)
    → ((start_job js e now w j).0 ≡ started_job e now j)
      × ((start_job js e now w j).1.pool ≡ w.pool)
unfolding start_job update_job_in started_job
start_job-job js e now w j = keep_store-job _ _

-- The pool took the task at the end of its queue.
pub record Grown (p q : WorkerPool Text) (t : Text) : Type 0 where
  pub queue : q.queue ≡ p.queue ++ t ∷ []
  pub capacity : q.capacity ≡ p.capacity
  pub stopped : q.is_stopped ≡ p.is_stopped
  pub closed : q.closed ≡ p.closed

-- Why the pool refuses.
abbrev pub Refuses : WorkerPool Text → Type 0
Refuses p = (p.is_stopped ≡ true) ⊎ (p.capacity ≤ length p.queue)

submit-cases :
    (p : WorkerPool Text) (t : Text)
    → p.closed ≡ false
    → ((q : WorkerPool Text) × (submit p t ≡ (q, some true)) × Grown p q t)
      ⊎ ((submit p t ≡ (p, some false)) × Refuses p)
unfolding submit send
submit-cases p t h = elim (Bool-cases p.is_stopped) [
  | inl stopped ↦ inr (rw stopped, inl stopped)
  | inr live ↦ elim (Bool-cases (ltb (length p.queue) p.capacity)) [
    | inl room ↦ inl (
      record p { queue = p.queue ++ t ∷ []; metrics = count_submit p.metrics },
      rw (live, h, room),
      record { queue = refl; capacity = refl; stopped = refl; closed = refl },
    )
    | inr crowded ↦ inr (rw (live, h, crowded), inr (ground arith))
  ]
]

-- One round of the loop leaves the job and the pool, and then the job is not due or the pool
-- refuses; or it starts a due job, whose id goes to the end of the queue.
pub dispatch_job-cases :
    (js : Json) (e : Env) (now : Time) (w : Shared) (j : Job)
    → w.pool.closed ≡ false
    → (((dispatch_job js e now w j).0 ≡ j)
        × ((dispatch_job js e now w j).1.pool ≡ w.pool)
        × ((is_due now j ≡ false) ⊎ Refuses w.pool))
      ⊎ ((is_due now j ≡ true)
          × ((dispatch_job js e now w j).0 ≡ started_job e now j)
          × Grown w.pool (dispatch_job js e now w j).1.pool j.id)
unfolding dispatch_job
dispatch_job-cases js e now w j h = elim (Bool-cases (is_due now j)) [
  | inr later ↦ inl (rw later, rw later, inl later)
  | inl due ↦ elim (submit-cases w.pool j.id h) [
    | inr (refused, why) ↦ inl (rw (due, refused), rw (due, refused), inr why)
    | inl (q, sent, grown) ↦
        let (same, pool) = start_job-job js e now (record w { pool = q }) j in
        inr (due, rw (due, sent) same, rw (due, sent) (rw pool grown))
  ]
]

-- The jobs before and after, entry by entry: as it was, or due and started.
abbrev pub Outcomes : (Text → Env) → Time → Map Job → Map Job → Type 0
Outcomes env now [] [] = Unit {0}
Outcomes env now [] (e ∷ m') = ⊥
Outcomes env now (e ∷ m) [] = ⊥
Outcomes env now ((k, j) ∷ m) ((k', j') ∷ m') =
    ((k' ≡ k) × ((j' ≡ j) ⊎ ((is_due now j ≡ true) × (j' ≡ started_job (env k) now j))))
    × Outcomes env now m m'

-- The ids of the jobs that were pending before and are not after.
unfoldable pub newly : Map Job → Map Job → List Text
newly ((k, j) ∷ m) ((k', j') ∷ m') =
    let rest = newly m m' in if is_pending j && not (is_pending j') then j.id ∷ rest else rest
newly _ _ = []
