-- ===== src/Scheduler/Dispatch/Sweep.antt =====
-- `dispatchDueJobs` over all jobs.
use gmaildigest_go.Prelude.{
  ◌+◌, ◌≡◌, ◌≤◌, refl, ap, ◌∙◌, true, false, List, [], ◌∷◌, ◌++◌, append_assoc, append-nil,
  if◌then◌else◌, arith, length, length-append, inl, inr,
}
use gmaildigest_go.Prelude.Text.{Text}
use gmaildigest_go.Prelude.Maps.{Map}
use gmaildigest_go.Cron.Calendar.{Time}
use gmaildigest_go.Jobs.Job.{Job, status_dec}
use gmaildigest_go.Jobs.Store.{Json, Env}
use gmaildigest_go.Worker.Pool.{WorkerPool}
use gmaildigest_go.Scheduler.State.{Scheduler, is_pending}
use gmaildigest_go.Scheduler.Dispatch.{
  Shared, is_due, dispatch_job, dispatch_loop, dispatch_due_jobs,
}
use gmaildigest_go.Scheduler.Dispatch.Effects.{started_job, Outcomes, newly, dispatch_job-cases}

is_due-pending : (now : Time) (j : Job) → is_due now j ≡ true → is_pending j ≡ true
unfolding is_due
is_due-pending now j h = ground arith

started-pending : (e : Env) (now : Time) (j : Job) → is_pending (started_job e now j) ≡ false
unfolding started_job status_dec
started-pending e now j = refl

newly_same :
    (k : Text) (j j' : Job) (m m' : Map Job)
    → j' ≡ j
    → newly ((k, j) ∷ m) ((k, j') ∷ m') ≡ newly m m'
unfolding newly
newly_same k j j' m m' e = rw e (ground arith)

newly_started :
    (k : Text) (e : Env) (now : Time) (j j' : Job) (m m' : Map Job)
    → is_due now j ≡ true
    → j' ≡ started_job e now j
    → newly ((k, j) ∷ m) ((k, j') ∷ m') ≡ j.id ∷ newly m m'
unfolding newly
newly_started k e now j j' m m' due s =
    rw (s, is_due-pending now j due, started-pending e now j) refl

-- The loop treats every job by itself, and the queue grows by the ids of the jobs that it starts.
pub record Swept (env : Text → Env) (now : Time) (m m' : Map Job) (p q : WorkerPool Text)
    : Type 0 where
  pub outcomes : Outcomes env now m m'
  pub queue : q.queue ≡ p.queue ++ newly m m'
  pub closed : q.closed ≡ p.closed

dispatch_loop-Swept :
    (js : Json) (env : Text → Env) (now : Time) (w : Shared) (m : Map Job)
    → w.pool.closed ≡ false
    → Swept env now m (dispatch_loop js env now w m).0 w.pool (dispatch_loop js env now w m).1.pool
unfolding dispatch_loop
dispatch_loop-Swept js env now w [] h = record {
  outcomes = tt;
  queue = unfold newly in rw append-nil;
  closed = refl;
}
dispatch_loop-Swept js env now w ((k, j) ∷ m) h =
    let j' : Job = (dispatch_job js (env k) now w j).0 in
    let w' : Shared = (dispatch_job js (env k) now w j).1 in
    elim (dispatch_job-cases js (env k) now w j h) [
      | inl (same, pool, why) ↦
          let rest = dispatch_loop-Swept js env now w' m (rw pool h) in
          record {
            outcomes = ((refl, inl same), rest.outcomes);
            closed = rest.closed ∙ ap (λ (p : WorkerPool Text). p.closed) pool;
            queue = rw (newly_same k j j' m (dispatch_loop js env now w' m).0 same) (
                rest.queue
                ∙ ap (λ (p : WorkerPool Text). p.queue ++ newly m (dispatch_loop js env now w' m).0)
                    pool);
          }
      | inr (due, started, grown) ↦
          let rest = dispatch_loop-Swept js env now w' m (grown.closed ∙ h) in
          record {
            outcomes = ((refl, inr (due, started)), rest.outcomes);
            closed = rest.closed ∙ grown.closed;
            queue =
                rw
                  (newly_started k (env k) now j j' m (dispatch_loop js env now w' m).0 due started)
                  (rest.queue
                    ∙ ap (λ (q : List Text). q ++ newly m (dispatch_loop js env now w' m).0)
                        grown.queue
                    ∙ append_assoc w.pool.queue (j.id ∷ [])
                        (newly m (dispatch_loop js env now w' m).0));
          }
    ]

-- While the pool's channel is open: each job is left as it was, or was pending and due and is now
-- running with this call as its last run; and the queue of the pool grows at its end by the ids of
-- exactly the jobs that stopped being pending, in the order of the map.
pub dispatch_due_jobs-Swept :
    {H : Type 0} (js : Json) (env : Text → Env) (now : Time) (s : Scheduler H)
    → s.pool.closed ≡ false
    → Swept env now s.jobs
        (dispatch_due_jobs js env now s).jobs
        s.pool
        (dispatch_due_jobs js env now s).pool
unfolding dispatch_due_jobs
dispatch_due_jobs-Swept js env now s h =
    dispatch_loop-Swept js env now
      (record { store = s.store; pool = s.pool; observed = s.observed }) s.jobs h

-- The jobs one by one: a due one is started, another left as it was.
abbrev pub AllStarted : (Text → Env) → Time → Map Job → Map Job → Type 0
AllStarted env now [] [] = Unit {0}
AllStarted env now [] (e ∷ m') = ⊥
AllStarted env now (e ∷ m) [] = ⊥
AllStarted env now ((k, j) ∷ m) ((k', j') ∷ m') =
    ((k' ≡ k) × (j' ≡ (if is_due now j then started_job (env k) now j else j)))
    × AllStarted env now m m'

dispatch_loop-AllStarted :
    (js : Json) (env : Text → Env) (now : Time) (w : Shared) (m : Map Job)
    → w.pool.closed ≡ false
    → w.pool.is_stopped ≡ false
    → length w.pool.queue + length m ≤ w.pool.capacity
    → AllStarted env now m (dispatch_loop js env now w m).0
unfolding dispatch_loop
dispatch_loop-AllStarted js env now w [] h live room = tt
dispatch_loop-AllStarted js env now w ((k, j) ∷ m) h live room =
    let w' : Shared = (dispatch_job js (env k) now w j).1 in
    elim (dispatch_job-cases js (env k) now w j h) [
      | inl (same, pool, inl later) ↦ (
        (refl, rw later same),
        dispatch_loop-AllStarted js env now w' m (rw pool h) (rw pool live) (rw pool (omega arith)),
      )
      | inl (same, pool, inr (inl stopped)) ↦ absurd (cc)
      | inl (same, pool, inr (inr full)) ↦ absurd (omega arith)
      | inr (due, started, grown) ↦ (
        (refl, rw due started),
        dispatch_loop-AllStarted js env now w' m (grown.closed ∙ h) (grown.stopped ∙ live) (
            omega (
              arith,
              room,
              ap length grown.queue,
              grown.capacity,
              length-append w.pool.queue (j.id ∷ []),
            )),
      )
    ]

-- If the pool is running and its queue has room for all jobs of the scheduler, every due job is
-- started and every other job left as it was.
pub dispatch_due_jobs-AllStarted :
    {H : Type 0} (js : Json) (env : Text → Env) (now : Time) (s : Scheduler H)
    → s.pool.closed ≡ false
    → s.pool.is_stopped ≡ false
    → length s.pool.queue + length s.jobs ≤ s.pool.capacity
    → AllStarted env now s.jobs (dispatch_due_jobs js env now s).jobs
unfolding dispatch_due_jobs
dispatch_due_jobs-AllStarted js env now s h live room =
    dispatch_loop-AllStarted js env now
      (record { store = s.store; pool = s.pool; observed = s.observed }) s.jobs h live room
