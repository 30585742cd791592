-- ===== src/Scheduler/Lifecycle/Parked.antt =====
-- A job that is not pending is not run again.
use gmaildigest_go.Prelude.{ℕ, ◌≡◌, refl, ◌∙◌, false, List, [], ◌∷◌, Option, none, some, carry}
use gmaildigest_go.Prelude.Text.{Text}
use gmaildigest_go.Prelude.Maps.{lookup}
use gmaildigest_go.Prelude.Results.{Result, ok, err}
use gmaildigest_go.Cron.Calendar.{Time}
use gmaildigest_go.Jobs.Job.{Job}
use gmaildigest_go.Jobs.Store.{Json, Env, Table, StoreError, update_job_in}
use gmaildigest_go.Scheduler.State.{Scheduler, is_pending, next_run_time}
use gmaildigest_go.Scheduler.Dispatch.{is_due, dispatch_due_jobs}
use gmaildigest_go.Scheduler.Dispatch.Sweep.{dispatch_due_jobs-Swept}
use gmaildigest_go.Scheduler.Outcome.{
  completed_job, failed_job, observe_success, observe_failure, persist, succeed, on_success,
  on_failure,
}
use gmaildigest_go.Scheduler.Lifecycle.{
  Event, dispatches, succeeds, fails, success_of, failure_of, step, and_then, steps,
}
use gmaildigest_go.Scheduler.Lifecycle.Entries.{
  Parked, lookup-Outcomes, insert-Parked, completed_parked, failed_parked, insert_done,
}

module _ {H : Type 0} where
  dispatch-Parked :
      (js : Json) (env : Text → Env) (now : Time) (s : Scheduler H) (k : Text)
      → s.pool.closed ≡ false
      → Parked k s.jobs
      → Parked k (dispatch_due_jobs js env now s).jobs
  dispatch-Parked js env now s k open' (j, here, parked) = (
    j,
    lookup-Outcomes env now k s.jobs (dispatch_due_jobs js env now s).jobs j
        (dispatch_due_jobs-Swept js env now s open').outcomes here parked,
    parked,
  )

  persist-Parked :
      (k : Text) (s : Scheduler H) (r : Job × Result StoreError Table)
      → is_pending r.0 ≡ false
      → Parked k s.jobs
      → Parked k (persist s r).jobs
  persist-Parked k s (j, ok t) p h = insert-Parked k j.id j s.jobs p h
  persist-Parked k s (j, err x) p h = insert-Parked k j.id j s.jobs p h

  persist_done :
      (k : Text) (s : Scheduler H) (r : Job × Result StoreError Table)
      → r.0.id ≡ k
      → is_pending r.0 ≡ false
      → Parked k (persist s r).jobs
  persist_done k s (j, ok t) e p = insert_done k j.id j s.jobs e p
  persist_done k s (j, err x) e p = insert_done k j.id j s.jobs e p

  persist-pool : (s : Scheduler H) (r : Job × Result StoreError Table) → (persist s r).pool ≡ s.pool
  persist-pool s (j, ok t) = refl
  persist-pool s (j, err x) = refl

  on_success-Parked :
      (fuel : ℕ) (js : Json) (e : Env) (s : Scheduler H) (j : Job) {t : Scheduler H} (k : Text)
      → on_success fuel js e s j ≡ some t
      → Parked k s.jobs
      → Parked k t.jobs × (t.pool ≡ s.pool)
  unfolding on_success
  on_success-Parked fuel js e s j {t} k h parked = from (next_run_time fuel j.schedule e.now) h
    where
      from : (o : Option Time) → succeed js e s j o ≡ some t → Parked k t.jobs × (t.pool ≡ s.pool)
      from none g = absurd (cc)
      from (some time) g =
          carry (λ u. Parked k u.jobs × (u.pool ≡ s.pool)) g
            (
              persist-Parked k (observe_success j s)
                  (update_job_in js e s.store (completed_job j time))
                  (completed_parked js e s.store j time) parked,
              persist-pool (observe_success j s)
                  (update_job_in js e s.store (completed_job j time)),
            )

  on_failure-Parked :
      (js : Json) (e : Env) (s : Scheduler H) (j : Job) (message k : Text)
      → Parked k s.jobs
      → Parked k (on_failure js e s j message).jobs × ((on_failure js e s j message).pool ≡ s.pool)
  unfolding on_failure
  on_failure-Parked js e s j message k parked = (
    persist-Parked k (observe_failure j s) (update_job_in js e s.store (failed_job j message e.now))
        (failed_parked js e s.store j message) parked,
    persist-pool (observe_failure j s) (update_job_in js e s.store (failed_job j message e.now)),
  )

  -- The channel of the pool is open and the entry of `k` is parked.
  abbrev pub Idle : Text → Scheduler H → Type 0
  Idle k s = (s.pool.closed ≡ false) × Parked k s.jobs

  success_of-Idle :
      (fuel : ℕ) (js : Json) (e : Env) (s : Scheduler H) (o : Option Job) {t : Scheduler H}
      (k : Text)
      → success_of fuel js e s o ≡ some t
      → Idle k s
      → Idle k t
  success_of-Idle fuel js e s none k h i = carry (Idle k) h i
  success_of-Idle fuel js e s (some j) k h (live, parked) =
      let (p, same) = on_success-Parked fuel js e s j k h parked in (rw same live, p)

  failure_of-Idle :
      (js : Json) (e : Env) (s : Scheduler H) (m : Text) (o : Option Job) {t : Scheduler H}
      (k : Text)
      → failure_of js e s m o ≡ some t
      → Idle k s
      → Idle k t
  failure_of-Idle js e s m none k h i = carry (Idle k) h i
  failure_of-Idle js e s m (some j) k h (live, parked) =
      let (p, same) = on_failure-Parked js e s j m k parked in carry (Idle k) h (rw same live, p)

  step-Idle :
      (fuel : ℕ) (js : Json) (s : Scheduler H) (x : Event) {t : Scheduler H} (k : Text)
      → step fuel js s x ≡ some t
      → Idle k s
      → Idle k t
  unfolding step
  step-Idle fuel js s (dispatches env now) k h (live, parked) = carry (Idle k) h (
    (dispatch_due_jobs-Swept js env now s live).closed ∙ live,
    dispatch-Parked js env now s k live parked,
  )
  step-Idle fuel js s (succeeds e i) k h idle =
      success_of-Idle fuel js e s (lookup i s.jobs) k h idle
  step-Idle fuel js s (fails e i m) k h idle = failure_of-Idle js e s m (lookup i s.jobs) k h idle

  and_then-eq :
      (o : Option (Scheduler H)) (f : Scheduler H → Option (Scheduler H)) {t : Scheduler H}
      → and_then o f ≡ some t
      → (u : Scheduler H) × (o ≡ some u) × (f u ≡ some t)
  and_then-eq none f h = absurd (cc)
  and_then-eq (some u) f h = (u, refl, h)

  steps-Idle :
      (fuel : ℕ) (js : Json) (s : Scheduler H) (xs : List Event) {t : Scheduler H} (k : Text)
      → steps fuel js s xs ≡ some t
      → Idle k s
      → Idle k t
  unfolding steps
  steps-Idle fuel js s [] k h idle = carry (Idle k) h idle
  steps-Idle fuel js s (x ∷ xs) k h idle =
      let (u, first, rest) = and_then-eq (step fuel js s x) (λ t. steps fuel js t xs) h in
      steps-Idle fuel js u xs k rest (step-Idle fuel js s x k first idle)

-- The bug: while the pool is open, an entry that is not pending is kept through every sequence of
-- dispatches, successes and failures, and afterwards is due at no time.
pub steps-Parked :
    {H : Type 0} (fuel : ℕ) (js : Json) (s t : Scheduler H) (xs : List Event) (k : Text)
    → s.pool.closed ≡ false
    → Parked k s.jobs
    → steps fuel js s xs ≡ some t
    → (j : Job) × (lookup k t.jobs ≡ some j) × ((now : Time) → is_due now j ≡ false)
unfolding is_due
steps-Parked fuel js s t xs k live parked h =
    let (j, here, p) = (steps-Idle fuel js s xs k h (live, parked)).1 in (j, here, λ now. rw p)

on_success_done :
    {H : Type 0} (fuel : ℕ) (js : Json) (e : Env) (s : Scheduler H) (j : Job) {t : Scheduler H}
    → on_success fuel js e s j ≡ some t
    → Parked j.id t.jobs × (t.pool ≡ s.pool)
unfolding on_success
on_success_done fuel js e s j {t} h = from (next_run_time fuel j.schedule e.now) h
  where
    from : (o : Option Time) → succeed js e s j o ≡ some t → Parked j.id t.jobs × (t.pool ≡ s.pool)
    from none g = absurd (cc)
    from (some time) g =
        carry (λ u. Parked j.id u.jobs × (u.pool ≡ s.pool)) g
          (
            persist_done j.id (observe_success j s)
                (update_job_in js e s.store (completed_job j time))
                (unfold update_job_in completed_job in refl) (completed_parked js e s.store j time),
            persist-pool (observe_success j s) (update_job_in js e s.store (completed_job j time)),
          )

-- The bug: after `OnSuccess` of a job in an open pool, which sets its next run, the entry of the job
-- is due at no time, after every sequence of dispatches and ends of tasks.
pub on_success-steps :
    {H : Type 0} (fuel : ℕ) (js : Json) (e : Env) (s t u : Scheduler H) (j : Job) (xs : List Event)
    → s.pool.closed ≡ false
    → on_success fuel js e s j ≡ some t
    → steps fuel js t xs ≡ some u
    → (j' : Job) × (lookup j.id u.jobs ≡ some j') × ((now : Time) → is_due now j' ≡ false)
on_success-steps fuel js e s t u j xs live h k =
    let (done, same) = on_success_done fuel js e s j h in
    steps-Parked fuel js t u xs j.id (rw same live) done k
