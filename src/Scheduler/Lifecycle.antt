-- ===== src/Scheduler/Lifecycle.antt =====
-- What happens to the scheduler between two calls of `ScheduleJob`, as a sequence of events.
pub mod Entries
pub mod Parked
use mathlib.Core.Option.{some-injective}
use gmaildigest_go.Prelude.{
  ℕ, suc, ◌≡◌, refl, sym, ◌∙◌, Bool, true, false, List, [], ◌∷◌, Option, none, some, ite, if_pos,
  if_neg, arith, inl, inr, ◌⊎◌, Option-cases,
}
use gmaildigest_go.Prelude.Text.{Text, text_dec}
use gmaildigest_go.Prelude.Maps.{Map, lookup, insert, lookup-insert}
use gmaildigest_go.Prelude.Results.{Result, ok, err}
use gmaildigest_go.Cron.Calendar.{Time}
use gmaildigest_go.Jobs.Job.{Job, JobStatus, pending, completed, failed, status_dec}
use gmaildigest_go.Jobs.Store.{Json, Env, Table, StoreError, update_job_in}
use gmaildigest_go.Scheduler.State.{Scheduler, is_pending, next_run_time}
use gmaildigest_go.Scheduler.Dispatch.{is_due, dispatch_due_jobs}
use gmaildigest_go.Scheduler.Dispatch.Effects.{started_job, Outcomes}
use gmaildigest_go.Scheduler.Dispatch.Sweep.{dispatch_due_jobs-Swept}
use gmaildigest_go.Scheduler.Outcome.{persist, succeed, on_success, on_failure}

-- What happens to the scheduler between two calls of `ScheduleJob`: a round of dispatching, and the
-- end of the task of the job with an id.
pub data Event : Type 0 where
  dispatches : (Text → Env) → Time → Event
  succeeds : Env → Text → Event
  fails : Env → Text → Text → Event

module _ {H : Type 0} where
  abbrev pub success_of : ℕ → Json → Env → Scheduler H → Option Job → Option (Scheduler H)
  success_of fuel js e s none = some s
  success_of fuel js e s (some j) = on_success fuel js e s j

  abbrev pub failure_of : Json → Env → Scheduler H → Text → Option Job → Option (Scheduler H)
  failure_of js e s message none = some s
  failure_of js e s message (some j) = some (on_failure js e s j message)

  -- The job object of a task is the entry of its id.
  unfoldable pub step : ℕ → Json → Scheduler H → Event → Option (Scheduler H)
  step fuel js s (dispatches env now) = some (dispatch_due_jobs js env now s)
  step fuel js s (succeeds e i) = success_of fuel js e s (lookup i s.jobs)
  step fuel js s (fails e i message) = failure_of js e s message (lookup i s.jobs)

  abbrev pub and_then :
      Option (Scheduler H) → (Scheduler H → Option (Scheduler H)) → Option (Scheduler H)
  and_then none f = none
  and_then (some s) f = f s

  unfoldable pub steps : ℕ → Json → Scheduler H → List Event → Option (Scheduler H)
  steps fuel js s [] = some s
  steps fuel js s (x ∷ xs) = and_then (step fuel js s x) (λ t. steps fuel js t xs)
