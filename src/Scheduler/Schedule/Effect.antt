-- ===== src/Scheduler/Schedule/Effect.antt =====
-- What a successful `ScheduleJob` leaves behind.
use gmaildigest_go.Prelude.{
  ℕ, ◌≡◌, refl, true, [], ◌∷◌, Option, none, some, if_pos, arith, carry, Bool-cases, inl, inr,
}
use gmaildigest_go.Prelude.Text.{Text}
use gmaildigest_go.Prelude.Maps.{Map, lookup, lookup-insert}
use gmaildigest_go.Prelude.Results.{Result, ok, err}
use gmaildigest_go.Cron.Calendar.{Time}
use gmaildigest_go.Jobs.Job.{Job, pending, status_dec}
use gmaildigest_go.Jobs.Store.{
  Json, Env, Table, StoreError, with_defaults, create_job, update_job_in,
}
use gmaildigest_go.Scheduler.State.{Scheduler, next_run_time}
use gmaildigest_go.Scheduler.Schedule.{
  PayloadArg, payload_json, is_for, find_existing, finish_update, reschedule, new_job,
  finish_create, schedule_new, schedule_found, schedule_at, schedule_payload, schedule_job,
}

-- The job is the one asked for and waits for its next run.
pub record Asked (u ty sch : Text) (time : Time) (j : Job) : Type 0 where
  pub user_id : j.user_id ≡ u
  pub job_type : j.job_type ≡ ty
  pub schedule : j.schedule ≡ sch
  pub waits : j.status ≡ pending
  pub fresh : j.retry_count ≡ 0
  pub next_run : j.next_run ≡ time

-- It is in memory and the scheduling loop has been told.
abbrev pub Kept : {H : Type 0} → Scheduler H → Job → Type 0
Kept s j = ((k : Text) × (lookup k s.jobs ≡ some j)) × (s.cron_wakeup ≡ true)

find_existing-for :
    (u ty sch k : Text) (j : Job) (m : Map Job)
    → find_existing u ty sch m ≡ some (k, j)
    → is_for u ty sch j ≡ true
unfolding find_existing
find_existing-for u ty sch k j [] h = absurd (cc)
find_existing-for u ty sch k j ((i, x) ∷ m) h = elim (Bool-cases (is_for u ty sch x)) [
  | inl hit ↦ ground arith
  | inr miss ↦ find_existing-for u ty sch k j m (ground arith)
]

-- What holds of a call's result, if it is a job.
abbrev pub OnOk :
    {H : Type 0} → (Scheduler H → Job → Type 0) → Scheduler H × Result StoreError Job → Type 0
OnOk P (s, ok j) = P s j
OnOk P (s, err x) = Unit {0}

module _ {H : Type 0} (u ty sch : Text) (time : Time) where
  abbrev pub Scheduled : Scheduler H → Job → Type 0
  Scheduled s j = Asked u ty sch time j × Kept s j

  finish_update-Scheduled :
      (k : Text) (s : Scheduler H) (r : Job × Result StoreError Table)
      → Asked u ty sch time r.0
      → OnOk Scheduled (finish_update k s r)
  finish_update-Scheduled k s (j, err x) a = tt
  finish_update-Scheduled k s (j, ok t) a =
      (a, ((k, rw (lookup-insert k k j s.jobs, if_pos _ refl)), refl))

  finish_create-Scheduled :
      (l : Text) (s : Scheduler H) (r : Job × Result StoreError Table)
      → Asked u ty sch time r.0
      → OnOk Scheduled (finish_create l s r)
  finish_create-Scheduled l s (j, err x) a = tt
  finish_create-Scheduled l s (j, ok t) a =
      (a, ((j.id, rw (lookup-insert j.id j.id j s.jobs, if_pos _ refl)), refl))

  reschedule-Scheduled :
      (js : Json) (e : Env) (s : Scheduler H) (k p : Text) (j : Job)
      → is_for u ty sch j ≡ true
      → OnOk Scheduled (reschedule js e s k j p time)
  unfolding reschedule is_for update_job_in
  reschedule-Scheduled js e s k p j h = finish_update-Scheduled k s _ (ground arith)

  schedule_new-Scheduled :
      (js : Json) (e : Env) (s : Scheduler H) (p : Text)
      → OnOk Scheduled (schedule_new js e s (new_job u ty sch p time))
  unfolding schedule_new create_job with_defaults status_dec
  schedule_new-Scheduled js e s p = finish_create-Scheduled ty s _ (ground arith)

  schedule_found-Scheduled :
      (js : Json) (e : Env) (s : Scheduler H) (p : Text) (o : Option (Text × Job))
      → find_existing u ty sch s.jobs ≡ o
      → OnOk Scheduled (schedule_found js e s u ty sch p time o)
  schedule_found-Scheduled js e s p none h = schedule_new-Scheduled js e s p
  schedule_found-Scheduled js e s p (some (k, j)) h =
      reschedule-Scheduled js e s k p j (find_existing-for u ty sch k j s.jobs h)

module _ {H : Type 0} (fuel : ℕ) (js : Json) (e : Env) (s t : Scheduler H) (u ty sch : Text)
    (j : Job) where
  schedule_at-ok :
      (p : Text) (o : Option Time)
      → schedule_at js e s u ty sch p o ≡ some (t, ok j)
      → (time : Time) × (o ≡ some time) × (Asked u ty sch time j × Kept t j)
  schedule_at-ok p none h = absurd (cc)
  schedule_at-ok p (some time) h = (
    time,
    refl,
    carry (OnOk (Scheduled u ty sch time)) h
        (schedule_found-Scheduled u ty sch time js e s p (find_existing u ty sch s.jobs) refl),
  )

  schedule_payload-ok :
      (m : Option Text)
      → schedule_payload fuel js e s u ty sch m ≡ some (t, ok j)
      → (time : Time) × (next_run_time fuel sch e.now ≡ some time)
        × (Asked u ty sch time j × Kept t j)
  schedule_payload-ok none h = absurd (ground arith)
  schedule_payload-ok (some p) h = schedule_at-ok p (next_run_time fuel sch e.now) h

  -- A call of `ScheduleJob` that succeeds returns a job for the user, type and schedule asked for,
  -- pending, with no retries and with the next run of its schedule after now; the job stands in the
  -- scheduler's map, and the scheduling loop has been signalled. So it is whether the job is new or
  -- existed before in whatever status.
  pub schedule_job-ok :
      (p : PayloadArg)
      → schedule_job fuel js e s u ty sch p ≡ some (t, ok j)
      → (time : Time) × (next_run_time fuel sch e.now ≡ some time)
        × (Asked u ty sch time j × Kept t j)
  unfolding schedule_job
  schedule_job-ok p h = schedule_payload-ok (payload_json p) h
