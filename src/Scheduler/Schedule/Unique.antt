-- ===== src/Scheduler/Schedule/Unique.antt =====
-- `ScheduleJob` keeps one job for each user, type and schedule.
use gmaildigest_go.Prelude.{
  ℕ, ◌≡◌, ◌≢◌, refl, true, false, [], ◌∷◌, Option, none, some, if_pos, if_neg, arith, inl, inr, ◌⊎◌,
  All, Bool-cases, subst, carry,
}
use gmaildigest_go.Prelude.Text.{Text, text_dec}
use gmaildigest_go.Prelude.Maps.{Map, insert}
use gmaildigest_go.Prelude.Results.{Result, ok, err}
use gmaildigest_go.Cron.Calendar.{Time}
use gmaildigest_go.Jobs.Job.{Job}
use gmaildigest_go.Jobs.Store.{
  Json, Env, Table, StoreError, same_key, with_defaults, create_job, update_job_in,
}
use gmaildigest_go.Scheduler.State.{Scheduler, next_run_time}
use gmaildigest_go.Scheduler.Schedule.{
  PayloadArg, payload_json, is_for, find_existing, finish_update, reschedule, new_job,
  finish_create, schedule_new, schedule_found, schedule_payload, schedule_at, schedule_job,
}

-- Two entries differ in their key and in their user, type or schedule.
abbrev pub Distinct : Text × Job → Text × Job → Type 0
Distinct a b = (a.0 ≢ b.0) × (same_key a.1 b.1 ≡ false)

abbrev pub Unique : Map Job → Type 0
Unique [] = Unit {0}
Unique (e ∷ m) = All (Distinct e) m × Unique m

-- No entry but that of `k` is for the user, type and schedule of `j`.
abbrev pub Alone : Text → Job → Map Job → Type 0
Alone k j = All (λ e. (e.0 ≡ k) ⊎ (same_key e.1 j ≡ false))

insert-All {κ} :
    (P : Text × Job → Type κ) (k : Text) (j : Job) (m : Map Job)
    → P (k, j)
    → All P m
    → All P (insert k j m)
unfolding insert
insert-All P k j [] p a = (p, a)
insert-All P k j ((i, x) ∷ m) p (a, as') = ground (arith, insert-All P k j m p as')

-- Behind the entry that is replaced.
replaced :
    (k i : Text) (x j : Job) (m : Map Job)
    → i ≡ k
    → All (Distinct (i, x)) m
    → Alone k j m
    → All (Distinct (k, j)) m
replaced k i x j [] e d a = tt
replaced k i x j (y ∷ m) e (d, ds) (a, as') = (ground arith, replaced k i x j m e ds as')

insert-Unique : (k : Text) (j : Job) (m : Map Job) → Alone k j m → Unique m → Unique (insert k j m)
unfolding insert
insert-Unique k j [] a u = (tt, tt)
insert-Unique k j ((i, x) ∷ m) (a, as') (d, u) = elim (text_dec i k) [
  | yes e ↦ rw (if_pos _ e) (replaced k i x j m e d as', u)
  | no n ↦
      rw (if_neg _ n)
        (insert-All (Distinct (i, x)) k j m (ground arith) d, insert-Unique k j m as' u)
]

-- The deduplication loop finds no job: then none is for this user, type and schedule.
find_existing-none :
    (k : Text) (j : Job) (m : Map Job)
    → find_existing j.user_id j.job_type j.schedule m ≡ none
    → Alone k j m
unfolding find_existing is_for
find_existing-none k j [] h = tt
find_existing-none k j ((i, x) ∷ m) h =
    (inr (ground arith), find_existing-none k j m (ground arith))

Alone-others :
    (i : Text) (x j : Job) (m : Map Job)
    → same_key x j ≡ true
    → All (Distinct (i, x)) m
    → Alone i j m
Alone-others i x j [] s d = tt
Alone-others i x j (y ∷ m) s (d, ds) = (inr (ground arith), Alone-others i x j m s ds)

-- It finds one: then no other is, in a map without duplicates.
find_existing-some :
    (u ty sch k : Text) (j : Job) (m : Map Job)
    → Unique m
    → find_existing u ty sch m ≡ some (k, j)
    → Alone k j m × (j.user_id ≡ u) × (j.job_type ≡ ty) × (j.schedule ≡ sch)
unfolding find_existing is_for
find_existing-some u ty sch k j [] q h = absurd (cc)
find_existing-some u ty sch k j ((i, x) ∷ m) (d, q) h = elim (Bool-cases (is_for u ty sch x)) [
  | inl hit ↦
      let ek : i ≡ k = ground arith in
      let alone : Alone i j m = Alone-others i x j m (ground arith) d in
      ((inl ek, subst (λ z. Alone z j m) ek alone), ground arith, ground arith, ground arith)
  | inr miss ↦
      let (alone, eu, et, es) = find_existing-some u ty sch k j m q (ground arith) in
      ((inr (ground arith), alone), eu, et, es)
]

module _ {H : Type 0} where
  finish_update-Unique :
      (k : Text) (s : Scheduler H) (r : Job × Result StoreError Table)
      → Alone k r.0 s.jobs
      → Unique s.jobs
      → Unique (finish_update k s r).0.jobs
  finish_update-Unique k s (j, ok t) a q = insert-Unique k j s.jobs a q
  finish_update-Unique k s (j, err x) a q = insert-Unique k j s.jobs a q

  finish_create-Unique :
      (ty : Text) (s : Scheduler H) (r : Job × Result StoreError Table)
      → Alone r.0.id r.0 s.jobs
      → Unique s.jobs
      → Unique (finish_create ty s r).0.jobs
  finish_create-Unique ty s (j, ok t) a q = insert-Unique j.id j s.jobs a q
  finish_create-Unique ty s (j, err x) a q = q

  schedule_found-Unique :
      (js : Json) (e : Env) (s : Scheduler H) (u ty sch p : Text) (time : Time)
      (o : Option (Text × Job))
      → Unique s.jobs
      → find_existing u ty sch s.jobs ≡ o
      → Unique (schedule_found js e s u ty sch p time o).0.jobs
  unfolding reschedule schedule_new update_job_in create_job with_defaults
  schedule_found-Unique js e s u ty sch p time (some (k, j)) q h =
      finish_update-Unique k s _ (find_existing-some u ty sch k j s.jobs q h).0 q
  schedule_found-Unique js e s u ty sch p time none q h =
      finish_create-Unique ty s _
        (find_existing-none _ (with_defaults e (new_job u ty sch p time)) s.jobs h) q

abbrev UniqueAfter : {H : Type 0} → Scheduler H × Result StoreError Job → Type 0
UniqueAfter r = Unique r.0.jobs

module _ {H : Type 0} (js : Json) (e : Env) (s : Scheduler H) (u ty sch : Text) where
  schedule_at-Unique :
      (p : Text) (o : Option Time) {r : Scheduler H × Result StoreError Job}
      → Unique s.jobs
      → schedule_at js e s u ty sch p o ≡ some r
      → UniqueAfter r
  schedule_at-Unique p none q h = absurd (cc)
  schedule_at-Unique p (some time) q h =
      carry UniqueAfter h
        (schedule_found-Unique js e s u ty sch p time (find_existing u ty sch s.jobs) q refl)

  schedule_payload-Unique :
      (fuel : ℕ) (m : Option Text) {r : Scheduler H × Result StoreError Job}
      → Unique s.jobs
      → schedule_payload fuel js e s u ty sch m ≡ some r
      → UniqueAfter r
  schedule_payload-Unique fuel none q h = carry UniqueAfter h q
  schedule_payload-Unique fuel (some p) q h =
      schedule_at-Unique p (next_run_time fuel sch e.now) q h

-- However the call ends, the scheduler still has at most one entry for each user, type and schedule,
-- and one for each key.
pub schedule_job-Unique :
    {H : Type 0} (fuel : ℕ) (js : Json) (e : Env) (s : Scheduler H) (u ty sch : Text)
    (p : PayloadArg) (r : Scheduler H × Result StoreError Job)
    → Unique s.jobs
    → schedule_job fuel js e s u ty sch p ≡ some r
    → Unique r.0.jobs
unfolding schedule_job
schedule_job-Unique fuel js e s u ty sch p r q h =
    schedule_payload-Unique js e s u ty sch fuel (payload_json p) {r = r} q h
