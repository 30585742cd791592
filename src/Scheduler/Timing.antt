-- ===== src/Scheduler/Timing.antt =====
-- When the scheduling loop wakes, and when a failed job is tried again.
use gmaildigest_go.Prelude.{
  ℕ, suc, ◌+◌, ◌*◌, ◌≡◌, ◌≤◌, ◌<◌, refl, sym, subst, true, false, ◌&&◌, [], ◌∷◌, ltb, arith, inl,
  inr, ◌⊎◌, All, Bool-cases,
}
use gmaildigest_go.Prelude.Text.{Text}
use gmaildigest_go.Prelude.Maps.{Map}
use gmaildigest_go.Cron.Calendar.{Time, minute, hour}
use gmaildigest_go.Jobs.Job.{Job, failed}
use gmaildigest_go.Scheduler.State.{Scheduler, is_pending, soonest, find_next_job_time}
use gmaildigest_go.Scheduler.Outcome.{retry_delay, retry_time, failed_job}

-- Some pending entry has this next run.
abbrev pub IsRunOf : Time → Map Job → Type 0
IsRunOf t [] = ⊥
IsRunOf t ((k, j) ∷ m) = ((is_pending j ≡ true) × (j.next_run ≡ t)) ⊎ IsRunOf t m

-- No pending entry runs earlier.
abbrev pub NoneBefore : Time → Map Job → Type 0
NoneBefore t = All (λ e. is_pending e.1 ≡ true → t ≤ e.1.next_run)

soonest-le : (m : Map Job) (best : Time) → soonest m best ≤ best
unfolding soonest
soonest-le [] best = omega arith
soonest-le ((k, j) ∷ m) best = ground (arith, soonest-le m best, soonest-le m j.next_run)

soonest_sooner :
    (k : Text) (j : Job) (m : Map Job) (best : Time)
    → (is_pending j && ltb j.next_run best) ≡ true
    → soonest m j.next_run ≡ soonest ((k, j) ∷ m) best
unfolding soonest
soonest_sooner k j m best h = rw h

soonest_later :
    (k : Text) (j : Job) (m : Map Job) (best : Time)
    → (is_pending j && ltb j.next_run best) ≡ false
    → soonest m best ≡ soonest ((k, j) ∷ m) best
unfolding soonest
soonest_later k j m best h = rw h

soonest-NoneBefore : (m : Map Job) (best : Time) → NoneBefore (soonest m best) m
soonest-NoneBefore [] best = tt
soonest-NoneBefore ((k, j) ∷ m) best = elim (Bool-cases (is_pending j && ltb j.next_run best)) [
  | inl sooner ↦
      subst (λ t. NoneBefore t ((k, j) ∷ m)) (soonest_sooner k j m best sooner)
        ((λ p. soonest-le m j.next_run), soonest-NoneBefore m j.next_run)
  | inr later ↦
      subst (λ t. NoneBefore t ((k, j) ∷ m)) (soonest_later k j m best later)
        ((λ p. ground (arith, soonest-le m best)), soonest-NoneBefore m best)
]

-- The time is the one at hand or the run of a pending entry.
abbrev pub Attained : Map Job → Time → Time → Type 0
Attained m best t = (t ≡ best) ⊎ IsRunOf t m

Attained-sooner :
    (k : Text) (j : Job) (m : Map Job) (best t : Time)
    → (is_pending j && ltb j.next_run best) ≡ true
    → Attained m j.next_run t
    → Attained ((k, j) ∷ m) best t
Attained-sooner k j m best t h (inl e) = inr (inl (ground arith, sym e))
Attained-sooner k j m best t h (inr r) = inr (inr r)

Attained-later :
    (k : Text) (j : Job) (m : Map Job) (best t : Time)
    → Attained m best t
    → Attained ((k, j) ∷ m) best t
Attained-later k j m best t (inl e) = inl e
Attained-later k j m best t (inr r) = inr (inr r)

soonest-Attained : (m : Map Job) (best : Time) → Attained m best (soonest m best)
soonest-Attained [] best = inl (unfold soonest in refl)
soonest-Attained ((k, j) ∷ m) best = elim (Bool-cases (is_pending j && ltb j.next_run best)) [
  | inl sooner ↦
      subst (Attained ((k, j) ∷ m) best) (soonest_sooner k j m best sooner)
        (Attained-sooner k j m best _ sooner (soonest-Attained m j.next_run))
  | inr later ↦
      subst (Attained ((k, j) ∷ m) best) (soonest_later k j m best later)
        (Attained-later k j m best _ (soonest-Attained m best))
]

-- The loop sleeps until the earliest next run of a pending job, and for at most 24 hours: no pending
-- job runs before the time that is found, and that time is 24 hours from now or the run of one.
pub find_next_job_time_lem :
    {H : Type 0} (s : Scheduler H) (now : Time)
    → (find_next_job_time s now ≤ now + 24 * hour)
      × NoneBefore (find_next_job_time s now) s.jobs
      × ((find_next_job_time s now ≡ now + 24 * hour) ⊎ IsRunOf (find_next_job_time s now) s.jobs)
unfolding find_next_job_time
find_next_job_time_lem s now = (
  soonest-le s.jobs (now + 24 * hour),
  soonest-NoneBefore s.jobs (now + 24 * hour),
  soonest-Attained s.jobs (now + 24 * hour),
)

square-le : (n : ℕ) → n ≤ 4 → n * n ≤ 16
square-le n h = grind arith

-- After a failure the job is failed with one retry more. From the fifth failure on its next run is
-- the zero time; before that it is n² minutes away for the n-th failure, so at most 16 minutes, and
-- the cap of 24 hours is never met.
pub failed_job_lem :
    (j : Job) (message : Text) (now : Time)
    → ((failed_job j message now).status ≡ failed)
      × ((failed_job j message now).retry_count ≡ suc j.retry_count)
      × (5 ≤ suc j.retry_count → (failed_job j message now).next_run ≡ 0)
      × (suc j.retry_count < 5
          → ((failed_job j message now).next_run
              ≡ now + suc j.retry_count * suc j.retry_count * minute)
            × ((failed_job j message now).next_run ≤ now + 16 * minute))
unfolding failed_job retry_time retry_delay
failed_job_lem j message now = (
  refl,
  refl,
  λ h. ground arith,
  λ h.
      let small = square-le (suc j.retry_count) (omega arith) in
      (ground (arith, small), ground (arith, small)),
)
