-- ===== src/Scheduler/Lifecycle/Entries.antt =====
-- The entries of the registry that do not wait for a run.
use gmaildigest_go.Prelude.{◌≡◌, refl, false, [], ◌∷◌, some, if_pos, if_neg, arith, inl, inr}
use gmaildigest_go.Prelude.Text.{Text, text_dec}
use gmaildigest_go.Prelude.Maps.{Map, lookup, insert, lookup-insert}
use gmaildigest_go.Cron.Calendar.{Time}
use gmaildigest_go.Jobs.Job.{Job, status_dec}
use gmaildigest_go.Jobs.Store.{Json, Env, Table, update_job_in}
use gmaildigest_go.Scheduler.State.{is_pending}
use gmaildigest_go.Scheduler.Dispatch.{is_due}
use gmaildigest_go.Scheduler.Dispatch.Effects.{Outcomes}
use gmaildigest_go.Scheduler.Outcome.{completed_job, failed_job}

-- The entry of `k` exists and does not wait for a run.
abbrev pub Parked : Text → Map Job → Type 0
Parked k m = (j : Job) × (lookup k m ≡ some j) × (is_pending j ≡ false)

pub lookup-Outcomes :
    (env : Text → Env) (now : Time) (k : Text) (m m' : Map Job) (j : Job)
    → Outcomes env now m m'
    → lookup k m ≡ some j
    → is_pending j ≡ false
    → lookup k m' ≡ some j
unfolding lookup is_due
lookup-Outcomes env now k [] [] j o h p = cc
lookup-Outcomes env now k [] (e ∷ m') j o h p = absurd o
lookup-Outcomes env now k (e ∷ m) [] j o h p = absurd o
lookup-Outcomes env now k ((i, x) ∷ m) ((i', x') ∷ m') j ((same, inl e), o) h p =
    ground (arith, lookup-Outcomes env now k m m' j o)
lookup-Outcomes env now k ((i, x) ∷ m) ((i', x') ∷ m') j ((same, inr (due, e)), o) h p =
    ground (arith, lookup-Outcomes env now k m m' j o)

pub insert-Parked :
    (k i : Text) (j : Job) (m : Map Job)
    → is_pending j ≡ false
    → Parked k m
    → Parked k (insert i j m)
insert-Parked k i j m p (x, here, parked) = elim (text_dec i k) [
  | yes e ↦ (j, rw (lookup-insert i k j m, if_pos _ e), p)
  | no n ↦ (x, rw (lookup-insert i k j m, if_neg _ n) here, parked)
]

pub completed_parked :
    (js : Json) (e : Env) (t : Table) (j : Job) (time : Time)
    → is_pending (update_job_in js e t (completed_job j time)).0 ≡ false
unfolding update_job_in completed_job status_dec
completed_parked js e t j time = refl

pub failed_parked :
    (js : Json) (e : Env) (t : Table) (j : Job) (message : Text)
    → is_pending (update_job_in js e t (failed_job j message e.now)).0 ≡ false
unfolding update_job_in failed_job status_dec
failed_parked js e t j message = refl

pub insert_done :
    (k i : Text) (j : Job) (m : Map Job) → i ≡ k → is_pending j ≡ false → Parked k (insert i j m)
insert_done k i j m e p = (j, rw (lookup-insert i k j m, if_pos _ e), p)
