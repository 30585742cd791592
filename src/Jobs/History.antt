-- ===== src/Jobs/History.antt =====
-- Any sequence of calls of the store.
use gmaildigest_go.Prelude.{◌≡◌, refl, List, [], ◌∷◌}
use gmaildigest_go.Prelude.Text.{Text}
use gmaildigest_go.Prelude.Results.{Result, ok, err}
use gmaildigest_go.Jobs.Job.{Job}
use gmaildigest_go.Jobs.Store.{
  Json, Env, Table, StoreError, create_job, update_job_in, delete_job_in,
}
use gmaildigest_go.Jobs.Keys.{
  IsTable, create_job-IsTable, update_job_in-IsTable, delete_job_in-IsTable,
}

pub data StoreCall : Type 0 where
  creates updates : Env → Job → StoreCall
  deletes : Env → Text → StoreCall

-- A call that fails leaves the table as it was.
abbrev pub after : Table → Result StoreError Table → Table
after t (ok u) = u
after t (err x) = t

pub outcome : Json → Table → StoreCall → Result StoreError Table
outcome js t (creates e j) = (create_job js e t j).1
outcome js t (updates e j) = (update_job_in js e t j).1
outcome js t (deletes e i) = delete_job_in e t i

pub run : Json → Table → List StoreCall → Table
unfolding outcome
run js t [] = t
run js t (c ∷ cs) = run js (after t (outcome js t c)) cs

outcome-IsTable :
    (js : Json) (t : Table) (c : StoreCall) {u : Table}
    → IsTable t
    → outcome js t c ≡ ok u
    → IsTable u
unfolding outcome
outcome-IsTable js t (creates e j) i h = create_job-IsTable js e t j i h
outcome-IsTable js t (updates e j) i h = update_job_in-IsTable js e t j i h
outcome-IsTable js t (deletes e d) i h = delete_job_in-IsTable e t d i h

after-IsTable :
    (t : Table) (r : Result StoreError Table)
    → IsTable t
    → ((u : Table) → r ≡ ok u → IsTable u)
    → IsTable (after t r)
after-IsTable t (ok u) i h = h u refl
after-IsTable t (err x) i h = i

-- Every sequence of creations, updates and deletions, failing ones included, keeps the table's
-- constraints: ids and (user, type, schedule) triples stay distinct and statuses valid.
pub run-IsTable : (js : Json) (t : Table) (cs : List StoreCall) → IsTable t → IsTable (run js t cs)
unfolding run
run-IsTable js t [] i = i
run-IsTable js t (c ∷ cs) i =
    run-IsTable js (after t (outcome js t c)) cs
      (after-IsTable t (outcome js t c) i (λ u h. outcome-IsTable js t c i h))
