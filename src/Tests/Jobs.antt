-- ===== src/Tests/Jobs.antt =====
-- The job store on a small table.
use mathlib.Core.List.{Perm}
use gmaildigest_go.Prelude.{◌≡◌, refl, false, All, List, [], ◌∷◌, some, none}
use gmaildigest_go.Prelude.Text.{codes, text_dec}
use gmaildigest_go.Prelude.Results.{ok}
use gmaildigest_go.Jobs.Job.{Job, JobFilter, pending, unset, completed, status_dec}
use gmaildigest_go.Jobs.Store.{
  Json, Env, Table, with_defaults, insert_row, create_job, update_job_in, update_row, update_rows,
  set_row, delete_job_in, delete_rows, list_jobs, select_rows, selects, order_rows, scan_rows,
  scan_job,
}
use gmaildigest_go.Jobs.Keys.{IsTable}
use gmaildigest_go.Jobs.History.{StoreCall, creates, updates, deletes, run, run-IsTable}
use gmaildigest_go.Jobs.Filter.{Meets, Selection}
use gmaildigest_go.Jobs.Listing.{ids, IsSorted, list_jobs_sound}

-- A codec for texts that are compact already.
abbrev pub plain_json : Json
plain_json = record {
  marshal = λ p. some p;
  unmarshal = λ p. some p;
  unmarshal-marshal = λ p q h. refl;
}

abbrev pub env : Env
env = record { now = 1000; uuid = codes "u1"; db_fails = false }

abbrev pub digest_job : Job
digest_job = record {
  id = codes "j1";
  user_id = codes "ann";
  job_type = codes "digest";
  schedule = codes "0 * * * *";
  payload = codes "{}";
  status = pending;
  retry_count = 0;
  last_error = [];
  next_run = 1500;
  last_run = none;
  created_at = 7;
  updated_at = 7;
}

abbrev refresh_job : Job
refresh_job = record digest_job {
  id = [];
  job_type = codes "token_refresh";
  next_run = 1200;
  created_at = 0;
}

abbrev one_row : Table
one_row = digest_job ∷ []

one_row-IsTable : IsTable one_row
one_row-IsTable = record { keyed = (tt, tt); valid = (refl, tt) }

abbrev refresh_row : Job
refresh_row = record refresh_job { id = codes "u1"; created_at = 1000; updated_at = 1000 }

created : (create_job plain_json env one_row refresh_job).1 ≡ ok (digest_job ∷ refresh_row ∷ [])
unfolding create_job with_defaults insert_row status_dec text_dec
created = refl

abbrev done_job : Job
done_job = record digest_job { status = completed; created_at = 0 }

abbrev done_row : Job
done_row = record digest_job { status = completed; updated_at = 1000 }

updated : (update_job_in plain_json env one_row done_job).1 ≡ ok (done_row ∷ [])
unfolding update_job_in update_row update_rows set_row text_dec
updated = refl

deleted : delete_job_in env one_row (codes "j1") ≡ ok []
unfolding delete_job_in delete_rows text_dec
deleted = refl

abbrev calls : List StoreCall
calls =
    creates env refresh_job
    ∷ creates env refresh_job
    ∷ updates env done_job
    ∷ deletes env (codes "j1")
    ∷ []

run-IsTable_example : IsTable (run plain_json one_row calls)
run-IsTable_example = run-IsTable plain_json one_row calls one_row-IsTable

abbrev anns : JobFilter
anns = record { user_id = codes "ann"; job_type = []; status = unset; next_run = 0; statuses = [] }

listed :
    list_jobs plain_json env (digest_job ∷ refresh_row ∷ []) anns
    ≡ ok (refresh_row ∷ digest_job ∷ [])
unfolding list_jobs select_rows selects order_rows scan_rows scan_job status_dec text_dec
listed = refl

list_jobs_sound_example :
    ((met : Table) × Selection anns (digest_job ∷ refresh_row ∷ []) met
      × Perm (ids (refresh_row ∷ digest_job ∷ [])) (ids met))
    × All (Meets anns) (refresh_row ∷ digest_job ∷ [])
    × IsSorted (refresh_row ∷ digest_job ∷ [])
list_jobs_sound_example = list_jobs_sound plain_json env (digest_job ∷ refresh_row ∷ []) anns listed
