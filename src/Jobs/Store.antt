-- ===== src/Jobs/Store.antt =====
-- `SQLiteJobStore`. The table `jobs` is the list of its rows in the order of their insertion; a row
-- is a `Job` whose payload is the stored text. A statement may fail in the driver, and then changes
-- nothing.
use gmaildigest_go.Prelude.{
  ◌≡◌, Bool, true, false, not, ◌&&◌, ◌||◌, List, [], ◌∷◌, ◌++◌, Option, none, some, ite,
  if◌then◌else◌, any, leb, ◌==◌,
}
use gmaildigest_go.Prelude.Text.{Text, text_dec, eqt, is_empty}
use gmaildigest_go.Prelude.Results.{Result, ok, err, ◌>>=◌}
use gmaildigest_go.Cron.Calendar.{Time}
use gmaildigest_go.Jobs.Job.{Job, JobFilter, JobStatus, pending, unset, status_dec, is_valid_status}

-- The package encoding/json on a `json.RawMessage`: marshalling checks and compacts the text;
-- unmarshalling checks it and takes it as it is.
pub record Json : Type 0 where
  pub marshal : Text → Option Text
  pub unmarshal : Text → Option Text
  pub unmarshal-marshal : (p q : Text) → marshal p ≡ some q → unmarshal q ≡ some q

-- What a call meets: the clock, the next UUID, and whether the driver refuses the statement.
pub record Env : Type 0 where
  pub now : Time
  pub uuid : Text
  pub db_fails : Bool

abbrev pub Table : Type 0
Table = List Job

pub data StoreError : Type 0 where
  marshal_payload insert_job update_job query_job delete_job unmarshal_payload create_schema :
      StoreError
  job_not_found : StoreError

-- `Initialize`: the tables and indexes are created only where they are missing.
unfoldable pub initialize : Env → Table → Result StoreError Table
initialize e t = if e.db_fails then err create_schema else ok t

-- `UNIQUE(user_id, type, schedule)`.
abbrev pub same_key : Job → Job → Bool
same_key a b = eqt a.user_id b.user_id && eqt a.job_type b.job_type && eqt a.schedule b.schedule

-- A row that an insertion of `r` may not meet.
abbrev pub clashes : Job → Job → Bool
clashes r q = eqt q.id r.id || same_key q r

-- `if job.ID == ""`, `if job.Status == ""`, `if job.CreatedAt.IsZero()`.
unfoldable pub with_defaults : Env → Job → Job
with_defaults e j = record j {
  id = if is_empty j.id then e.uuid else j.id;
  status = ite (status_dec j.status unset) pending j.status;
  created_at = if j.created_at == 0 then e.now else j.created_at;
  updated_at = e.now;
}

-- The insertion itself, under the constraints of the schema.
unfoldable pub insert_row : Bool → Table → Job → Result StoreError Table
insert_row fails t r =
    if fails || any (clashes r) t || not (is_valid_status r.status)
    then err insert_job
    else ok (t ++ r ∷ [])

abbrev pub stored : Job → Text → Job
stored j p = record j { payload = p }

abbrev pub insert_marshalled : Env → Table → Job → Option Text → Result StoreError Table
insert_marshalled e t j none = err marshal_payload
insert_marshalled e t j (some p) = insert_row e.db_fails t (stored j p)

-- `CreateJob`: the job with the defaults, which the caller's object keeps also on an error, and the
-- table or the error.
unfoldable pub create_job : Json → Env → Table → Job → Job × Result StoreError Table
create_job js e t j =
    let k = with_defaults e j in (k, insert_marshalled e t k (js.marshal k.payload))

-- The row that the statement of `UpdateJob` writes: all but the id and the creation time.
unfoldable pub set_row : Job → Job → Job
set_row j q = record j { id = q.id; created_at = q.created_at }

unfoldable pub update_rows : Job → Table → Table
update_rows j [] = []
update_rows j (q ∷ t) =
    ite (text_dec q.id j.id) (set_row j q ∷ update_rows j t) (q ∷ update_rows j t)

abbrev pub has_id : Text → Table → Bool
has_id i = any (λ q. eqt q.id i)

-- Another row has the key that the update would write.
abbrev pub update_clashes : Job → Table → Bool
update_clashes j = any (λ q. not (eqt q.id j.id) && same_key q j)

unfoldable pub update_row : Bool → Table → Job → Result StoreError Table
update_row fails t j =
    if fails
    then err update_job
    else if not (has_id j.id t)
    then err job_not_found
    else if update_clashes j t || not (is_valid_status j.status)
    then err update_job
    else ok (update_rows j t)

abbrev pub update_marshalled : Env → Table → Job → Option Text → Result StoreError Table
update_marshalled e t j none = err marshal_payload
update_marshalled e t j (some p) = update_row e.db_fails t (stored j p)

unfoldable pub update_job_in : Json → Env → Table → Job → Job × Result StoreError Table
update_job_in js e t j =
    let k = record j { updated_at = e.now } in (k, update_marshalled e t k (js.marshal k.payload))

-- `scanJob`.
unfoldable pub scan_job : Json → Job → Result StoreError Job
scan_job js r = elim (js.unmarshal r.payload) [
  | none ↦ err unmarshal_payload
  | some p ↦ ok (stored r p)
]

unfoldable pub find_row : Text → Table → Option Job
find_row i [] = none
find_row i (q ∷ t) = ite (text_dec q.id i) (some q) (find_row i t)

abbrev pub scan_first : Json → Option Job → Result StoreError Job
scan_first js none = err job_not_found
scan_first js (some r) = scan_job js r

unfoldable pub get_job : Json → Env → Table → Text → Result StoreError Job
get_job js e t i = if e.db_fails then err query_job else scan_first js (find_row i t)

unfoldable pub delete_rows : Text → Table → Table
delete_rows i [] = []
delete_rows i (q ∷ t) = ite (text_dec q.id i) (delete_rows i t) (q ∷ delete_rows i t)

unfoldable pub delete_job_in : Env → Table → Text → Result StoreError Table
delete_job_in e t i =
    if e.db_fails
    then err delete_job
    else if has_id i t
    then ok (delete_rows i t)
    else err job_not_found

abbrev pub is_status : JobStatus → JobStatus → Bool
is_status a b = ite (status_dec a b) true false

-- `status IN (...)`, a condition that an empty list leaves out.
abbrev pub in_statuses : List JobStatus → JobStatus → Bool
in_statuses [] x = true
in_statuses (s ∷ ss) x = any (is_status x) (s ∷ ss)

-- The conditions of `ListJobs`.
unfoldable pub selects : JobFilter → Job → Bool
unfolding status_dec
selects f r =
    (is_empty f.user_id || eqt r.user_id f.user_id)
    && (is_empty f.job_type || eqt r.job_type f.job_type)
    && (is_status f.status unset || is_status r.status f.status)
    && in_statuses f.statuses r.status
    && (f.next_run == 0 || leb f.next_run r.next_run)

unfoldable pub select_rows : JobFilter → Table → Table
select_rows f [] = []
select_rows f (r ∷ t) = let rest = select_rows f t in if selects f r then r ∷ rest else rest

-- `ORDER BY next_run ASC`; rows of one time keep the order of their insertion.
unfoldable pub place_row : Job → Table → Table
place_row r [] = r ∷ []
place_row r (q ∷ t) =
    let rest = place_row r t in if leb r.next_run q.next_run then r ∷ q ∷ t else q ∷ rest

unfoldable pub order_rows : Table → Table
unfolding place_row
order_rows [] = []
order_rows (r ∷ t) = place_row r (order_rows t)

unfoldable pub scan_rows : Json → Table → Result StoreError (List Job)
scan_rows js [] = ok []
scan_rows js (r ∷ t) = do j ← scan_job js r; rest ← scan_rows js t; ok (j ∷ rest)

unfoldable pub list_jobs : Json → Env → Table → JobFilter → Result StoreError (List Job)
list_jobs js e t f =
    if e.db_fails then err query_job else scan_rows js (order_rows (select_rows f t))
