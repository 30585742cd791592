-- ===== src/Jobs/Access.antt =====
-- What a read by id returns after each write.
use mathlib.Core.Option
use gmaildigest_go.Prelude.{
  ◌≡◌, refl, Bool, true, false, [], ◌∷◌, ◌++◌, none, some, ite, arith, any, if_pos, if_neg,
}
use gmaildigest_go.Prelude.Text.{Text, text_dec}
use gmaildigest_go.Prelude.Results.{ok, err}
use gmaildigest_go.Jobs.Job.{Job}
use gmaildigest_go.Jobs.Store.{
  Json, Env, Table, job_not_found, clashes, with_defaults, insert_row, create_job, set_row,
  update_rows, has_id, update_row, update_job_in, find_row, scan_job, get_job, delete_rows,
  delete_job_in, stored,
}

find_row-append :
    (i : Text) (t : Table) (r : Job)
    → any (clashes r) t ≡ false
    → find_row i (t ++ r ∷ []) ≡ ite (text_dec r.id i) (some r) (find_row i t)
unfolding find_row
find_row-append i [] r h = refl
find_row-append i (q ∷ t) r h = ground (arith, find_row-append i t r)

find_row-update_rows :
    (i : Text) (j : Job) (t : Table)
    → find_row i (update_rows j t)
      ≡ ite (text_dec j.id i) (Option.map (set_row j) (find_row i t)) (find_row i t)
unfolding find_row update_rows set_row
find_row-update_rows i j [] = ground arith
find_row-update_rows i j (q ∷ t) = ground (arith, find_row-update_rows i j t)

find_row-delete_rows :
    (i d : Text) (t : Table) → find_row i (delete_rows d t) ≡ ite (text_dec d i) none (find_row i t)
unfolding find_row delete_rows
find_row-delete_rows i d [] = ground arith
find_row-delete_rows i d (q ∷ t) = ground (arith, find_row-delete_rows i d t)

insert_row-eq :
    (fails : Bool) (t : Table) (r : Job) {u : Table}
    → insert_row fails t r ≡ ok u
    → (u ≡ t ++ r ∷ []) × (any (clashes r) t ≡ false)
unfolding insert_row
insert_row-eq fails t r h = ground arith

get_job-insert_row :
    (js : Json) (e' : Env) (fails : Bool) (t u : Table) (k : Job) (p i : Text)
    → insert_row fails t (stored k p) ≡ ok u
    → js.unmarshal p ≡ some p
    → e'.db_fails ≡ false
    → get_job js e' u i ≡ ite (text_dec k.id i) (ok (stored k p)) (get_job js e' t i)
unfolding get_job scan_job
get_job-insert_row js e' fails t u k p i h back live =
    let (e, apart) = insert_row-eq fails t (stored k p) h in
    rw (e, find_row-append i t (stored k p) apart) (ground arith)

-- After a successful creation a read of the new id returns the job as created, its payload
-- compacted, and a read of any other id returns what it did before.
pub get_job-create_job :
    (js : Json) (e e' : Env) (t u : Table) (j : Job) (p i : Text)
    → (create_job js e t j).1 ≡ ok u
    → js.marshal j.payload ≡ some p
    → e'.db_fails ≡ false
    → get_job js e' u i
      ≡ ite
          (text_dec (create_job js e t j).0.id i)
          (ok (stored (create_job js e t j).0 p))
          (get_job js e' t i)
unfolding create_job with_defaults
get_job-create_job js e e' t u j p i h m live =
    get_job-insert_row js e' e.db_fails t u (with_defaults e j) p i (rw m at h)
      (js.unmarshal-marshal j.payload p m) live

update_row-eq :
    (fails : Bool) (t : Table) (j : Job) {u : Table}
    → update_row fails t j ≡ ok u
    → (u ≡ update_rows j t) × (has_id j.id t ≡ true)
unfolding update_row
update_row-eq fails t j h = ground arith

has_id-find_row : (i : Text) (t : Table) → has_id i t ≡ true → (r : Job) × (find_row i t ≡ some r)
unfolding find_row
has_id-find_row i [] h = absurd (cc)
has_id-find_row i (q ∷ t) h = elim (text_dec q.id i) [
  | yes e ↦ (q, rw (if_pos _ e))
  | no n ↦ let (r, f) = has_id-find_row i t (ground arith) in (r, rw (if_neg _ n) f)
]

find_row-id : (i : Text) (t : Table) (r : Job) → find_row i t ≡ some r → r.id ≡ i
unfolding find_row
find_row-id i [] r h = cc
find_row-id i (q ∷ t) r h = ground (arith, find_row-id i t r)

get_job-update_rows :
    (js : Json) (e' : Env) (t : Table) (k : Job) (p i : Text) (r : Job)
    → find_row k.id t ≡ some r
    → js.unmarshal p ≡ some p
    → e'.db_fails ≡ false
    → get_job js e' (update_rows (stored k p) t) i
      ≡ ite
          (text_dec k.id i)
          (ok (record k { payload = p; created_at = r.created_at }))
          (get_job js e' t i)
unfolding get_job scan_job set_row
get_job-update_rows js e' t k p i r row back live = elim (text_dec k.id i) [
  | yes e ↦
      let here : find_row i t ≡ some r = rw e at row in
      let id : r.id ≡ k.id = find_row-id k.id t r row in
      rw (find_row-update_rows i (stored k p) t, if_pos _ e, if_pos _ e, here) (ground arith)
  | no n ↦ rw (find_row-update_rows i (stored k p) t, if_neg _ n, if_neg _ n) (ground arith)
]

-- An update that succeeds found the row of the job's id. Afterwards a read of that id returns the
-- job as updated, its payload compacted, with the creation time of the row, and a read of any other
-- id returns what it did before.
pub get_job-update_job_in :
    (js : Json) (e e' : Env) (t u : Table) (j : Job) (p i : Text)
    → (update_job_in js e t j).1 ≡ ok u
    → js.marshal j.payload ≡ some p
    → e'.db_fails ≡ false
    → (r : Job) × (find_row j.id t ≡ some r)
      × (get_job js e' u i
          ≡ ite
              (text_dec j.id i)
              (ok (record j { payload = p; created_at = r.created_at; updated_at = e.now }))
              (get_job js e' t i))
unfolding update_job_in get_job scan_job set_row
get_job-update_job_in js e e' t u j p i h m live =
    let k : Job = stored (record j { updated_at = e.now }) p in
    let (eu, known) = update_row-eq e.db_fails t k (rw m at h) in
    let (r, row) = has_id-find_row j.id t known in
    (
      r,
      row,
      rw eu (
          get_job-update_rows js e' t (record j { updated_at = e.now }) p i r row
            (js.unmarshal-marshal j.payload p m) live),
    )

-- After a successful deletion a read of the id finds no job, and a read of any other id returns what
-- it did before.
pub get_job-delete_job :
    (js : Json) (e e' : Env) (t u : Table) (d i : Text)
    → delete_job_in e t d ≡ ok u
    → e'.db_fails ≡ false
    → get_job js e' u i ≡ ite (text_dec d i) (err job_not_found) (get_job js e' t i)
unfolding delete_job_in get_job
get_job-delete_job js e e' t u d i h live = ground (arith, find_row-delete_rows i d t)
