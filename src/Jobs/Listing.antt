-- ===== src/Jobs/Listing.antt =====
-- What `ListJobs` returns.
use mathlib.Core.List.{Perm}
use mathlib.Core.List.Perm
use gmaildigest_go.Prelude.{
  ◌≤◌, ◌≡◌, refl, List, [], ◌∷◌, map, arith, leb, Option-cases, Bool-cases, inl, inr, All,
}
use gmaildigest_go.Prelude.Text.{Text}
use gmaildigest_go.Prelude.Results.{ok, >>=-eq-ok}
use gmaildigest_go.Jobs.Job.{Job, JobFilter}
use gmaildigest_go.Jobs.Filter.{
  Meets, Selection, select_rows-Selection, Selection-All, Meets-stored,
}
use gmaildigest_go.Jobs.Store.{
  Json, Env, Table, select_rows, place_row, order_rows, scan_job, scan_rows, list_jobs, stored,
}

abbrev pub ids : List Job → List Text
ids = map (λ j. j.id)

-- In the order of the next run.
abbrev pub IsSorted : List Job → Type 0
IsSorted [] = Unit {0}
IsSorted (r ∷ t) = All (λ q. r.next_run ≤ q.next_run) t × IsSorted t

place_row-All {κ} : (P : Job → Type κ) (r : Job) (t : Table) → P r → All P t → All P (place_row r t)
unfolding place_row
place_row-All P r [] p a = (p, a)
place_row-All P r (q ∷ t) p (a, as') = ground (arith, place_row-All P r t p as')

All-later :
    (r q : Job) (t : Table)
    → r.next_run ≤ q.next_run
    → All (λ x. q.next_run ≤ x.next_run) t
    → All (λ x. r.next_run ≤ x.next_run) t
All-later r q [] h a = tt
All-later r q (x ∷ t) h (a, as') = (omega (arith, a), All-later r q t h as')

place_row-IsSorted : (r : Job) (t : Table) → IsSorted t → IsSorted (place_row r t)
unfolding place_row
place_row-IsSorted r [] s = (tt, tt)
place_row-IsSorted r (q ∷ t) (a, s) = elim (Bool-cases (leb r.next_run q.next_run)) [
  | inl first ↦ rw first ((ground arith, All-later r q t (ground arith) a), (a, s))
  | inr second ↦
      rw second (
        place_row-All (λ x. q.next_run ≤ x.next_run) r t (ground arith) a,
        place_row-IsSorted r t s,
      )
]

order_rows-IsSorted : (t : Table) → IsSorted (order_rows t)
unfolding order_rows
order_rows-IsSorted [] = tt
order_rows-IsSorted (r ∷ t) = place_row-IsSorted r (order_rows t) (order_rows-IsSorted t)

order_rows-All {κ} : (P : Job → Type κ) (t : Table) → All P t → All P (order_rows t)
unfolding order_rows
order_rows-All P [] a = a
order_rows-All P (r ∷ t) (a, as') = place_row-All P r (order_rows t) a (order_rows-All P t as')

place_row-perm : (r : Job) (t : Table) → Perm (ids (place_row r t)) (r.id ∷ ids t)
unfolding place_row
place_row-perm r [] = Perm.refl _
place_row-perm r (q ∷ t) = elim (Bool-cases (leb r.next_run q.next_run)) [
  | inl first ↦ rw first (Perm.refl _)
  | inr second ↦
      rw second (Perm.trans (Perm.cons q.id (place_row-perm r t)) (Perm.swap r.id q.id (ids t)))
]

order_rows-perm : (t : Table) → Perm (ids (order_rows t)) (ids t)
unfolding order_rows
order_rows-perm [] = Perm.refl _
order_rows-perm (r ∷ t) =
    Perm.trans (place_row-perm r (order_rows t)) (Perm.cons r.id (order_rows-perm t))

-- A scanned row differs in its payload only.
scan_job-eq : (js : Json) (r : Job) {j : Job} → scan_job js r ≡ ok j → (p : Text) × (j ≡ stored r p)
unfolding scan_job
scan_job-eq js r h = elim (Option-cases (js.unmarshal r.payload)) [
  | inl e ↦ absurd (ground arith)
  | inr (p, e) ↦ (p, ground arith)
]

-- The rows one by one, up to the payload.
abbrev SameRows : Table → List Job → Type 0
SameRows [] [] = Unit {0}
SameRows [] (j ∷ out) = ⊥
SameRows (r ∷ t) [] = ⊥
SameRows (r ∷ t) (j ∷ out) = ((p : Text) × (j ≡ stored r p)) × SameRows t out

scan_rows-SameRows :
    (js : Json) (t : Table) (out : List Job) → scan_rows js t ≡ ok out → SameRows t out
unfolding scan_rows
scan_rows-SameRows js [] [] h = tt
scan_rows-SameRows js [] (j ∷ out) h = cc
scan_rows-SameRows js (r ∷ t) [] h =
    let (j, first, more) = >>=-eq-ok (scan_job js r) _ h in
    let (rest, others, last) = >>=-eq-ok (scan_rows js t) _ more in cc
scan_rows-SameRows js (r ∷ t) (j ∷ out) h =
    let (k, first, more) = >>=-eq-ok (scan_job js r) _ h in
    let (rest, others, last) = >>=-eq-ok (scan_rows js t) _ more in
    let (p, e) = scan_job-eq js r first in
    ((p, ground arith), scan_rows-SameRows js t out (ground arith))

SameRows-ids : (t : Table) (out : List Job) → SameRows t out → ids out ≡ ids t
SameRows-ids [] [] s = refl
SameRows-ids [] (j ∷ out) s = absurd s
SameRows-ids (r ∷ t) [] s = absurd s
SameRows-ids (r ∷ t) (j ∷ out) ((p, e), s) = ground (arith, SameRows-ids t out s)

-- A predicate that does not look at the payload.
SameRows-All {κ} :
    (P : Job → Type κ) (t : Table) (out : List Job)
    → ((r : Job) (p : Text) → P r → P (stored r p))
    → SameRows t out
    → All P t
    → All P out
SameRows-All P [] [] keep s a = tt
SameRows-All P [] (j ∷ out) keep s a = absurd s
SameRows-All P (r ∷ t) [] keep s a = absurd s
SameRows-All P (r ∷ t) (j ∷ out) keep ((p, e), s) (a, as') =
    (rw e (keep r p a), SameRows-All P t out keep s as')

SameRows-IsSorted : (t : Table) (out : List Job) → SameRows t out → IsSorted t → IsSorted out
SameRows-IsSorted [] [] s a = tt
SameRows-IsSorted [] (j ∷ out) s a = absurd s
SameRows-IsSorted (r ∷ t) [] s a = absurd s
SameRows-IsSorted (r ∷ t) (j ∷ out) ((p, e), s) (a, sorted) = (
  rw e (SameRows-All (λ q. r.next_run ≤ q.next_run) t out (λ q p' l. l) s a),
  SameRows-IsSorted t out s sorted,
)

-- A listing that succeeds returns the jobs that meet the filter and no other: each part of the filter
-- that is set is met by every job returned, each row of the table that meets the filter is returned
-- once and no other row is, and the jobs stand in the order of their next run.
pub list_jobs_sound :
    (js : Json) (e : Env) (t : Table) (f : JobFilter) {out : List Job}
    → list_jobs js e t f ≡ ok out
    → ((met : Table) × Selection f t met × Perm (ids out) (ids met))
      × All (Meets f) out
      × IsSorted out
unfolding list_jobs
list_jobs_sound js e t f {out} h = (
  (
    select_rows f t,
    select_rows-Selection f t,
    rw (SameRows-ids rows out same) (order_rows-perm (select_rows f t)),
  ),
  SameRows-All (Meets f) rows out (Meets-stored f) same
      (order_rows-All (Meets f) (select_rows f t) (Selection-All (select_rows-Selection f t))),
  SameRows-IsSorted rows out same (order_rows-IsSorted (select_rows f t)),
)
  where
    rows : Table
    rows = order_rows (select_rows f t)

    same : SameRows rows out
    same = scan_rows-SameRows js rows out (ground arith)
