-- ===== src/Jobs/Keys.antt =====
-- The constraints of the table: each id and each (user, type, schedule) stands in one row, and every
-- status is one of the five.
use gmaildigest_go.Prelude.{
  ◌≡◌, ◌≢◌, refl, sym, Bool, true, false, [], ◌∷◌, ◌++◌, Option, none, some, arith, any, All, ◌∙◌,
  if_pos, if_neg,
}
use gmaildigest_go.Prelude.Text.{Text, text_dec}
use gmaildigest_go.Prelude.Results.{ok}
use gmaildigest_go.Jobs.Job.{Job, is_valid_status}
use gmaildigest_go.Jobs.Store.{
  Json, Env, Table, same_key, clashes, with_defaults, insert_row, insert_marshalled, create_job,
  set_row, update_rows, update_clashes, update_row, update_marshalled, update_job_in, delete_rows,
  delete_job_in, stored,
}

abbrev pub Apart : Job → Job → Type 0
Apart a b = (a.id ≢ b.id) × (same_key a b ≡ false)

abbrev pub Keyed : Table → Type 0
Keyed [] = Unit {0}
Keyed (r ∷ t) = All (Apart r) t × Keyed t

abbrev pub Valid : Table → Type 0
Valid = All (λ r. is_valid_status r.status ≡ true)

pub record IsTable (t : Table) : Type 0 where
  pub keyed : Keyed t
  pub valid : Valid t

Keyed-append : (t : Table) (r : Job) → Keyed t → any (clashes r) t ≡ false → Keyed (t ++ r ∷ [])
Keyed-append [] r k h = (tt, tt)
Keyed-append (q ∷ t) r (a, k) h = (last t a, Keyed-append t r k (ground arith))
  where
    apart : Apart q r
    apart = ground arith

    last : (u : Table) → All (Apart q) u → All (Apart q) (u ++ r ∷ [])
    last [] b = (apart, tt)
    last (x ∷ u) (b, bs) = (b, last u bs)

Valid-append :
    (t : Table) (r : Job) → Valid t → is_valid_status r.status ≡ true → Valid (t ++ r ∷ [])
Valid-append [] r v h = (h, tt)
Valid-append (q ∷ t) r (v, vs) h = (v, Valid-append t r vs h)

insert_row-IsTable :
    (fails : Bool) (t : Table) (r : Job) {u : Table}
    → IsTable t
    → insert_row fails t r ≡ ok u
    → IsTable u
unfolding insert_row
insert_row-IsTable fails t r {u} i h = rw (← same) (record {
  keyed = Keyed-append t r i.keyed (ground arith);
  valid = Valid-append t r i.valid (ground arith);
})
  where
    same : t ++ r ∷ [] ≡ u
    same = ground arith

update_rows_absent : (j : Job) (t : Table) → All (λ q. q.id ≢ j.id) t → update_rows j t ≡ t
unfolding update_rows
update_rows_absent j [] a = refl
update_rows_absent j (q ∷ t) (a, as') = ground (arith, update_rows_absent j t as')

update_rows-Apart :
    (j p : Job) (t : Table)
    → same_key p j ≡ false
    → All (Apart p) t
    → All (Apart p) (update_rows j t)
unfolding update_rows set_row
update_rows-Apart j p [] k a = tt
update_rows-Apart j p (q ∷ t) k (a, as') = ground (arith, update_rows-Apart j p t k as')

-- No other row has the key of `j`.
Apart-of_key :
    (j q : Job) (t : Table)
    → q.id ≡ j.id
    → update_clashes j t ≡ false
    → All (Apart q) t
    → All (Apart (set_row j q)) t
unfolding set_row
Apart-of_key j q [] e h a = tt
Apart-of_key j q (x ∷ t) e h (a, as') = (ground arith, Apart-of_key j q t e (ground arith) as')

ne_of_Apart : (q : Job) (i : Text) (t : Table) → q.id ≡ i → All (Apart q) t → All (λ x. x.id ≢ i) t
ne_of_Apart q i [] e a = tt
ne_of_Apart q i (x ∷ t) e (a, as') = ((λ p. a.0 (e ∙ sym p)), ne_of_Apart q i t e as')

update_rows-Keyed :
    (j : Job) (t : Table) → update_clashes j t ≡ false → Keyed t → Keyed (update_rows j t)
unfolding update_rows
update_rows-Keyed j [] h k = tt
update_rows-Keyed j (q ∷ t) h (a, k) = elim (text_dec q.id j.id) [
  | yes e ↦
      rw (if_pos _ e, update_rows_absent j t (ne_of_Apart q j.id t e a))
        (Apart-of_key j q t e (ground arith) a, k)
  | no n ↦
      rw (if_neg _ n)
        (update_rows-Apart j q t (ground arith) a, update_rows-Keyed j t (ground arith) k)
]

update_rows-Valid :
    (j : Job) (t : Table) → is_valid_status j.status ≡ true → Valid t → Valid (update_rows j t)
unfolding update_rows set_row
update_rows-Valid j [] h v = tt
update_rows-Valid j (q ∷ t) h (v, vs) = ground (arith, update_rows-Valid j t h vs)

update_row-IsTable :
    (fails : Bool) (t : Table) (j : Job) {u : Table}
    → IsTable t
    → update_row fails t j ≡ ok u
    → IsTable u
unfolding update_row
update_row-IsTable fails t j {u} i h = rw (← same) (record {
  keyed = update_rows-Keyed j t (ground arith) i.keyed;
  valid = update_rows-Valid j t (ground arith) i.valid;
})
  where
    same : update_rows j t ≡ u
    same = ground arith

delete_rows-All {κ} : (P : Job → Type κ) (i : Text) (t : Table) → All P t → All P (delete_rows i t)
unfolding delete_rows
delete_rows-All P i [] a = tt
delete_rows-All P i (q ∷ t) (a, as') = ground (arith, delete_rows-All P i t as')

delete_rows-Keyed : (i : Text) (t : Table) → Keyed t → Keyed (delete_rows i t)
unfolding delete_rows
delete_rows-Keyed i [] k = tt
delete_rows-Keyed i (q ∷ t) (a, k) =
    ground (arith, delete_rows-All (Apart q) i t a, delete_rows-Keyed i t k)

-- `CreateJob` keeps the constraints.
pub create_job-IsTable :
    (js : Json) (e : Env) (t : Table) (j : Job) {u : Table}
    → IsTable t
    → (create_job js e t j).1 ≡ ok u
    → IsTable u
unfolding create_job
create_job-IsTable js e t j i h =
    from (with_defaults e j) (js.marshal (with_defaults e j).payload) h
  where
    from : (k : Job) (m : Option Text) {u : Table} → insert_marshalled e t k m ≡ ok u → IsTable u
    from k none g = absurd (cc)
    from k (some p) g = insert_row-IsTable e.db_fails t (stored k p) i g

-- `UpdateJob` keeps the constraints.
pub update_job_in-IsTable :
    (js : Json) (e : Env) (t : Table) (j : Job) {u : Table}
    → IsTable t
    → (update_job_in js e t j).1 ≡ ok u
    → IsTable u
unfolding update_job_in
update_job_in-IsTable js e t j i h = from (record j { updated_at = e.now }) (js.marshal j.payload) h
  where
    from : (k : Job) (m : Option Text) {u : Table} → update_marshalled e t k m ≡ ok u → IsTable u
    from k none g = absurd (cc)
    from k (some p) g = update_row-IsTable e.db_fails t (stored k p) i g

-- `DeleteJob` keeps the constraints.
pub delete_job_in-IsTable :
    (e : Env) (t : Table) (d : Text) {u : Table}
    → IsTable t
    → delete_job_in e t d ≡ ok u
    → IsTable u
unfolding delete_job_in
delete_job_in-IsTable e t d {u} i h = rw (← same) (record {
  keyed = delete_rows-Keyed d t i.keyed;
  valid = delete_rows-All (λ r. is_valid_status r.status ≡ true) d t i.valid;
})
  where
    same : delete_rows d t ≡ u
    same = ground arith
