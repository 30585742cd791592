-- ===== src/Jobs/Filter.antt =====
-- What a filter of `ListJobs` asks of a job, apart from the text of the query.
use gmaildigest_go.Prelude.{
  ℕ, ◌≤◌, ◌≡◌, ◌⊎◌, ◌↔◌, refl, Bool, true, false, ◌||◌, ◌&&◌, List, [], ◌∷◌, arith, leb, ◌==◌, any,
  inl, inr, Bool-cases, All,
}
use gmaildigest_go.Prelude.Text.{Text, eqt, is_empty}
use gmaildigest_go.Jobs.Job.{Job, JobStatus, JobFilter, unset}
use gmaildigest_go.Jobs.Store.{Table, selects, select_rows, is_status, in_statuses, stored}

-- The status is one of the list.
abbrev pub Among : List JobStatus → JobStatus → Type 0
Among [] x = ⊥
Among (s ∷ ss) x = (x ≡ s) ⊎ Among ss x

-- What a filter asks of a job. An empty part of the filter asks nothing.
pub record Meets (f : JobFilter) (j : Job) : Type 0 where
  pub user : (f.user_id ≡ []) ⊎ (j.user_id ≡ f.user_id)
  pub job_type : (f.job_type ≡ []) ⊎ (j.job_type ≡ f.job_type)
  pub status : (f.status ≡ unset) ⊎ (j.status ≡ f.status)
  pub statuses : (f.statuses ≡ []) ⊎ Among f.statuses j.status
  -- The filter's time or a later one.
  pub next_run : (f.next_run ≡ 0) ⊎ (f.next_run ≤ j.next_run)

-- The second table has the jobs of the first that meet the filter, each as often, and no other.
pub data Selection (f : JobFilter) : Table → Table → Type 0 where
  none_left : Selection f [] []
  takes : {t u : Table} (j : Job) → Meets f j → Selection f t u → Selection f (j ∷ t) (j ∷ u)
  skips : {t u : Table} (j : Job) → ¬ Meets f j → Selection f t u → Selection f (j ∷ t) u

or_lem : (a b : Bool) → ((a || b) ≡ true) ↔ ((a ≡ true) ⊎ (b ≡ true))
or_lem true b = (λ h. inl refl, λ h. refl)
or_lem false b = (λ h. inr h, λ h. elim h [ inl e ↦ absurd (cc) | inr e ↦ e ])

and_true : (a b : Bool) → (a && b) ≡ true → (a ≡ true) × (b ≡ true)
and_true true b h = (refl, h)
and_true false b h = absurd (cc)

and_both : (a b : Bool) → a ≡ true → b ≡ true → (a && b) ≡ true
and_both a b h k = rw (h, k) refl

is_empty-nil : (a : Text) → (is_empty a ≡ true) ↔ (a ≡ [])
is_empty-nil [] = (λ h. refl, λ h. refl)
is_empty-nil (c ∷ a) = (λ h. absurd (cc), λ h. absurd (cc))

eqt_lem : (a b : Text) → (eqt a b ≡ true) ↔ (a ≡ b)
eqt_lem a b = (λ h. ground arith, λ h. ground arith)

is_status_lem : (a b : JobStatus) → (is_status a b ≡ true) ↔ (a ≡ b)
is_status_lem a b = (λ h. ground arith, λ h. ground arith)

is_later :
    (f : JobFilter) (j : Job) → (leb f.next_run j.next_run ≡ true) ↔ (f.next_run ≤ j.next_run)
is_later f j = (λ h. ground arith, λ h. ground arith)

is_zero : (n : ℕ) → ((n == 0) ≡ true) ↔ (n ≡ 0)
is_zero n = (λ h. ground arith, λ h. ground arith)

-- One of two tests, and what each says.
either_test :
    {P Q : Type 0} (a b : Bool) → (a ≡ true) ↔ P → (b ≡ true) ↔ Q → ((a || b) ≡ true) ↔ (P ⊎ Q)
either_test a b (p, p') (q, q') = (
  λ h. elim ((or_lem a b).0 h) [ inl e ↦ inl (p e) | inr e ↦ inr (q e) ],
  λ h. elim h [ inl x ↦ (or_lem a b).1 (inl (p' x)) | inr x ↦ (or_lem a b).1 (inr (q' x)) ],
)

any-Among : (ss : List JobStatus) (x : JobStatus) → (any (is_status x) ss ≡ true) ↔ Among ss x
any-Among [] x = (λ h. absurd (cc), λ h. absurd h)
any-Among (s ∷ ss) x =
    either_test (is_status x s) (any (is_status x) ss) (is_status_lem x s) (any-Among ss x)

in_statuses-Among :
    (ss : List JobStatus) (x : JobStatus) → (in_statuses ss x ≡ true) ↔ ((ss ≡ []) ⊎ Among ss x)
in_statuses-Among [] x = (λ h. inl refl, λ h. refl)
in_statuses-Among (s ∷ ss) x = (
  λ h. inr ((any-Among (s ∷ ss) x).0 h),
  λ h. elim h [ inl e ↦ absurd (cc) | inr a ↦ (any-Among (s ∷ ss) x).1 a ],
)

and_lem :
    {P Q : Type 0} (a b : Bool) → (a ≡ true) ↔ P → (b ≡ true) ↔ Q → ((a && b) ≡ true) ↔ (P × Q)
and_lem a b (p, p') (q, q') =
    (λ h. let (x, y) = and_true a b h in (p x, q y), λ (x, y). and_both a b (p' x) (q' y))

-- The conditions of the query say what the filter asks.
selects-Meets : (f : JobFilter) (j : Job) → (selects f j ≡ true) ↔ Meets f j
unfolding selects
selects-Meets f j = (
  λ h.
      let ((((u, k), s), ss), n) = parts.0 h in
      record { user = u; job_type = k; status = s; statuses = ss; next_run = n },
  λ m. parts.1 ((((m.user, m.job_type), m.status), m.statuses), m.next_run),
)
  where
    parts : (selects f j ≡ true) ↔ (
        (((((f.user_id ≡ []) ⊎ (j.user_id ≡ f.user_id))
              × ((f.job_type ≡ []) ⊎ (j.job_type ≡ f.job_type)))
            × ((f.status ≡ unset) ⊎ (j.status ≡ f.status)))
          × ((f.statuses ≡ []) ⊎ Among f.statuses j.status))
        × ((f.next_run ≡ 0) ⊎ (f.next_run ≤ j.next_run)))
    parts =
        and_lem _ _
          (and_lem _ _
            (and_lem _ _
              (and_lem _ _ (either_test _ _ (is_empty-nil f.user_id) (eqt_lem j.user_id f.user_id))
                (either_test _ _ (is_empty-nil f.job_type) (eqt_lem j.job_type f.job_type)))
              (either_test _ _ (is_status_lem f.status unset) (is_status_lem j.status f.status)))
            (in_statuses-Among f.statuses j.status))
          (either_test _ _ (is_zero f.next_run) (is_later f j))

pub select_rows-Selection : (f : JobFilter) (t : Table) → Selection f t (select_rows f t)
unfolding select_rows
select_rows-Selection f [] = none_left
select_rows-Selection f (r ∷ t) = elim (Bool-cases (selects f r)) [
  | inl e ↦ rw e (takes r ((selects-Meets f r).0 e) (select_rows-Selection f t))
  | inr e ↦
      rw e
        (skips r (λ m. absurd (let h = (selects-Meets f r).1 m in cc)) (select_rows-Selection f t))
]

pub Selection-All : {f : JobFilter} {t u : Table} → Selection f t u → All (Meets f) u
Selection-All none_left = tt
Selection-All (takes j m s) = (m, Selection-All s)
Selection-All (skips j m s) = Selection-All s

-- A filter does not ask about the payload.
pub Meets-stored : (f : JobFilter) (r : Job) (p : Text) → Meets f r → Meets f (stored r p)
Meets-stored f r p m = record {
  user = m.user;
  job_type = m.job_type;
  status = m.status;
  statuses = m.statuses;
  next_run = m.next_run;
}
