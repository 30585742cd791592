-- ===== src/Cron/Search.antt =====
-- What `CronSchedule.Next` finds, and when it finds nothing.
use gmaildigest_go.Prelude.{
  ℕ, zero, suc, ◌+◌, ◌*◌, ◌-◌, ◌/◌, ◌%◌, ◌≤◌, ◌<◌, ◌≡◌, sym, true, false, some, arith, inl, inr,
  Bool-cases,
}
use gmaildigest_go.Cron.Calendar.{Time, minute_of, hour_of, day_of, month_of, weekday_of, truncate}
use gmaildigest_go.Cron.Calendar
use gmaildigest_go.Cron.Schedule.{CronSchedule, matches, next_loop, first_candidate, next}

-- The candidate of the k-th round.
later : Time → ℕ → Time
later t k = t + k * Calendar.minute

later_zero : (t : Time) → later t 0 ≡ t
unfolding later
later_zero t = omega arith

later-suc : (t : Time) (k : ℕ) → later t (suc k) ≡ later (t + Calendar.minute) k
unfolding later
later-suc t k = omega arith

later-le : (t : Time) (k : ℕ) → t ≤ later t k
unfolding later
later-le t k = omega arith

next_loop_sound :
    (fuel : ℕ) (c : CronSchedule) (t u : Time)
    → next_loop fuel c t ≡ some u
    → (k : ℕ) × (u ≡ later t k)
      × (matches c u ≡ true)
      × ((j : ℕ) → j < k → matches c (later t j) ≡ false)
unfolding next_loop
next_loop_sound zero c t u h = cc
next_loop_sound (suc fuel) c t u h = elim (Bool-cases (matches c t)) [
  | inl hit ↦
      let e : t ≡ u = ground arith in
      (0, rw (later_zero t) (sym e), rw (← e) hit, λ j lt. absurd (omega arith))
  | inr miss ↦
      let (k, e, m, before) = next_loop_sound fuel c (t + Calendar.minute) u (ground arith) in
      (suc k, rw (later-suc t k) e, m, passed miss k before)
]
  where
    passed :
        matches c t ≡ false
        → (k : ℕ) → ((j : ℕ) → j < k → matches c (later (t + Calendar.minute) j) ≡ false)
        → (j : ℕ) → j < suc k
        → matches c (later t j) ≡ false
    passed miss k before zero lt = rw (later_zero t) miss
    passed miss k before (suc j) lt = rw (later-suc t j) (before j (omega arith))

next_loop_complete :
    (fuel k : ℕ) (c : CronSchedule) (t : Time)
    → k < fuel
    → matches c (later t k) ≡ true
    → (u : Time) × (next_loop fuel c t ≡ some u) × (u ≤ later t k)
unfolding next_loop
next_loop_complete zero k c t lt h = absurd (omega arith)
next_loop_complete (suc fuel) zero c t lt h =
    let hit : matches c t ≡ true = rw (later_zero t) at h in (t, rw hit, later-le t 0)
next_loop_complete (suc fuel) (suc k) c t lt h = elim (Bool-cases (matches c t)) [
  | inl hit ↦ (t, rw hit, later-le t (suc k))
  | inr miss ↦
      let (u, e, le) =
        next_loop_complete fuel k c (t + Calendar.minute) (omega arith) (rw (later-suc t k) at h) in
      (u, rw miss e, rw (later-suc t k) le)
]

first_candidate_lem :
    (after : Time)
    → (after < first_candidate after)
      × (first_candidate after % Calendar.minute ≡ 0)
      × (first_candidate after ≤ after + Calendar.minute)
unfolding first_candidate
first_candidate_lem after = omega arith

-- A whole minute after `after` is a candidate.
round_of :
    (after v : Time)
    → v % Calendar.minute ≡ 0
    → after < v
    → (k : ℕ) × (v ≡ later (first_candidate after) k)
unfolding first_candidate later
round_of after v whole lt =
    ((v - truncate (after + Calendar.minute) Calendar.minute) / Calendar.minute, omega arith)

later-lt : (t : Time) (j k : ℕ) → later t j < later t k → j < k
unfolding later
later-lt t j k h = omega arith

later_whole : (t : Time) (k : ℕ) → t % Calendar.minute ≡ 0 → later t k % Calendar.minute ≡ 0
unfolding later
later_whole t k w = omega arith

-- A run time found by the search lies after the start, falls on a whole minute, matches the
-- schedule, and no earlier whole minute after the start does.
pub next_sound :
    (fuel : ℕ) (c : CronSchedule) (after u : Time)
    → next fuel c after ≡ some u
    → (after < u)
      × (u % Calendar.minute ≡ 0)
      × (matches c u ≡ true)
      × ((v : Time) → v % Calendar.minute ≡ 0 → after < v → v < u → matches c v ≡ false)
unfolding next
next_sound fuel c after u h =
    let (k, e, m, before) = next_loop_sound fuel c (first_candidate after) u h in
    let (lt, whole, le) = first_candidate_lem after in
    (
      omega (arith, e, later-le (first_candidate after) k),
      rw e (later_whole (first_candidate after) k whole),
      m,
      λ v whole_v lt_v lt_u.
          (let (j, ev) = round_of after v whole_v lt_v in
            rw ev (before j (later-lt (first_candidate after) j k (omega (arith, e, ev))))),
    )

round-lt :
    (fuel : ℕ) (after v : Time) (k : ℕ)
    → v ≤ after + fuel * Calendar.minute
    → v ≡ later (first_candidate after) k
    → k < fuel
unfolding first_candidate later
round-lt fuel after v k near e = omega arith

-- If some whole minute within the next `fuel` minutes matches the schedule, the search returns, at
-- that minute or before.
pub next-total :
    (fuel : ℕ) (c : CronSchedule) (after v : Time)
    → v % Calendar.minute ≡ 0
    → after < v
    → v ≤ after + fuel * Calendar.minute
    → matches c v ≡ true
    → (u : Time) × (next fuel c after ≡ some u) × (u ≤ v)
unfolding next
next-total fuel c after v whole lt near hit =
    let (k, e) = round_of after v whole lt in
    let (u, found, le) =
      next_loop_complete fuel k c (first_candidate after) (round-lt fuel after v k near e)
        (rw e at hit) in
    (u, found, rw e le)
