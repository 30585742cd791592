-- ===== src/Cron/Horizon.antt =====
-- Schedules for which `CronSchedule.Next` always returns, and those for which it never does.
use gmaildigest_go.Prelude.{
  ℕ, zero, suc, ◌+◌, ◌*◌, ◌-◌, ◌/◌, ◌%◌, ◌≤◌, ◌<◌, ◌≡◌, refl, true, false, none, some, arith, ◌≢◌,
  ℕ_discrete,
}
use gmaildigest_go.Cron.Field.{has}
use gmaildigest_go.Cron.Calendar.{Time, minute_of, hour_of, day_of, month_of, weekday_of, truncate}
use gmaildigest_go.Cron.Calendar
use gmaildigest_go.Cron.Calendar.Bounds.{
  day_of_bounds, month_of_bounds, weekday_of-le, february_short,
}
use gmaildigest_go.Cron.Schedule.{CronSchedule, matches, next_loop, first_candidate, next}
use gmaildigest_go.Cron.Search.{next-total}

-- The schedule leaves the day, the month and the weekday open.
pub record IsDaily (c : CronSchedule) : Type 0 where
  pub every_day : (d : ℕ) → 1 ≤ d → d ≤ 31 → has c.day d ≡ true
  pub every_month : (m : ℕ) → 1 ≤ m → m ≤ 12 → has c.month m ≡ true
  pub every_weekday : (w : ℕ) → w ≤ 6 → has c.weekday w ≡ true

pub IsDaily-matches :
    (c : CronSchedule) (t : Time)
    → IsDaily c
    → has c.minute (minute_of t) ≡ true
    → has c.hour (hour_of t) ≡ true
    → matches c t ≡ true
unfolding matches
IsDaily-matches c t d m h = rw (
  m,
  h,
  d.every_day (day_of t) (day_of_bounds t).0 (day_of_bounds t).1,
  d.every_month (month_of t) (month_of_bounds t).0 (month_of_bounds t).1,
  d.every_weekday (weekday_of t) (weekday_of-le t),
)

-- The next time of day h:m after `after`.
time_of_day :
    (after : Time) (m h : ℕ)
    → m ≤ 59
    → h ≤ 23
    → (v : Time) × (v % Calendar.minute ≡ 0)
      × (after < v)
      × (v ≤ after + 1440 * Calendar.minute)
      × (minute_of v ≡ m)
      × (hour_of v ≡ h)
unfolding minute_of hour_of
time_of_day after m h hm hh = (
  (after / Calendar.minute + 1 + (h * 60 + m + 1440 - (after / Calendar.minute + 1) % 1440) % 1440)
      * Calendar.minute,
  omega arith,
  omega arith,
  omega arith,
  omega arith,
  omega arith,
)

-- A schedule open in day, month and weekday, with some minute and some hour, always has a next
-- run, within 24 hours: 1440 rounds of the loop are enough.
pub next-daily :
    (c : CronSchedule) (after : Time) (m h : ℕ)
    → IsDaily c
    → m ≤ 59
    → h ≤ 23
    → has c.minute m ≡ true
    → has c.hour h ≡ true
    → (u : Time) × (next 1440 c after ≡ some u) × (u ≤ after + 1440 * Calendar.minute)
next-daily c after m h d hm hh in_minute in_hour =
    let (v, whole, lt, near, em, eh) = time_of_day after m h hm hh in
    let (u, found, le) =
      next-total 1440 c after v whole lt near
        (IsDaily-matches c v d (rw em in_minute) (rw eh in_hour)) in
    (u, found, omega (arith, le, near))

-- A schedule for days after the 29th that runs in February only.
pub record IsNever (c : CronSchedule) : Type 0 where
  pub late_days : (d : ℕ) → d ≤ 29 → has c.day d ≡ false
  pub february_only : (m : ℕ) → m ≢ 2 → has c.month m ≡ false

IsNever-matches : (c : CronSchedule) (t : Time) → IsNever c → matches c t ≡ false
unfolding matches
IsNever-matches c t n = elim (ℕ_discrete (month_of t) 2) [
  | yes feb ↦ ground (arith, n.late_days (day_of t) (february_short t feb))
  | no other ↦ ground (arith, n.february_only (month_of t) other)
]

-- The bug: for a schedule such as `0 0 30 2 *` the search never returns, whatever the fuel.
pub next_diverges :
    (fuel : ℕ) (c : CronSchedule) (after : Time) → IsNever c → next fuel c after ≡ none
unfolding next
next_diverges fuel c after n = go fuel (first_candidate after)
  where
    go : (f : ℕ) (t : Time) → next_loop f c t ≡ none
    go zero t = unfold next_loop in refl
    go (suc f) t = unfold next_loop in rw (IsNever-matches c t n) (go f (t + Calendar.minute))
