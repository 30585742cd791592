-- ===== src/Cron/Calendar/Bounds.antt =====
-- The ranges of the calendar fields, and the months that are too short.
use gmaildigest_go.Prelude.{ℕ, ◌≤◌, ◌<◌, ◌≡◌, arith}
use gmaildigest_go.Cron.Calendar.{
  Time, day_of_era, year_of_era, day_of_year, march_month, day_of_month, civil_month, weekday_of,
  day_of, month_of, day_index,
}

-- A March year has at most 366 days.
pub day_of_year-le : (doe : ℕ) → doe < 146097 → day_of_year doe ≤ 365
unfolding day_of_year year_of_era
day_of_year-le doe h = omega arith

pub march_month-le : (doy : ℕ) → doy ≤ 365 → march_month doy ≤ 11
unfolding march_month
march_month-le doy h = omega arith

pub day_of_month_bounds : (doy : ℕ) → doy ≤ 365 → (1 ≤ day_of_month doy) × (day_of_month doy ≤ 31)
unfolding day_of_month march_month
day_of_month_bounds doy h = omega arith

pub civil_month_bounds : (mp : ℕ) → mp ≤ 11 → (1 ≤ civil_month mp) × (civil_month mp ≤ 12)
unfolding civil_month
civil_month_bounds mp h = ground arith

doy-le : (t : Time) → day_of_year (day_of_era (day_index t)) ≤ 365
doy-le t = day_of_year-le (day_of_era (day_index t)) (omega arith)

pub day_of_bounds : (t : Time) → (1 ≤ day_of t) × (day_of t ≤ 31)
unfolding day_of
day_of_bounds t = day_of_month_bounds (day_of_year (day_of_era (day_index t))) (doy-le t)

pub month_of_bounds : (t : Time) → (1 ≤ month_of t) × (month_of t ≤ 12)
unfolding month_of
month_of_bounds t =
    civil_month_bounds _ (march_month-le (day_of_year (day_of_era (day_index t))) (doy-le t))

pub weekday_of-le : (t : Time) → weekday_of t ≤ 6
unfolding weekday_of
weekday_of-le t = omega arith

february : (doy : ℕ) → doy ≤ 365 → civil_month (march_month doy) ≡ 2 → day_of_month doy ≤ 29
unfolding day_of_month march_month civil_month
february doy h e = ground arith

-- February never has a 30th.
pub february_short : (t : Time) → month_of t ≡ 2 → day_of t ≤ 29
unfolding month_of day_of
february_short t e = february (day_of_year (day_of_era (day_index t))) (doy-le t) e
