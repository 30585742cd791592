-- ===== src/Cron/Calendar.antt =====
-- What cron.go takes from the package time, in UTC: an instant is the number of nanoseconds since
-- the zero time, 1 January of year 1, 00:00. The civil date counts days from 1 March of year 0, in
-- cycles of 400 years.
pub mod Bounds
use gmaildigest_go.Prelude.{ℕ, ◌+◌, ◌-◌, ◌*◌, ◌/◌, ◌%◌, ◌≡◌, refl, if◌then◌else◌, ltb}

abbrev pub Time : Type 0
Time = ℕ

-- `time.Second`, `time.Minute` and `time.Hour`.
abbrev pub second : ℕ
second = 1000000000

abbrev pub minute : ℕ
minute = 60000000000

abbrev pub hour : ℕ
hour = 3600000000000

-- `t.Truncate(d)`: down to a multiple of `d` since the zero time.
abbrev pub truncate : Time → ℕ → Time
truncate t d = t - t % d

abbrev pub minute_index : Time → ℕ
minute_index t = t / minute

unfoldable pub minute_of : Time → ℕ
minute_of t = minute_index t % 60

unfoldable pub hour_of : Time → ℕ
hour_of t = minute_index t / 60 % 24

abbrev pub day_index : Time → ℕ
day_index t = minute_index t / 1440

-- The zero time is a Monday; Sunday is 0.
unfoldable pub weekday_of : Time → ℕ
weekday_of t = (day_index t + 1) % 7

abbrev pub day_of_era : ℕ → ℕ
day_of_era d = (d + 306) % 146097

unfoldable pub year_of_era : ℕ → ℕ
year_of_era doe = (doe - doe / 1460 + doe / 36524 - doe / 146096) / 365

unfoldable pub day_of_year : ℕ → ℕ
day_of_year doe = let yoe = year_of_era doe in doe - (365 * yoe + yoe / 4 - yoe / 100)

-- The month counted from March.
unfoldable pub march_month : ℕ → ℕ
march_month doy = (5 * doy + 2) / 153

unfoldable pub day_of_month : ℕ → ℕ
day_of_month doy = doy - (153 * march_month doy + 2) / 5 + 1

unfoldable pub civil_month : ℕ → ℕ
civil_month mp = if ltb mp 10 then mp + 3 else mp - 9

unfoldable pub month_of : Time → ℕ
month_of t = civil_month (march_month (day_of_year (day_of_era (day_index t))))

unfoldable pub day_of : Time → ℕ
day_of t = day_of_month (day_of_year (day_of_era (day_index t)))
