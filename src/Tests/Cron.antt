-- ===== src/Tests/Cron.antt =====
-- Cron expressions and run times.
use gmaildigest_go.Prelude.{
  ℕ, ◌+◌, ◌*◌, ◌%◌, ◌≡◌, ◌≤◌, ◌<◌, refl, true, false, List, [], ◌∷◌, some, none, arith, any,
}
use gmaildigest_go.Prelude.Text.{codes, text_dec}
use gmaildigest_go.Prelude.Results.{ok, err}
use gmaildigest_go.Cron.Words.{fields, split, atoi, contains}
use gmaildigest_go.Cron.Field.{IntSet, has, parse_field, parse_part, fill, invalid_value}
use gmaildigest_go.Cron.Field.Printing.{value, range, covers, print_field}
use gmaildigest_go.Cron.Field.RoundTrip.{parse_field-print_field}
use gmaildigest_go.Cron.Calendar.{
  Time, second, minute_of, hour_of, day_of, month_of, weekday_of, civil_month, march_month,
  day_of_month, day_of_year, year_of_era,
}
use gmaildigest_go.Cron.Calendar
use gmaildigest_go.Cron.Schedule.{CronSchedule, parse_cron, matches, next, first_candidate}
use gmaildigest_go.Cron.Search.{next_sound, next-total}
use gmaildigest_go.Cron.Horizon.{IsNever, next_diverges}
use gmaildigest_go.Cron.Recurring.{InRange, parse_cron-InRange, next-parse_cron}

three_words : fields (codes " 0  9 *") ≡ codes "0" ∷ codes "9" ∷ codes "*" ∷ []
unfolding fields
three_words = refl

two_parts : split (codes "1,") b',' ≡ codes "1" ∷ [] ∷ []
unfolding split
two_parts = refl

forty_two : atoi (codes "+042") ≡ some 42
unfolding atoi
forty_two = refl

list_and_range : parse_field (codes "7,1-3") 0 59 ≡ ok (3 ∷ 2 ∷ 1 ∷ 7 ∷ [])
unfolding parse_field parse_part text_dec split contains atoi fill
list_and_range = refl

step_value : parse_field (codes "*/5") 0 59 ≡ err (invalid_value (codes "*/5"))
unfolding parse_field parse_part text_dec split contains atoi
step_value = refl

-- 29 February 2024 was a Thursday; 1709217000 s after the epoch is 14:30 on that day.
abbrev leap_day : Time
leap_day = (62135596800 + 1709217000) * second

leap_day_month : month_of leap_day ≡ 2
unfolding month_of civil_month march_month day_of_year year_of_era
leap_day_month = refl

leap_day_day : day_of leap_day ≡ 29
unfolding day_of day_of_month march_month day_of_year year_of_era
leap_day_day = refl

leap_day_weekday : weekday_of leap_day ≡ 4
unfolding weekday_of
leap_day_weekday = refl

leap_day_hour : hour_of leap_day ≡ 14
unfolding hour_of
leap_day_hour = refl

-- 14:32 on Thursday, 29 February.
abbrev once : CronSchedule
once = record { minute = 32 ∷ []; hour = 14 ∷ []; day = 29 ∷ []; month = 2 ∷ []; weekday = 4 ∷ [] }

once-next : next 2 once leap_day ≡ some (leap_day + 2 * Calendar.minute)
unfolding next first_candidate matches has minute_of hour_of day_of month_of weekday_of civil_month
    march_month day_of_month day_of_year year_of_era
once-next = refl

next_sound_example :
    (leap_day < leap_day + 2 * Calendar.minute)
    × ((leap_day + 2 * Calendar.minute) % Calendar.minute ≡ 0)
    × (matches once (leap_day + 2 * Calendar.minute) ≡ true)
    × ((v : Time)
        → v % Calendar.minute ≡ 0
        → leap_day < v
        → v < leap_day + 2 * Calendar.minute
        → matches once v ≡ false)
next_sound_example = next_sound 2 once leap_day (leap_day + 2 * Calendar.minute) once-next

once-matches : matches once (leap_day + 2 * Calendar.minute) ≡ true
unfolding matches has minute_of hour_of day_of month_of weekday_of civil_month march_month
    day_of_month day_of_year year_of_era
once-matches = refl

next-total_example :
    (u : Time) × (next 9 once leap_day ≡ some u) × (u ≤ leap_day + 2 * Calendar.minute)
next-total_example =
    next-total 9 once leap_day (leap_day + 2 * Calendar.minute) refl (omega arith) (omega arith)
      once-matches

-- `0 0 30 2 *`, as the parser returns it.
abbrev february_30 : CronSchedule
february_30 = record {
  minute = 0 ∷ [];
  hour = 0 ∷ [];
  day = 30 ∷ [];
  month = 2 ∷ [];
  weekday = 6 ∷ 5 ∷ 4 ∷ 3 ∷ 2 ∷ 1 ∷ 0 ∷ [];
}

february_30_parsed : parse_cron (codes "0 0 30 2 *") ≡ ok february_30
unfolding parse_cron fields parse_field parse_part text_dec split contains atoi fill
february_30_parsed = refl

february_30-IsNever : IsNever february_30
unfolding has
february_30-IsNever = record {
  late_days = λ d h. ground arith;
  february_only = λ m h. ground arith;
}

next_diverges_example : next 100000 february_30 leap_day ≡ none
next_diverges_example = next_diverges 100000 february_30 leap_day february_30-IsNever

-- Every hour at minute 0.
abbrev hourly : List ℕ
hourly = codes "0 * * * *"

parse_cron-InRange_example : InRange february_30
parse_cron-InRange_example = parse_cron-InRange (codes "0 0 30 2 *") february_30_parsed

hourly-fields : fields hourly ≡ codes "0" ∷ codes "*" ∷ codes "*" ∷ codes "*" ∷ codes "*" ∷ []
unfolding fields
hourly-fields = refl

abbrev all_from : ℕ → ℕ → List ℕ
all_from i k = unfold fill in fill k i []

abbrev hourly_schedule : CronSchedule
hourly_schedule = record {
  minute = 0 ∷ [];
  hour = all_from 0 24;
  day = all_from 1 31;
  month = all_from 1 12;
  weekday = all_from 0 7;
}

hourly_parsed : parse_cron hourly ≡ ok hourly_schedule
unfolding parse_cron fields parse_field parse_part text_dec split contains atoi fill
hourly_parsed = refl

next-parse_cron_example :
    (u : Time) × (next 1440 hourly_schedule leap_day ≡ some u)
    × (leap_day < u)
    × (u ≤ leap_day + 1440 * Calendar.minute)
next-parse_cron_example =
    next-parse_cron hourly (codes "0") (codes "*") leap_day hourly-fields hourly_parsed

parse_field-print_field_example :
    (s : IntSet) × (parse_field (print_field (value 7 ∷ range 1 30 ∷ [])) 0 59 ≡ ok s)
    × ((x : ℕ) → has s x ≡ any (covers x) (value 7 ∷ range 1 30 ∷ []))
parse_field-print_field_example =
    parse_field-print_field 0 59 (value 7 ∷ range 1 30 ∷ []) (omega arith) (cc) (omega arith)
