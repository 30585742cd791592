-- ===== src/Cron/Schedule.antt =====
-- `CronSchedule`, `ParseCron` and `CronSchedule.Next`.
use gmaildigest_go.Prelude.{
  ℕ, zero, suc, ◌+◌, Bool, ◌&&◌, List, [], ◌∷◌, Option, none, some, if◌then◌else◌, length,
}
use gmaildigest_go.Prelude.Text.{Text}
use gmaildigest_go.Prelude.Results.{Result, ok, err, ◌>>=◌, map_err}
use gmaildigest_go.Cron.Words.{fields}
use gmaildigest_go.Cron.Field.{IntSet, has, FieldError, parse_field}
use gmaildigest_go.Cron.Calendar.{Time, truncate, minute_of, hour_of, day_of, month_of, weekday_of}
use gmaildigest_go.Cron.Calendar

pub record CronSchedule : Type 0 where
  pub minute : IntSet
  pub hour : IntSet
  pub day : IntSet
  pub month : IntSet
  pub weekday : IntSet

pub data CronError : Type 0 where
  field_count : ℕ → CronError
  in_minute in_hour in_day in_month in_weekday : FieldError → CronError

abbrev pub parse_words : List Text → Result CronError CronSchedule
parse_words (f0 ∷ f1 ∷ f2 ∷ f3 ∷ f4 ∷ []) = do
  m ← map_err in_minute (parse_field f0 0 59)
  h ← map_err in_hour (parse_field f1 0 23)
  d ← map_err in_day (parse_field f2 1 31)
  mo ← map_err in_month (parse_field f3 1 12)
  w ← map_err in_weekday (parse_field f4 0 6)
  ok (record { minute = m; hour = h; day = d; month = mo; weekday = w })
parse_words words = err (field_count (length words))

unfoldable pub parse_cron : Text → Result CronError CronSchedule
parse_cron expr = parse_words (fields expr)

-- The test of the loop of `Next`.
unfoldable pub matches : CronSchedule → Time → Bool
matches c t =
    has c.minute (minute_of t)
    && has c.hour (hour_of t)
    && has c.day (day_of t)
    && has c.month (month_of t)
    && has c.weekday (weekday_of t)

-- The loop of `Next`, which has no bound of its own; `none` means that the fuel ran out.
unfoldable pub next_loop : ℕ → CronSchedule → Time → Option Time
next_loop zero c t = none
next_loop (suc fuel) c t =
    let rest = next_loop fuel c (t + Calendar.minute) in if matches c t then some t else rest

-- `t := after.Add(time.Minute).Truncate(time.Minute)`.
unfoldable pub first_candidate : Time → Time
first_candidate after = truncate (after + Calendar.minute) Calendar.minute

unfoldable pub next : ℕ → CronSchedule → Time → Option Time
unfolding next_loop
next fuel c after = next_loop fuel c (first_candidate after)
