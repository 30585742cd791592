-- ===== src/Cron/Recurring.antt =====
-- From the text of a cron expression to its next run.
use gmaildigest_go.Prelude.{ℕ, ◌+◌, ◌*◌, ◌≤◌, ◌<◌, ◌≡◌, true, List, [], ◌∷◌, some, arith}
use gmaildigest_go.Prelude.Text.{Text, codes}
use gmaildigest_go.Prelude.Results.{Result, ok, ◌>>=◌, >>=-eq-ok, map_err, map_err-eq-ok}
use gmaildigest_go.Cron.Words.{fields}
use gmaildigest_go.Cron.Field.{IntSet, has, FieldError, parse_field}
use gmaildigest_go.Cron.Field.Bounds.{Within, parse_field-Within, parse_field-star}
use gmaildigest_go.Cron.Field.Members.{Inhabited, parse_field-Inhabited}
use gmaildigest_go.Cron.Calendar.{Time}
use gmaildigest_go.Cron.Calendar
use gmaildigest_go.Cron.Schedule.{
  CronSchedule, CronError, in_minute, in_hour, in_day, in_month, in_weekday, parse_words,
  parse_cron, next,
}
use gmaildigest_go.Cron.Search.{next_sound}
use gmaildigest_go.Cron.Horizon.{IsDaily, next-daily}

-- The five fields of an accepted expression, each parsed between its own bounds.
pub record Parsed (f0 f1 f2 f3 f4 : Text) (c : CronSchedule) : Type 0 where
  pub minutes : parse_field f0 0 59 ≡ ok c.minute
  pub hours : parse_field f1 0 23 ≡ ok c.hour
  pub days : parse_field f2 1 31 ≡ ok c.day
  pub months : parse_field f3 1 12 ≡ ok c.month
  pub weekdays : parse_field f4 0 6 ≡ ok c.weekday

field_of {ℓ} :
    {A : Type ℓ} (m : Result FieldError IntSet) (w : FieldError → CronError)
    (k : IntSet → Result CronError A) {a : A}
    → (map_err w m >>= k) ≡ ok a
    → (s : IntSet) × (m ≡ ok s) × (k s ≡ ok a)
field_of m w k h =
    let (s, parsed, rest) = >>=-eq-ok (map_err w m) k h in (s, map_err-eq-ok w m parsed, rest)

-- An expression is accepted only if it has five fields that are accepted one by one.
pub parse_words-Parsed :
    (f0 f1 f2 f3 f4 : Text) {c : CronSchedule}
    → parse_words (f0 ∷ f1 ∷ f2 ∷ f3 ∷ f4 ∷ []) ≡ ok c
    → Parsed f0 f1 f2 f3 f4 c
parse_words-Parsed f0 f1 f2 f3 f4 h =
    let (m, em, h1) = field_of (parse_field f0 0 59) in_minute _ h in
    let (o, eo, h2) = field_of (parse_field f1 0 23) in_hour _ h1 in
    let (d, ed, h3) = field_of (parse_field f2 1 31) in_day _ h2 in
    let (n, en, h4) = field_of (parse_field f3 1 12) in_month _ h3 in
    let (w, ew, h5) = field_of (parse_field f4 0 6) in_weekday _ h4 in
    record {
      minutes = ground arith;
      hours = ground arith;
      days = ground arith;
      months = ground arith;
      weekdays = ground arith;
    }

-- The schedule of an accepted expression holds a minute from 0 to 59, an hour from 0 to 23, a day
-- from 1 to 31, a month from 1 to 12 and a weekday from 0 to 6, and nothing else; none is empty.
pub record InRange (c : CronSchedule) : Type 0 where
  pub minutes : Within 0 59 c.minute × Inhabited c.minute
  pub hours : Within 0 23 c.hour × Inhabited c.hour
  pub days : Within 1 31 c.day × Inhabited c.day
  pub months : Within 1 12 c.month × Inhabited c.month
  pub weekdays : Within 0 6 c.weekday × Inhabited c.weekday

good_field :
    (f : Text) (min max : ℕ) {s : IntSet}
    → min ≤ max
    → parse_field f min max ≡ ok s
    → Within min max s × Inhabited s
good_field f min max le h = (parse_field-Within f min max h, parse_field-Inhabited f min max le h)

Parsed-InRange : (f0 f1 f2 f3 f4 : Text) {c : CronSchedule} → Parsed f0 f1 f2 f3 f4 c → InRange c
Parsed-InRange f0 f1 f2 f3 f4 p = record {
  minutes = good_field f0 0 59 (omega arith) p.minutes;
  hours = good_field f1 0 23 (omega arith) p.hours;
  days = good_field f2 1 31 (omega arith) p.days;
  months = good_field f3 1 12 (omega arith) p.months;
  weekdays = good_field f4 0 6 (omega arith) p.weekdays;
}

words-InRange : (ws : List Text) {c : CronSchedule} → parse_words ws ≡ ok c → InRange c
words-InRange [] h = absurd (cc)
words-InRange (f0 ∷ []) h = absurd (cc)
words-InRange (f0 ∷ f1 ∷ []) h = absurd (cc)
words-InRange (f0 ∷ f1 ∷ f2 ∷ []) h = absurd (cc)
words-InRange (f0 ∷ f1 ∷ f2 ∷ f3 ∷ []) h = absurd (cc)
words-InRange (f0 ∷ f1 ∷ f2 ∷ f3 ∷ f4 ∷ []) h =
    Parsed-InRange f0 f1 f2 f3 f4 (parse_words-Parsed f0 f1 f2 f3 f4 h)
words-InRange (f0 ∷ f1 ∷ f2 ∷ f3 ∷ f4 ∷ f5 ∷ ws) h = absurd (cc)

-- Every schedule that the parser returns is in range in all five fields, and no field is empty.
pub parse_cron-InRange : (expr : Text) {c : CronSchedule} → parse_cron expr ≡ ok c → InRange c
unfolding parse_cron
parse_cron-InRange expr h = words-InRange (fields expr) h

abbrev pub star : Text
star = codes "*"

pub star_full :
    (min max : ℕ) {s : IntSet}
    → min ≤ max
    → parse_field star min max ≡ ok s
    → (x : ℕ) → min ≤ x
    → x ≤ max
    → has s x ≡ true
star_full min max le h x lo hi =
    let (t, parsed, members) = parse_field-star min max le in ground (arith, members x)

pub Parsed-IsDaily : (f0 f1 : Text) {c : CronSchedule} → Parsed f0 f1 star star star c → IsDaily c
Parsed-IsDaily f0 f1 p = record {
  every_day = star_full 1 31 (omega arith) p.days;
  every_month = star_full 1 12 (omega arith) p.months;
  every_weekday = λ w. star_full 0 6 (omega arith) p.weekdays w (omega arith);
}

-- An accepted expression whose last three fields are stars has a next run after every instant,
-- strictly later and within 24 hours, and 1440 rounds of the search find it.
pub next-parse_cron :
    (expr f0 f1 : Text) (after : Time) {c : CronSchedule}
    → fields expr ≡ f0 ∷ f1 ∷ star ∷ star ∷ star ∷ []
    → parse_cron expr ≡ ok c
    → (u : Time) × (next 1440 c after ≡ some u) × (after < u) × (u ≤ after + 1440 * Calendar.minute)
unfolding parse_cron
next-parse_cron expr f0 f1 after {c} shape h =
    let p = parse_words-Parsed f0 f1 star star star (rw shape at h) in
    let r = Parsed-InRange f0 f1 star star star p in
    let (m, in_m) = r.minutes.1 in
    let (o, in_o) = r.hours.1 in
    let (u, found, near) =
      next-daily c after m o (Parsed-IsDaily f0 f1 p) (r.minutes.0 m in_m).1 (r.hours.0 o in_o).1
        in_m in_o in
    (u, found, (next_sound 1440 c after u found).0, near)
