-- ===== src/Auth/Refresh/Hourly.antt =====
-- When the schedule of the token refresh runs.
use gmaildigest_go.Prelude.{
  ℕ, ◌+◌, ◌*◌, ◌/◌, ◌%◌, ◌≤◌, ◌<◌, ◌≡◌, refl, Bool, true, false, [], ◌∷◌, some, arith, ◌&&◌,
}
use gmaildigest_go.Prelude.Text.{codes, text_dec}
use gmaildigest_go.Prelude.Results.{ok}
use gmaildigest_go.Cron.Words.{fields, split, contains, atoi}
use gmaildigest_go.Cron.Field.{has, fill, parse_field, parse_part}
use gmaildigest_go.Cron.Calendar.{Time, minute_of, hour_of}
use gmaildigest_go.Cron.Calendar
use gmaildigest_go.Cron.Schedule.{CronSchedule, parse_cron, parse_words, matches, next}
use gmaildigest_go.Cron.Horizon.{IsDaily-matches}
use gmaildigest_go.Cron.Recurring.{star, star_full, Parsed, Parsed-IsDaily, parse_words-Parsed}
use gmaildigest_go.Cron.Search.{next_sound, next-total}
use gmaildigest_go.Auth.Refresh.{get_refresh_schedule}

abbrev on_the_hour : CronSchedule
on_the_hour = record {
  minute = 0 ∷ [];
  hour = fill 24 0 [];
  day = fill 31 1 [];
  month = fill 12 1 [];
  weekday = fill 7 0 [];
}

words : fields get_refresh_schedule ≡ codes "0" ∷ star ∷ star ∷ star ∷ star ∷ []
unfolding fields
words = refl

accepted : parse_words (codes "0" ∷ star ∷ star ∷ star ∷ star ∷ []) ≡ ok on_the_hour
unfolding parse_field parse_part text_dec split contains atoi
accepted = refl

parsed : Parsed (codes "0") star star star star on_the_hour
parsed = parse_words-Parsed (codes "0") star star star star accepted

-- The whole hour after `after`.
next_hour :
    (after : Time)
    → (v : Time) × (v % Calendar.minute ≡ 0)
      × (after < v)
      × (v ≤ after + 60 * Calendar.minute)
      × (minute_of v ≡ 0)
      × (hour_of v ≤ 23)
unfolding minute_of hour_of
next_hour after = (
  (after / Calendar.hour + 1) * Calendar.hour,
  omega arith,
  omega arith,
  omega arith,
  omega arith,
  omega arith,
)

has-zero : (x : ℕ) → has (0 ∷ []) x ≡ true → x ≡ 0
unfolding has
has-zero x h = ground arith

and_left : (a b : Bool) → (a && b) ≡ true → a ≡ true
and_left true b h = refl
and_left false b h = h

matches-minute : (u : Time) → matches on_the_hour u ≡ true → minute_of u ≡ 0
unfolding matches
matches-minute u h =
    has-zero (minute_of u) (and_left _ _ (and_left _ _ (and_left _ _ (and_left _ _ h))))

whole_hour : (u : Time) → u % Calendar.minute ≡ 0 → minute_of u ≡ 0 → u % Calendar.hour ≡ 0
unfolding minute_of
whole_hour u h k = omega arith

-- The schedule of the token refresh is accepted, and its next run after every instant is the next
-- whole hour, which the search finds within 60 rounds.
pub refresh_schedule-next :
    (after : Time)
    → (c : CronSchedule) × (parse_cron get_refresh_schedule ≡ ok c)
      × (u : Time) × (next 60 c after ≡ some u)
      × (u % Calendar.hour ≡ 0)
      × (after < u)
      × (u ≤ after + Calendar.hour)
unfolding parse_cron
refresh_schedule-next after =
    let (v, whole, lt, near, zero_min, hour_le) = next_hour after in
    let hit =
      IsDaily-matches on_the_hour v (Parsed-IsDaily (codes "0") star parsed)
        (rw zero_min (unfold has in refl))
        (star_full 0 23 (omega arith) parsed.hours (hour_of v) (omega arith) hour_le) in
    let (u, found, le) = next-total 60 on_the_hour after v whole lt near hit in
    let (later, u_whole, u_hit, first) = next_sound 60 on_the_hour after u found in
    (
      on_the_hour,
      rw words accepted,
      u,
      found,
      whole_hour u u_whole (matches-minute u u_hit),
      later,
      omega (arith, le, near),
    )
