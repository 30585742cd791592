-- ===== src/Storage/Metrics.antt =====
-- Counting users, tokens and emails: internal/storage/metrics.go.
pub mod Counts
use gmaildigest_go.Prelude.{
  ℕ, ◌+◌, ◌≤◌, ◌≡◌, Bool, true, false, ◌&&◌, ◌||◌, List, [], ◌∷◌, Option, none, some, ltb, length,
  if◌then◌else◌,
}
use gmaildigest_go.Prelude.Int.{ℤ, pos, leb_ℤ}
use gmaildigest_go.Prelude.Text.{Text, eqt}
use gmaildigest_go.Prelude.Results.{Result, ok, err}
use gmaildigest_go.Prelude.Rows.{first, count_where}
use gmaildigest_go.Cron.Calendar.{Time}
use gmaildigest_go.Storage.Database.{
  Stamp, UserRow, TokenRow, EmailRow, Database, of_seconds, has_telegram_id, owns_token,
}
use gmaildigest_go.Storage.Sqlite.{
  StorageError, Call, bad_telegram_id, bad_range, no_rows, transaction_closed, query,
}
use gmaildigest_go.Storage.Transaction.{Transaction}

-- `Metrics`.
pub record Metrics : Type 0 where
  pub total_users : ℕ
  pub active_users : ℕ
  pub processed_emails : ℕ
  pub valid_tokens : ℕ
  pub collected_at : Time

-- `UserMetrics`.
pub record UserMetrics : Type 0 where
  pub telegram_id : ℤ
  pub gmail_user_id : Text
  pub processed_emails : ℕ
  pub has_valid_token : Bool
  pub last_active : Stamp
  pub digest_interval : ℤ

-- How the database compares a time that it stored with one that a query gives, which the driver
-- writes as text with a zone: `stored <= t` and `stored >= t`.
pub record TimeText : Type 0 where
  pub up_to : Stamp → Time → Bool
  pub since : Stamp → Time → Bool
  -- What is not before a time is not before an earlier one.
  pub since_earlier :
      (s : Stamp) (start end' : Time) → start ≤ end' → since s end' ≡ true → since s start ≡ true

-- The rows of `tokens t JOIN users u ON t.user_id = u.gmail_user_id` that satisfy the condition.
abbrev pub joined : (TokenRow → UserRow → Bool) → List TokenRow → List UserRow → ℕ
joined p [] us = 0
joined p (t ∷ ts) us = count_where (λ u. eqt t.user_id u.gmail_user_id && p t u) us + joined p ts us

abbrev pub is_valid_user : UserRow → Bool
is_valid_user u = u.google_token_valid

-- The three queries of `GetMetrics`.
unfoldable pub count_all : Time → Database → Metrics
count_all now db = record {
  total_users = length db.users;
  active_users = count_where is_valid_user db.users;
  processed_emails = length db.emails;
  valid_tokens = joined (λ t u. is_valid_user u) db.tokens db.users;
  collected_at = now;
}

-- `GetMetrics`.
unfoldable pub get_metrics : Call → Time → Database → Result StorageError Metrics
get_metrics c now db = query c (ok (count_all now db))

-- The condition on the times of a row: `created_at <= end AND (updated_at >= start OR updated_at >= end)`.
abbrev pub seen : TimeText → Time → Time → Stamp → Stamp → Bool
seen tt' start end' created updated =
    tt'.up_to created end' && (tt'.since updated start || tt'.since updated end')

-- The three queries of `GetMetricsWithinTimeRange`.
unfoldable pub count_within : TimeText → Time → Time → Time → Database → Metrics
count_within x now start end' db = record {
  total_users = count_where (λ u. seen x start end' u.created_at u.updated_at) db.users;
  active_users =
      count_where (λ u. seen x start end' u.created_at u.updated_at && is_valid_user u) db.users;
  processed_emails =
      count_where (λ e. x.since e.processed_at start && x.up_to e.processed_at end') db.emails;
  valid_tokens =
      joined (λ t u. is_valid_user u && seen x start end' t.created_at t.updated_at) db.tokens
        db.users;
  collected_at = now;
}

-- `GetMetricsWithinTimeRange`.
unfoldable pub get_metrics_within_time_range :
    TimeText → Call → Time → Database → Time → Time → Result StorageError Metrics
get_metrics_within_time_range x c now db start end' =
    if ltb end' start then err bad_range else query c (ok (count_within x now start end' db))

abbrev pub metrics_of : ℤ → Database → Option UserRow → Result StorageError UserMetrics
metrics_of i db none = err no_rows
metrics_of i db (some u) = ok (record {
  telegram_id = i;
  gmail_user_id = u.gmail_user_id;
  processed_emails = count_where (λ e. eqt e.user_id u.gmail_user_id) db.emails;
  has_valid_token = u.google_token_valid;
  last_active = u.updated_at;
  digest_interval = of_seconds u.digest_interval;
})

-- `GetUserMetrics`.
unfoldable pub get_user_metrics : Call → Database → ℤ → Result StorageError UserMetrics
get_user_metrics c db i =
    if leb_ℤ i (pos 0)
    then err bad_telegram_id
    else query c (metrics_of i db (first (has_telegram_id i) db.users))

-- The metrics of a transaction test `closed` first.
abbrev pub open_only {ℓ} :
    {A : Type ℓ} → Transaction → Result StorageError A → Result StorageError A
open_only t r = if t.closed then err transaction_closed else r

-- `GetMetrics` of a transaction.
unfoldable pub tx_get_metrics : Call → Time → Transaction → Result StorageError Metrics
tx_get_metrics c now t = open_only t (get_metrics c now t.work)

-- `GetUserMetrics` of a transaction.
unfoldable pub tx_get_user_metrics : Call → Transaction → ℤ → Result StorageError UserMetrics
tx_get_user_metrics c t i = open_only t (get_user_metrics c t.work i)
