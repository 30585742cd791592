-- ===== src/Storage/Database.antt =====
-- The tables that `migrations` in internal/storage/migration.go creates, and the statements on them.
-- The foreign keys are not enforced: no connection turns them on, as SQLite wants.
use gmaildigest_go.Prelude.{
  ℕ, zero, suc, ◌+◌, ◌*◌, ◌/◌, ◌==◌, Bool, false, not, ◌&&◌, ◌||◌, List, [], ◌∷◌, ◌++◌, Option,
  none, some, any, if◌then◌else◌,
}
use gmaildigest_go.Prelude.Int.{ℤ, pos, negsuc, pos_part, neg_part}
use gmaildigest_go.Prelude.Text.{Text, eqt}
use gmaildigest_go.Prelude.Rows.{keep, change, count_where}
use gmaildigest_go.Cron.Calendar.{second}

-- `CURRENT_TIMESTAMP`, in seconds since the year 1.
abbrev pub Stamp : Type 0
Stamp = ℕ

-- A row of `users`; the interval is in seconds.
pub record UserRow : Type 0 where
  pub telegram_id : ℤ
  pub gmail_user_id : Text
  pub google_token_valid : Bool
  pub digest_interval : ℤ
  pub last_digest_sent : Option Stamp
  pub created_at : Stamp
  pub updated_at : Stamp

-- A row of `tokens`.
pub record TokenRow : Type 0 where
  pub user_id : Text
  pub encrypted_token : Text
  pub nonce : Text
  pub created_at : Stamp
  pub updated_at : Stamp

-- A row of `processed_emails`.
pub record EmailRow : Type 0 where
  pub message_id : Text
  pub user_id : Text
  pub processed_at : Stamp

-- A row of `schema_migrations`.
pub record VersionRow : Type 0 where
  pub version : ℕ
  pub applied_at : Stamp

pub record Database : Type 0 where
  pub users : List UserRow
  pub tokens : List TokenRow
  pub emails : List EmailRow
  pub versions : List VersionRow

abbrev pub eqz : ℤ → ℤ → Bool
eqz a b = pos_part a + neg_part b == pos_part b + neg_part a

-- `int64(d.Seconds())`: towards zero. The detour by `float64` is exact for all but the last
-- nanoseconds of intervals of months.
abbrev pub negative : ℕ → ℤ
negative zero = pos 0
negative (suc n) = negsuc n

abbrev pub in_seconds : ℤ → ℤ
in_seconds (pos n) = pos (n / second)
in_seconds (negsuc n) = negative (suc n / second)

-- `time.Duration(secs) * time.Second`.
abbrev pub of_seconds : ℤ → ℤ
of_seconds (pos n) = pos (n * second)
of_seconds (negsuc n) = negative (suc n * second)

abbrev pub has_telegram_id : ℤ → UserRow → Bool
has_telegram_id i u = eqz u.telegram_id i

-- Two rows of `users` that the keys do not allow together.
abbrev pub user_clash : UserRow → UserRow → Bool
user_clash u v = eqz u.telegram_id v.telegram_id || eqt u.gmail_user_id v.gmail_user_id

abbrev pub token_clash : TokenRow → TokenRow → Bool
token_clash s t = eqt s.user_id t.user_id

abbrev pub email_clash : EmailRow → EmailRow → Bool
email_clash e f = eqt e.message_id f.message_id && eqt e.user_id f.user_id

abbrev pub new_user : Stamp → ℤ → Text → ℤ → UserRow
new_user now i g secs = record {
  telegram_id = i;
  gmail_user_id = g;
  google_token_valid = false;
  digest_interval = secs;
  last_digest_sent = none;
  created_at = now;
  updated_at = now;
}

-- `INSERT INTO users`; nothing where a key is taken.
unfoldable pub insert_user : UserRow → Database → Option Database
insert_user u db =
    if any (user_clash u) db.users then none else some (record db { users = db.users ++ u ∷ [] })

-- `UPDATE users SET digest_interval = ?`, with the number of rows. The trigger sets `updated_at` too.
abbrev pub set_interval : Stamp → ℤ → UserRow → UserRow
set_interval now secs u = record u { digest_interval = secs; updated_at = now }

unfoldable pub update_interval : Stamp → ℤ → ℤ → Database → Database × ℕ
update_interval now i secs db = (
  record db { users = change (has_telegram_id i) (set_interval now secs) db.users },
  count_where (has_telegram_id i) db.users,
)

abbrev pub owns_token : Text → TokenRow → Bool
owns_token user t = eqt t.user_id user

abbrev pub token_row : Stamp → Text → Text → Text → TokenRow
token_row now user token nonce = record {
  user_id = user;
  encrypted_token = token;
  nonce = nonce;
  created_at = now;
  updated_at = now;
}

-- `INSERT OR REPLACE INTO tokens`: a row of the user goes, and a new one comes.
unfoldable pub replace_token : Stamp → Text → Text → Text → Database → Database
replace_token now user token nonce db = record db {
  tokens = keep (λ t. not (owns_token user t)) db.tokens ++ token_row now user token nonce ∷ [];
}

abbrev pub set_token : Stamp → Text → Text → TokenRow → TokenRow
set_token now token nonce t = record t { encrypted_token = token; nonce = nonce; updated_at = now }

-- `INSERT INTO tokens ... ON CONFLICT(user_id) DO UPDATE`.
unfoldable pub upsert_token : Stamp → Text → Text → Text → Database → Database
upsert_token now user token nonce db = record db {
  tokens =
      if any (owns_token user) db.tokens
      then change (owns_token user) (set_token now token nonce) db.tokens
      else db.tokens ++ token_row now user token nonce ∷ [];
}

unfoldable pub delete_token_rows : Text → Database → Database
delete_token_rows user db = record db { tokens = keep (λ t. not (owns_token user t)) db.tokens }

abbrev pub is_email : Text → Text → EmailRow → Bool
is_email message user e = eqt e.message_id message && eqt e.user_id user

-- `INSERT OR REPLACE INTO processed_emails`.
unfoldable pub replace_email : Stamp → Text → Text → Database → Database
replace_email now message user db = record db {
  emails =
      keep (λ e. not (is_email message user e)) db.emails
      ++ record { message_id = message; user_id = user; processed_at = now } ∷ [];
}
