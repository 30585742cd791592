-- ===== src/Storage/Cleanup.antt =====
-- Removing old rows: internal/storage/cleanup.go, outside of transactions.
pub mod Retention
use gmaildigest_go.Prelude.{ℕ, ◌-◌, Bool, true, false, not, List, ltb, any, if◌then◌else◌}
use gmaildigest_go.Prelude.Int.{ℤ, pos, pos_part, leb_ℤ}
use gmaildigest_go.Prelude.Text.{Text, eqt}
use gmaildigest_go.Prelude.Results.{Result, ok, err}
use gmaildigest_go.Prelude.Rows.{keep, count_where}
use gmaildigest_go.Storage.Database.{Stamp, UserRow, TokenRow, EmailRow, Database, in_seconds}
use gmaildigest_go.Storage.Sqlite.{StorageError, Call, bad_retention, database_failed}

-- `datetime('now', '-N seconds')` for a duration.
abbrev pub cutoff : Stamp → ℤ → Stamp
cutoff now period = now - pos_part (in_seconds period)

abbrev pub is_old : Stamp → EmailRow → Bool
is_old limit e = ltb e.processed_at limit

abbrev pub is_inactive : Stamp → UserRow → Bool
is_inactive limit u = ltb u.updated_at limit

-- The token belongs to a user row that satisfies the condition.
abbrev pub owner_is : (UserRow → Bool) → List UserRow → TokenRow → Bool
owner_is p us t = any (λ u. if p u then eqt t.user_id u.gmail_user_id else false) us

-- `DELETE FROM processed_emails WHERE processed_at < ...`, with the rows affected.
unfoldable pub delete_old_emails : Stamp → Database → Database × ℕ
delete_old_emails limit db = (
  record db { emails = keep (λ e. not (is_old limit e)) db.emails },
  count_where (is_old limit) db.emails,
)

-- `DELETE FROM tokens WHERE user_id IN (SELECT gmail_user_id FROM users WHERE ...)`.
unfoldable pub delete_tokens_of : (UserRow → Bool) → Database → Database × ℕ
delete_tokens_of p db = (
  record db { tokens = keep (λ t. not (owner_is p db.users t)) db.tokens },
  count_where (owner_is p db.users) db.tokens,
)

unfoldable pub delete_users : (UserRow → Bool) → Database → Database × ℕ
delete_users p db = (record db { users = keep (λ u. not (p u)) db.users }, count_where p db.users)

abbrev pub is_invalid : UserRow → Bool
is_invalid u = not u.google_token_valid

-- The two deletions of `CleanupInactiveUsers`, tokens first. Each reads the clock.
unfoldable pub delete_inactive : Stamp → Stamp → Database → Database × ℕ
delete_inactive limit limit' db =
    delete_users (is_inactive limit') (delete_tokens_of (is_inactive limit) db).0

-- A deletion on a database that may fail.
abbrev pub deleted : Call → Database × ℕ → Result StorageError (Database × ℕ)
deleted c r = if c.fails then err database_failed else ok r

-- A positive period is asked for.
abbrev pub with_period : ℤ → Result StorageError (Database × ℕ) → Result StorageError (Database × ℕ)
with_period period r = if leb_ℤ period (pos 0) then err bad_retention else r

-- `CleanupProcessedEmails`.
unfoldable pub cleanup_processed_emails : Call → Database → ℤ → Result StorageError (Database × ℕ)
cleanup_processed_emails c db period =
    with_period period (deleted c (delete_old_emails (cutoff c.now period) db))

-- `CleanupInvalidTokens`.
unfoldable pub cleanup_invalid_tokens : Call → Database → Result StorageError (Database × ℕ)
cleanup_invalid_tokens c db = deleted c (delete_tokens_of is_invalid db)

-- `CleanupInactiveUsers`, with a call for each of its two statements. Its transaction is rolled back
-- where one of them fails, or the commit, which is the second call's.
unfoldable pub cleanup_inactive_users :
    Call → Call → Database → ℤ → Result StorageError (Database × ℕ)
cleanup_inactive_users c c' db period = with_period period (
    if c.fails
    then err database_failed
    else deleted c' (delete_inactive (cutoff c.now period) (cutoff c'.now period) db))
