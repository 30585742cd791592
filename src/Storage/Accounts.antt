-- ===== src/Storage/Accounts.antt =====
-- The users of the embedded migrations, with their Telegram details: internal/storage/user.go and the
-- last two methods of internal/storage/sqlite.go. These queries name columns that the table `users` of
-- Storage/Database does not have.
use gmaildigest_go.Prelude.{Bool, false, not, ◌&&◌, List, Option, none, some, any, if◌then◌else◌}
use gmaildigest_go.Prelude.Int.{ℤ}
use gmaildigest_go.Prelude.Text.{Text, eqt}
use gmaildigest_go.Prelude.Results.{Result, ok, err}
use gmaildigest_go.Prelude.Rows.{first, change}
use gmaildigest_go.Storage.Database.{Stamp, eqz}
use gmaildigest_go.Storage.Sqlite.{StorageError, Call, not_found, database_failed, query}

-- `User` of user.go, a row of that table.
pub record Account : Type 0 where
  pub id : Text
  pub email : Text
  pub telegram_user_id : Option ℤ
  pub telegram_chat_id : Option ℤ
  pub created_at : Stamp
  pub updated_at : Stamp

abbrev pub has_id : Text → Account → Bool
has_id id a = eqt a.id id

abbrev pub is_number : ℤ → Option ℤ → Bool
is_number n none = false
is_number n (some m) = eqz m n

-- The row of another user has the Telegram user id, which is unique.
abbrev pub is_taken : Text → ℤ → Account → Bool
is_taken id telegram a = not (has_id id a) && is_number telegram a.telegram_user_id

abbrev pub set_telegram : Stamp → ℤ → ℤ → Account → Account
set_telegram now telegram chat a = record a {
  telegram_user_id = some telegram;
  telegram_chat_id = some chat;
  updated_at = now;
}

-- `UpdateUserTelegramDetails`.
unfoldable pub update_user_telegram_details :
    Call → List Account → Text → ℤ → ℤ → Result StorageError (List Account)
update_user_telegram_details c us id telegram chat =
    if c.fails
    then err database_failed
    else if not (any (has_id id) us)
    then err not_found
    else if any (is_taken id telegram) us
    then err database_failed
    else ok (change (has_id id) (set_telegram c.now telegram chat) us)

abbrev pub scan_account : Option Account → Result StorageError Account
scan_account none = err not_found
scan_account (some a) = ok a

-- `GetUserByID`.
unfoldable pub get_user_by_id : Call → List Account → Text → Result StorageError Account
get_user_by_id c us id = query c (scan_account (first (has_id id) us))
