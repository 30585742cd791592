-- ===== src/Storage/Sqlite.antt =====
-- `SQLiteStorage`: internal/storage/sqlite.go, on the tables of Storage/Database.
use gmaildigest_go.Prelude.{ℕ, ◌==◌, Bool, Option, none, some, any, if◌then◌else◌}
use gmaildigest_go.Prelude.Int.{ℤ, pos, leb_ℤ}
use gmaildigest_go.Prelude.Text.{Text, is_empty}
use gmaildigest_go.Prelude.Results.{Result, ok, err}
use gmaildigest_go.Prelude.Rows.{first}
use gmaildigest_go.Storage.Database.{
  Stamp, UserRow, TokenRow, Database, in_seconds, of_seconds, has_telegram_id, new_user,
  insert_user, update_interval, owns_token, replace_token, delete_token_rows, is_email,
  replace_email,
}

pub data StorageError : Type 0 where
  bad_telegram_id empty_user_id bad_interval empty_token empty_nonce empty_message_id : StorageError
  bad_retention bad_range : StorageError
  not_found no_rows database_failed : StorageError
  transaction_closed tx_done : StorageError

-- What a call finds: the clock of the database, and whether the database fails.
pub record Call : Type 0 where
  pub now : Stamp
  pub fails : Bool

-- `validateInput`.
unfoldable pub validate_input : ℤ → Text → ℤ → Result StorageError (Unit {0})
validate_input telegram_id gmail_user_id interval =
    if leb_ℤ telegram_id (pos 0)
    then err bad_telegram_id
    else if is_empty gmail_user_id
    then err empty_user_id
    else if leb_ℤ interval (pos 0)
    then err bad_interval
    else ok tt

-- `validateTokenInput`.
unfoldable pub validate_token_input : Text → Text → Text → Result StorageError (Unit {0})
validate_token_input user token nonce =
    if is_empty user
    then err empty_user_id
    else if is_empty token
    then err empty_token
    else if is_empty nonce
    then err empty_nonce
    else ok tt

-- `validateEmailInput`.
unfoldable pub validate_email_input : Text → Text → Result StorageError (Unit {0})
validate_email_input message user =
    if is_empty message
    then err empty_message_id
    else if is_empty user
    then err empty_user_id
    else ok tt

-- A statement whose result is not read, on a database that may fail.
unfoldable pub exec : Call → Database → Result StorageError Database
exec c db = if c.fails then err database_failed else ok db

-- The rest of a method after its validation.
abbrev pub when_valid {ℓ} :
    {A : Type ℓ} → Result StorageError (Unit {0}) → Result StorageError A → Result StorageError A
when_valid (err e) r = err e
when_valid (ok x) r = r

-- `StoreToken`.
unfoldable pub store_token : Call → Database → Text → Text → Text → Result StorageError Database
store_token c db user token nonce =
    when_valid (validate_token_input user token nonce)
      (exec c (replace_token c.now user token nonce db))

-- `DeleteToken`.
unfoldable pub delete_token : Call → Database → Text → Result StorageError Database
delete_token c db user = exec c (delete_token_rows user db)

abbrev pub scan_token : Option TokenRow → Result StorageError (Text × Text)
scan_token none = err not_found
scan_token (some t) = ok (t.encrypted_token, t.nonce)

-- `QueryRow`, on a database that may fail.
abbrev pub query {ℓ} : {A : Type ℓ} → Call → Result StorageError A → Result StorageError A
query c r = if c.fails then err database_failed else r

-- `SELECT ... FROM tokens WHERE user_id = ?`.
unfoldable pub select_token : Database → Text → Result StorageError (Text × Text)
select_token db user = scan_token (first (owns_token user) db.tokens)

-- `GetToken`.
unfoldable pub get_token : Call → Database → Text → Result StorageError (Text × Text)
get_token c db user = if is_empty user then err empty_user_id else query c (select_token db user)

abbrev pub inserted : Option Database → Result StorageError Database
inserted none = err database_failed
inserted (some db) = ok db

-- `INSERT INTO users`.
unfoldable pub exec_insert_user : Call → Database → ℤ → Text → ℤ → Result StorageError Database
exec_insert_user c db i g interval =
    if c.fails
    then err database_failed
    else inserted (insert_user (new_user c.now i g (in_seconds interval)) db)

-- `CreateUser`.
unfoldable pub create_user : Call → Database → ℤ → Text → ℤ → Result StorageError Database
create_user c db i g interval =
    when_valid (validate_input i g interval) (exec_insert_user c db i g interval)

-- `User`, with the interval as a duration.
pub record User : Type 0 where
  pub telegram_id : ℤ
  pub gmail_user_id : Text
  pub digest_interval : ℤ
  pub last_digest_sent : Option Stamp
  pub token_valid : Bool
  pub created_at : Stamp
  pub updated_at : Stamp

abbrev pub scan_user : Option UserRow → Result StorageError User
scan_user none = err not_found
scan_user (some u) = ok (record {
  telegram_id = u.telegram_id;
  gmail_user_id = u.gmail_user_id;
  digest_interval = of_seconds u.digest_interval;
  last_digest_sent = u.last_digest_sent;
  token_valid = u.google_token_valid;
  created_at = u.created_at;
  updated_at = u.updated_at;
})

-- `SELECT ... FROM users WHERE telegram_id = ?`.
unfoldable pub select_user : Database → ℤ → Result StorageError User
select_user db i = scan_user (first (has_telegram_id i) db.users)

-- `GetUser`.
unfoldable pub get_user : Call → Database → ℤ → Result StorageError User
get_user c db i = if leb_ℤ i (pos 0) then err bad_telegram_id else query c (select_user db i)

abbrev pub if_affected : Database × ℕ → Result StorageError Database
if_affected (db, rows) = if rows == 0 then err not_found else ok db

-- `UPDATE users SET digest_interval = ?`, and the test of the rows affected.
unfoldable pub exec_update_user : Call → Database → ℤ → ℤ → Result StorageError Database
exec_update_user c db i interval =
    if c.fails
    then err database_failed
    else if_affected (update_interval c.now i (in_seconds interval) db)

-- `UpdateUser`.
unfoldable pub update_user : Call → Database → ℤ → ℤ → Result StorageError Database
update_user c db i interval =
    if leb_ℤ i (pos 0)
    then err bad_telegram_id
    else if leb_ℤ interval (pos 0)
    then err bad_interval
    else exec_update_user c db i interval

-- `MarkEmailProcessed`.
unfoldable pub mark_email_processed : Call → Database → Text → Text → Result StorageError Database
mark_email_processed c db message user =
    when_valid (validate_email_input message user) (exec c (replace_email c.now message user db))

-- `IsEmailProcessed`.
unfoldable pub is_email_processed : Call → Database → Text → Text → Result StorageError Bool
is_email_processed c db message user =
    when_valid (validate_email_input message user)
      (query c (ok (any (is_email message user) db.emails)))
