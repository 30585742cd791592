-- ===== src/Storage/Transaction.antt =====
-- Transactions: internal/storage/transaction.go, and the methods on `Transaction` in cleanup.go.
-- Its errors for a missing row are the ones of the storage here, though they do not wrap `ErrNotFound`.
use gmaildigest_go.Prelude.{ℕ, Bool, true, false, any, if◌then◌else◌}
use gmaildigest_go.Prelude.Int.{ℤ, pos, leb_ℤ}
use gmaildigest_go.Prelude.Text.{Text}
use gmaildigest_go.Prelude.Results.{Result, ok, err}
use gmaildigest_go.Storage.Database.{Database, is_email, upsert_token, replace_email}
use gmaildigest_go.Storage.Sqlite.{
  StorageError, Call, User, bad_retention, transaction_closed, tx_done, database_failed, exec,
  query, exec_insert_user, exec_update_user, select_user, select_token,
}
use gmaildigest_go.Storage.Cleanup.{
  cleanup_processed_emails, cleanup_invalid_tokens, deleted, delete_users, delete_tokens_of,
  is_inactive, cutoff,
}

-- A database file with one transaction on it: what the file holds, what the transaction sees, and
-- whether it is closed. While it is open nobody else writes to the file.
pub record Transaction : Type 0 where
  pub disk : Database
  pub work : Database
  pub closed : Bool

abbrev pub Done : Type 0
Done = Transaction × Result StorageError (Unit {0})

-- `BeginTx`.
unfoldable pub begin_tx : Call → Database → Result StorageError Transaction
begin_tx c db =
    if c.fails then err database_failed else ok (record { disk = db; work = db; closed = false })

-- `Commit`. A commit that fails closes the transaction too.
unfoldable pub commit : Call → Transaction → Done
commit c t =
    if t.closed
    then (t, err transaction_closed)
    else if c.fails
    then (record t { closed = true }, err database_failed)
    else (record t { disk = t.work; closed = true }, ok tt)

-- `Rollback`.
unfoldable pub rollback : Call → Transaction → Done
rollback c t =
    if t.closed
    then (t, err transaction_closed)
    else if c.fails
    then (record t { closed = true }, err database_failed)
    else (record t { closed = true }, ok tt)

-- A statement changes what the transaction sees, unless it fails.
abbrev pub write : Transaction → Result StorageError Database → Done
write t (ok db) = (record t { work = db }, ok tt)
write t (err e) = (t, err e)

-- `sql.Tx` refuses a statement after a commit or a rollback.
abbrev pub tx_exec : Transaction → Result StorageError Database → Done
tx_exec t r = if t.closed then (t, err tx_done) else write t r

abbrev pub tx_query {ℓ} : {A : Type ℓ} → Transaction → Result StorageError A → Result StorageError A
tx_query t r = if t.closed then err tx_done else r

-- `CreateUser`, which does not validate its input.
unfoldable pub tx_create_user : Call → Transaction → ℤ → Text → ℤ → Done
tx_create_user c t i g interval = tx_exec t (exec_insert_user c t.work i g interval)

-- `GetUser`.
unfoldable pub tx_get_user : Call → Transaction → ℤ → Result StorageError User
tx_get_user c t i = tx_query t (query c (select_user t.work i))

-- `UpdateUser`.
unfoldable pub tx_update_user : Call → Transaction → ℤ → ℤ → Done
tx_update_user c t i interval = tx_exec t (exec_update_user c t.work i interval)

-- `StoreToken`.
unfoldable pub tx_store_token : Call → Transaction → Text → Text → Text → Done
tx_store_token c t user token nonce =
    tx_exec t (exec c (upsert_token c.now user token nonce t.work))

-- `GetToken`.
unfoldable pub tx_get_token : Call → Transaction → Text → Result StorageError (Text × Text)
tx_get_token c t user = tx_query t (query c (select_token t.work user))

-- `MarkEmailProcessed`.
unfoldable pub tx_mark_email_processed : Call → Transaction → Text → Text → Done
tx_mark_email_processed c t message user =
    tx_exec t (exec c (replace_email c.now message user t.work))

-- `IsEmailProcessed`.
unfoldable pub tx_is_email_processed : Call → Transaction → Text → Text → Result StorageError Bool
tx_is_email_processed c t message user =
    tx_query t (query c (ok (any (is_email message user) t.work.emails)))

abbrev pub Counted : Type 0
Counted = Transaction × Result StorageError ℕ

abbrev pub write_counted : Transaction → Result StorageError (Database × ℕ) → Counted
write_counted t (ok (db, n)) = (record t { work = db }, ok n)
write_counted t (err e) = (t, err e)

-- The cleanups test `closed` themselves.
abbrev pub cleanup_in : Transaction → Result StorageError (Database × ℕ) → Counted
cleanup_in t r = if t.closed then (t, err transaction_closed) else write_counted t r

-- `CleanupProcessedEmails` of a transaction.
unfoldable pub tx_cleanup_processed_emails : Call → Transaction → ℤ → Counted
tx_cleanup_processed_emails c t period = cleanup_in t (cleanup_processed_emails c t.work period)

-- `CleanupInvalidTokens` of a transaction.
unfoldable pub tx_cleanup_invalid_tokens : Call → Transaction → Counted
tx_cleanup_invalid_tokens c t = cleanup_in t (cleanup_invalid_tokens c t.work)

-- The second statement of `CleanupInactiveUsers`, after the tokens are deleted.
abbrev pub tx_delete_users : Call → Transaction → ℤ → Counted
tx_delete_users c t period =
    write_counted t (deleted c (delete_users (is_inactive (cutoff c.now period)) t.work))

-- `CleanupInactiveUsers` of a transaction, with a call for each statement. Where only the second
-- fails, the tokens stay deleted in the transaction.
unfoldable pub tx_cleanup_inactive_users : Call → Call → Transaction → ℤ → Counted
tx_cleanup_inactive_users c c' t period =
    if t.closed
    then (t, err transaction_closed)
    else if leb_ℤ period (pos 0)
    then (t, err bad_retention)
    else if c.fails
    then (t, err database_failed)
    else tx_delete_users c'
        (record t { work = (delete_tokens_of (is_inactive (cutoff c.now period)) t.work).0 }) period
