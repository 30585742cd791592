-- ===== src/Storage/History.antt =====
-- Any sequence of the calls of the storage that write, and of whole transactions.
pub mod Sound
pub mod Atomic
pub mod Kept
pub mod Keyed
pub mod Unmarked
use gmaildigest_go.Prelude.{
  ℕ, Bool, true, false, not, List, [], ◌∷◌, Option, none, some, if◌then◌else◌, refl, ◌≡◌,
}
use gmaildigest_go.Prelude.Int.{ℤ, pos, leb_ℤ}
use gmaildigest_go.Prelude.Text.{Text}
use gmaildigest_go.Prelude.Results.{Result, ok, err}
use gmaildigest_go.Prelude.Rows.{Distinct-keep}
use gmaildigest_go.Storage.Database.{
  Stamp, UserRow, Database, user_clash, token_clash, email_clash, new_user, in_seconds, insert_user,
  update_interval,
}
use gmaildigest_go.Storage.Keys.{
  IsDatabase, insert_user-IsDatabase, update_interval-IsDatabase, replace_token-IsDatabase,
  upsert_token-IsDatabase, delete_token_rows-IsDatabase, replace_email-IsDatabase,
}
use gmaildigest_go.Storage.Sqlite.{
  StorageError, Call, exec, when_valid, inserted, if_affected, exec_insert_user, exec_update_user,
  validate_token_input, validate_input, validate_email_input, store_token, delete_token,
  create_user, update_user, mark_email_processed,
}
use gmaildigest_go.Storage.Cleanup.{
  delete_old_emails, delete_tokens_of, delete_users, delete_inactive, deleted, with_period,
  is_inactive, is_invalid, is_old, owner_is, cutoff, cleanup_processed_emails,
  cleanup_invalid_tokens, cleanup_inactive_users,
}
use gmaildigest_go.Storage.Connection.{Files, Connection, tables_of, database_of}
use gmaildigest_go.Storage.Backup.{BackupCalls, backup, restore}
use gmaildigest_go.Storage.Transaction.{
  Transaction, Done, Counted, begin_tx, commit, rollback, write, tx_exec, write_counted, cleanup_in,
  tx_create_user, tx_update_user, tx_store_token, tx_mark_email_processed,
  tx_cleanup_processed_emails, tx_cleanup_invalid_tokens, tx_delete_users,
  tx_cleanup_inactive_users,
}

pub data StorageCall : Type 0 where
  stores_token : Call → Text → Text → Text → StorageCall
  deletes_token : Call → Text → StorageCall
  creates_user : Call → ℤ → Text → ℤ → StorageCall
  updates_user : Call → ℤ → ℤ → StorageCall
  marks_email : Call → Text → Text → StorageCall
  cleans_emails : Call → ℤ → StorageCall
  cleans_tokens : Call → StorageCall
  cleans_users : Call → Call → ℤ → StorageCall
  -- With the files there are, and with what the connection has attached.
  backs_up restores_backup : BackupCalls → Files → Option Text → Text → StorageCall

-- A connection on the database.
abbrev pub connection_on : Database → Files → Option Text → Connection
connection_on db fs a = record {
  main = tables_of db;
  files = fs;
  attached = a;
  in_transaction = false;
}

-- A call that fails leaves the database as it was.
abbrev pub after : Database → Result StorageError Database → Database
after db (ok u) = u
after db (err e) = db

abbrev pub after_deletion : Database → Result StorageError (Database × ℕ) → Database
after_deletion db (ok (u, n)) = u
after_deletion db (err e) = db

unfoldable pub apply : Database → StorageCall → Database
apply db (stores_token c u t n) = after db (store_token c db u t n)
apply db (deletes_token c u) = after db (delete_token c db u)
apply db (creates_user c i g d) = after db (create_user c db i g d)
apply db (updates_user c i d) = after db (update_user c db i d)
apply db (marks_email c m u) = after db (mark_email_processed c db m u)
apply db (cleans_emails c d) = after_deletion db (cleanup_processed_emails c db d)
apply db (cleans_tokens c) = after_deletion db (cleanup_invalid_tokens c db)
apply db (cleans_users c c' d) = after_deletion db (cleanup_inactive_users c c' db d)
apply db (backs_up b fs a path) = database_of (backup b (connection_on db fs a) path).0.main
apply db (restores_backup b fs a path) = database_of (restore b (connection_on db fs a) path).0.main

-- `Backup` and the reads leave a transaction as it is.
pub data TxCall : Type 0 where
  commits rolls_back : Call → TxCall
  tx_creates_user : Call → ℤ → Text → ℤ → TxCall
  tx_updates_user : Call → ℤ → ℤ → TxCall
  tx_stores_token : Call → Text → Text → Text → TxCall
  tx_marks_email : Call → Text → Text → TxCall
  tx_cleans_emails : Call → ℤ → TxCall
  tx_cleans_tokens : Call → TxCall
  tx_cleans_users : Call → Call → ℤ → TxCall

unfoldable pub tx_apply : Transaction → TxCall → Transaction
tx_apply t (commits c) = (commit c t).0
tx_apply t (rolls_back c) = (rollback c t).0
tx_apply t (tx_creates_user c i g d) = (tx_create_user c t i g d).0
tx_apply t (tx_updates_user c i d) = (tx_update_user c t i d).0
tx_apply t (tx_stores_token c u k n) = (tx_store_token c t u k n).0
tx_apply t (tx_marks_email c m u) = (tx_mark_email_processed c t m u).0
tx_apply t (tx_cleans_emails c d) = (tx_cleanup_processed_emails c t d).0
tx_apply t (tx_cleans_tokens c) = (tx_cleanup_invalid_tokens c t).0
tx_apply t (tx_cleans_users c c' d) = (tx_cleanup_inactive_users c c' t d).0

unfoldable pub tx_run : Transaction → List TxCall → Transaction
tx_run t [] = t
tx_run t (x ∷ xs) = tx_run (tx_apply t x) xs

-- A direct call, or a transaction with its calls.
pub data Action : Type 0 where
  calls : StorageCall → Action
  transacts : Call → List TxCall → Action

abbrev pub disk_after : Database → List TxCall → Result StorageError Transaction → Database
disk_after db xs (err e) = db
disk_after db xs (ok t) = (tx_run t xs).disk

unfoldable pub act : Database → Action → Database
act db (calls x) = apply db x
act db (transacts c xs) = disk_after db xs (begin_tx c db)

unfoldable pub run : Database → List Action → Database
run db [] = db
run db (a ∷ as') = run (act db a) as'
