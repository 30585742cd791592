-- ===== src/Storage/Backup.antt =====
-- Copies of the database: internal/storage/backup.go, and the status of internal/storage/migration.go.
pub mod Refused
use gmaildigest_go.Prelude.{
  ℕ, ◌==◌, Bool, true, false, ◌&&◌, List, [], ◌∷◌, ◌++◌, Option, none, some, leb, length,
  if◌then◌else◌,
}
use gmaildigest_go.Prelude.Text.{Text}
use gmaildigest_go.Prelude.Maps.{lookup, insert, delete}
use gmaildigest_go.Prelude.Results.{Result, ok, err}
use gmaildigest_go.Storage.Database.{VersionRow, Database}
use gmaildigest_go.Storage.Sqlite.{
  StorageError, Call, not_found, database_failed, transaction_closed, query,
}
use gmaildigest_go.Storage.Connection.{
  Tables, Files, Connection, Statement, schema_migrations, users_table, tokens_table,
  processed_emails, attaches, drops, saves, restores, indexes, detaches, no_tables, tables_of,
  exec_script,
}
use gmaildigest_go.Storage.Transaction.{Transaction}

-- Which calls of `Backup` and `Restore` succeed: `MkdirAll`, `BeginTx`, the `PRAGMA`, `Commit`, the
-- queries of `verifyBackup`, and which statements of the scripts the driver refuses.
pub record BackupCalls : Type 0 where
  pub makes_directory : Bool
  pub begins : Bool
  pub sets_mode : Bool
  pub refuses : Statement → Bool
  pub commits : Bool
  pub verifies : Bool

abbrev pub Backed : Type 0
Backed = Connection × Result StorageError (Unit {0})

abbrev pub failed : Connection → Backed
failed c = (c, err database_failed)

-- The script of `Backup`.
abbrev pub save_statements : Text → List Statement
save_statements path =
    attaches path
    ∷ saves schema_migrations
    ∷ saves users_table
    ∷ saves tokens_table
    ∷ saves processed_emails
    ∷ indexes users_table
    ∷ indexes processed_emails
    ∷ indexes processed_emails
    ∷ []

abbrev pub backup_script : Text → List Statement
backup_script path = save_statements path ++ detaches ∷ []

-- The scripts of `Restore`.
abbrev pub drop_script : List Statement
drop_script =
    drops schema_migrations ∷ drops users_table ∷ drops tokens_table ∷ drops processed_emails ∷ []

abbrev pub restore_statements : Text → List Statement
restore_statements path =
    attaches path
    ∷ restores schema_migrations
    ∷ restores users_table
    ∷ restores tokens_table
    ∷ restores processed_emails
    ∷ indexes users_table
    ∷ indexes processed_emails
    ∷ indexes processed_emails
    ∷ []

abbrev pub restore_script : Text → List Statement
restore_script path = restore_statements path ++ detaches ∷ []

-- The file that opening makes where there is none.
abbrev pub with_opened : Text → Files → Option Tables → Files
with_opened path fs none = insert path no_tables fs
with_opened path fs (some t) = fs

-- `Rollback`: the tables are those of before. What is attached stays attached.
abbrev pub after_rollback : Connection → Connection → Connection
after_rollback before after = record before { attached = after.attached }

abbrev pub same_count {ℓ} : {A : Type ℓ} → Option (List A) → Option (List A) → Bool
same_count (some xs) (some ys) = length xs == length ys
same_count _ _ = false

abbrev pub same_counts : Tables → Option Tables → Bool
same_counts t none = false
same_counts t (some u) =
    same_count t.versions u.versions
    && same_count t.users u.users
    && same_count t.tokens u.tokens
    && same_count t.emails u.emails

-- `verifyBackup`: whether it returns no error.
unfoldable pub verify_backup : Bool → Connection → Text → Bool
verify_backup answers c path = answers && same_counts c.main (lookup path c.files)

-- A copy that is not verified is removed.
abbrev pub verified : Bool → Text → Connection → Backed
verified good path c =
    if good then (c, ok tt) else (record c { files = delete path c.files }, err database_failed)

-- After the script: an error rolls the transaction back, as a commit that fails does.
abbrev pub finish : Bool → Connection → Connection × Bool → Backed
finish commits before (after, false) = failed (after_rollback before after)
finish commits before (after, true) =
    if commits
    then (record after { in_transaction = before.in_transaction }, ok tt)
    else failed (after_rollback before after)

abbrev pub then_verified : Bool → Text → Backed → Backed
then_verified answers path (c, err e) = (c, err e)
then_verified answers path (c, ok x) = verified (verify_backup answers c path) path c

-- A connection that has begun a transaction.
abbrev pub begun : Connection → Connection
begun c = record c { in_transaction = true }

abbrev pub copy_into : BackupCalls → Connection → Text → Backed
copy_into b c path =
    then_verified b.verifies path
      (finish b.commits c (exec_script b.refuses (begun c) (backup_script path)))

abbrev pub with_file : Connection → Text → Connection
with_file c path = record c { files = with_opened path c.files (lookup path c.files) }

-- `Backup`.
unfoldable pub backup : BackupCalls → Connection → Text → Backed
backup b c path =
    if b.makes_directory && b.begins
    then (if b.sets_mode then copy_into b (with_file c path) path else failed (with_file c path))
    else failed c

abbrev pub tx_copied : Connection × Bool → Backed
tx_copied (c, done) = if done then (c, ok tt) else failed c

-- `Backup` of a transaction, on its connection: what the transaction sees is copied. The copy is not
-- verified; on an error the transaction stays open.
unfoldable pub tx_backup : BackupCalls → Transaction → Connection → Text → Backed
tx_backup b t c path =
    if t.closed
    then (c, err transaction_closed)
    else if b.makes_directory
    then (if b.sets_mode
        then tx_copied (
            exec_script b.refuses
              (record (with_file c path) { main = tables_of t.work; in_transaction = true })
              (backup_script path))
        else failed (with_file c path))
    else failed c

-- The second script follows where the first has succeeded.
abbrev pub restored : (Statement → Bool) → Text → Connection × Bool → Connection × Bool
restored refuses path (c, false) = (c, false)
restored refuses path (c, true) = exec_script refuses c (restore_script path)

abbrev pub restore_file : BackupCalls → Connection → Text → Option Tables → Backed
restore_file b c path none = (c, err not_found)
restore_file b c path (some t) =
    if b.begins
    then finish b.commits c (restored b.refuses path (exec_script b.refuses (begun c) drop_script))
    else failed c

-- `Restore`.
unfoldable pub restore : BackupCalls → Connection → Text → Backed
restore b c path = restore_file b c path (lookup path c.files)

-- `ORDER BY version`.
abbrev pub insert_version : VersionRow → List VersionRow → List VersionRow
insert_version v [] = v ∷ []
insert_version v (w ∷ ws) = if leb v.version w.version then v ∷ w ∷ ws else w ∷ insert_version v ws

abbrev pub by_version : List VersionRow → List VersionRow
by_version [] = []
by_version (v ∷ vs) = insert_version v (by_version vs)

-- `GetMigrationStatus`.
unfoldable pub get_migration_status : Call → Database → Result StorageError (List VersionRow)
get_migration_status c db = query c (ok (by_version db.versions))

-- `GetMigrationStatus` of a transaction.
unfoldable pub tx_get_migration_status : Call → Transaction → Result StorageError (List VersionRow)
tx_get_migration_status c t =
    if t.closed then err transaction_closed else get_migration_status c t.work
