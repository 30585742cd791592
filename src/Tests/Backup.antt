-- ===== src/Tests/Backup.antt =====
-- Backups and restores, which fail, and the status of the migrations.
use gmaildigest_go.Prelude.{◌≡◌, ◌≢◌, refl, true, false, [], ◌∷◌, none, some, ◌⊎◌}
use gmaildigest_go.Prelude.Text.{codes, text_dec}
use gmaildigest_go.Prelude.Maps.{lookup, insert}
use gmaildigest_go.Prelude.Results.{ok, err}
use gmaildigest_go.Storage.Sqlite.{database_failed, not_found}
use gmaildigest_go.Storage.Connection.{
  Connection, no_tables, tables_of, exec_statement, exec_script,
}
use gmaildigest_go.Storage.Backup.{
  BackupCalls, verify_backup, backup, tx_backup, restore, with_opened, backup_script,
  get_migration_status,
}
use gmaildigest_go.Storage.Backup.Refused.{IsRefused, never_copied}
use gmaildigest_go.Storage.Transaction.{Transaction}
use gmaildigest_go.Tests.Tokens.{live, empty, with_token}

abbrev pub all_succeed : BackupCalls
all_succeed = record {
  makes_directory = true;
  begins = true;
  sets_mode = true;
  refuses = λ s. false;
  commits = true;
  verifies = true;
}

abbrev connection : Connection
connection = record {
  main = tables_of with_token;
  files = (codes "old", tables_of empty) ∷ [];
  attached = none;
  in_transaction = false;
}

-- The script reaches its last statement in a transaction, and ends well outside of one.
abbrev copied : Connection
copied = record connection {
  files = (codes "old", tables_of empty) ∷ (codes "b", tables_of with_token) ∷ [];
}

script_in_transaction :
    exec_script
      (λ s. false)
      (record connection { in_transaction = true })
      (backup_script (codes "b"))
    ≡ (record copied { attached = some (codes "b"); in_transaction = true }, false)
unfolding exec_script exec_statement lookup insert text_dec
script_in_transaction = refl

script_alone : exec_script (λ s. false) connection (backup_script (codes "b")) ≡ (copied, true)
unfolding exec_script exec_statement lookup insert text_dec
script_alone = refl

-- The file that was attached stays attached, so that the next backup fails at once.
backup_fails : backup all_succeed connection (codes "b") ≡ (
  record connection {
    files = (codes "old", tables_of empty) ∷ (codes "b", no_tables) ∷ [];
    attached = some (codes "b");
  },
  err database_failed,
)
unfolding backup exec_script exec_statement lookup insert text_dec
backup_fails = refl

restore_fails :
    restore all_succeed connection (codes "old")
    ≡ (record connection { attached = some (codes "old") }, err database_failed)
unfolding restore exec_script exec_statement lookup text_dec
restore_fails = refl

no_file : restore all_succeed connection (codes "b") ≡ (connection, err not_found)
unfolding restore lookup text_dec
no_file = refl

differ : verify_backup true connection (codes "old") ≡ false
unfolding verify_backup lookup text_dec
differ = refl

abbrev transaction : Transaction
transaction = record { disk = empty; work = with_token; closed = false }

never_copied_example :
    (IsRefused connection connection.files (backup all_succeed connection (codes "b"))
      ⊎ IsRefused connection
          (with_opened (codes "b") connection.files (lookup (codes "b") connection.files))
          (backup all_succeed connection (codes "b")))
    × IsRefused connection connection.files (restore all_succeed connection (codes "b"))
    × ((tx_backup all_succeed transaction connection (codes "b")).1 ≢ ok tt)
never_copied_example = never_copied all_succeed transaction connection (codes "b")

in_order :
    get_migration_status live (record empty {
      versions =
          record { version = 2; applied_at = 5 } ∷ record { version = 1; applied_at = 9 } ∷ [];
    })
    ≡ ok (record { version = 1; applied_at = 9 } ∷ record { version = 2; applied_at = 5 } ∷ [])
unfolding get_migration_status
in_order = refl
