-- ===== src/Storage/Backup/Refused.antt =====
-- The scripts end in `DETACH`, which SQLite refuses in the middle of a transaction.
use gmaildigest_go.Prelude.{
  if◌then◌else◌, ◌⊎◌, ◌≡◌, ◌≢◌, refl, ◌&&◌, Bool, true, false, Option, none, some, Bool-cases, inl,
  inr,
}
use gmaildigest_go.Prelude.Text.{Text}
use gmaildigest_go.Prelude.Maps.{lookup}
use gmaildigest_go.Prelude.Results.{Result, ok, err}
use gmaildigest_go.Storage.Sqlite.{StorageError}
use gmaildigest_go.Storage.Connection.{Tables, Files, Connection, Statement, exec_script}
use gmaildigest_go.Storage.Connection.Open.{exec_script-detaches, exec_script-StaysOpen}
use gmaildigest_go.Storage.Transaction.{Transaction}
use gmaildigest_go.Storage.Backup.{
  BackupCalls, Backed, with_opened, finish, copy_into, with_file, backup, tx_backup, restore,
  restored, restore_file, then_verified, tx_copied, begun, backup_script, save_statements,
  restore_statements, drop_script,
}

refused_eq : (e : StorageError) → ◌≢◌ {A = Result StorageError (Unit {0})} (err e) (ok tt)
refused_eq e h = cc

-- No success, the tables of the database as they were, and these files.
abbrev pub IsRefused : Connection → Files → Backed → Type 0
IsRefused c fs (d, r) = (r ≢ ok tt) × (d.main ≡ c.main) × (d.files ≡ fs)

if_IsRefused :
    (c : Connection) (fs : Files) (b : Bool) (x y : Backed)
    → IsRefused c fs x
    → IsRefused c fs y
    → IsRefused c fs (if b then x else y)
if_IsRefused c fs true x y h k = h
if_IsRefused c fs false x y h k = k

finish-IsRefused :
    (commits : Bool) (c : Connection) (r : Connection × Bool)
    → r.1 ≡ false
    → IsRefused c c.files (finish commits c r)
finish-IsRefused commits c (d, false) h = (refused_eq _, refl, refl)
finish-IsRefused commits c (d, true) h = absurd (cc)

restored-fails :
    (refuses : Statement → Bool) (path : Text) (r : Connection × Bool)
    → r.0.in_transaction ≡ true
    → (restored refuses path r).1 ≡ false
restored-fails refuses path (c, false) t = refl
restored-fails refuses path (c, true) t = exec_script-detaches refuses c (restore_statements path) t

restore_file-IsRefused :
    (b : BackupCalls) (c : Connection) (path : Text) (o : Option Tables)
    → IsRefused c c.files (restore_file b c path o)
restore_file-IsRefused b c path none = (refused_eq _, refl, refl)
restore_file-IsRefused b c path (some t) =
    if_IsRefused c c.files b.begins _ _
      (finish-IsRefused b.commits c
        (restored b.refuses path (exec_script b.refuses (begun c) drop_script))
        (restored-fails b.refuses path (exec_script b.refuses (begun c) drop_script)
          (exec_script-StaysOpen b.refuses (begun c) drop_script refl)))
      (refused_eq _, refl, refl)

restore-IsRefused :
    (b : BackupCalls) (c : Connection) (path : Text) → IsRefused c c.files (restore b c path)
unfolding restore
restore-IsRefused b c path = restore_file-IsRefused b c path (lookup path c.files)

then_verified-IsRefused :
    (answers commits : Bool) (path : Text) (c : Connection) (r : Connection × Bool)
    → r.1 ≡ false
    → IsRefused c c.files (then_verified answers path (finish commits c r))
then_verified-IsRefused answers commits path c (d, false) h = (refused_eq _, refl, refl)
then_verified-IsRefused answers commits path c (d, true) h = absurd (cc)

copy_into-IsRefused :
    (b : BackupCalls) (c : Connection) (path : Text) → IsRefused c c.files (copy_into b c path)
copy_into-IsRefused b c path =
    then_verified-IsRefused b.verifies b.commits path c
      (exec_script b.refuses (begun c) (backup_script path))
      (exec_script-detaches b.refuses (begun c) (save_statements path) refl)

backup-IsRefused :
    (b : BackupCalls) (c : Connection) (path : Text)
    → IsRefused c c.files (backup b c path)
      ⊎ IsRefused c (with_opened path c.files (lookup path c.files)) (backup b c path)
unfolding backup
backup-IsRefused b c path = elim (Bool-cases (b.makes_directory && b.begins)) [
  | inl go ↦ inr (
      rw go (
        if_IsRefused c (with_opened path c.files (lookup path c.files)) b.sets_mode _ _
          (copy_into-IsRefused b (with_file c path) path) (refused_eq _, refl, refl)))
  | inr stop ↦ inl (rw stop (refused_eq _, refl, refl))
]

tx_copied-fails : (r : Connection × Bool) → r.1 ≡ false → (tx_copied r).1 ≢ ok tt
tx_copied-fails (c, false) h = refused_eq _
tx_copied-fails (c, true) h = absurd (cc)

if_fails : (b : Bool) (x y : Backed) → x.1 ≢ ok tt → y.1 ≢ ok tt → (if b then x else y).1 ≢ ok tt
if_fails true x y h k = h
if_fails false x y h k = k

tx_backup-fails :
    (b : BackupCalls) (t : Transaction) (c : Connection) (path : Text)
    → (tx_backup b t c path).1 ≢ ok tt
unfolding tx_backup
tx_backup-fails b t c path = if_fails t.closed _ _ (refused_eq _) (
    if_fails b.makes_directory _ _
      (if_fails b.sets_mode _ _
        (tx_copied-fails _ (exec_script-detaches b.refuses _ (save_statements path) refl))
        (refused_eq _))
      (refused_eq _))

-- The bug: no backup and no restore ever succeeds, and no backup of a transaction, whichever of their
-- calls do: their scripts detach the file in the middle of a transaction. After a backup or a restore
-- the tables of the database are as they were, and so are the files, but for an empty one that a
-- backup may have made at its path.
pub never_copied :
    (b : BackupCalls) (t : Transaction) (c : Connection) (path : Text)
    → (IsRefused c c.files (backup b c path)
        ⊎ IsRefused c (with_opened path c.files (lookup path c.files)) (backup b c path))
      × IsRefused c c.files (restore b c path)
      × ((tx_backup b t c path).1 ≢ ok tt)
never_copied b t c path =
    (backup-IsRefused b c path, restore-IsRefused b c path, tx_backup-fails b t c path)

main_eq : (c : Connection) (fs : Files) (r : Backed) → IsRefused c fs r → r.0.main ≡ c.main
main_eq c fs (d, r) (never, same, files) = same

-- What the histories of the storage use.
pub backup-main :
    (b : BackupCalls) (c : Connection) (path : Text) → (backup b c path).0.main ≡ c.main
backup-main b c path = elim (backup-IsRefused b c path) [
  | inl h ↦ main_eq c _ (backup b c path) h
  | inr h ↦ main_eq c _ (backup b c path) h
]

pub restore-main :
    (b : BackupCalls) (c : Connection) (path : Text) → (restore b c path).0.main ≡ c.main
restore-main b c path = main_eq c _ (restore b c path) (restore-IsRefused b c path)
