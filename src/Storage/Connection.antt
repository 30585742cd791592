-- ===== src/Storage/Connection.antt =====
-- The scripts of internal/storage/backup.go on a connection of SQLite: the statements they are made
-- of, and how SQLite documents them. Keys and indexes are left out of the tables.
pub mod Open
use gmaildigest_go.Prelude.{Bool, true, false, List, [], ◌∷◌, Option, none, some, if◌then◌else◌}
use gmaildigest_go.Prelude.Text.{Text}
use gmaildigest_go.Prelude.Maps.{Map, lookup, insert}
use gmaildigest_go.Storage.Database.{UserRow, TokenRow, EmailRow, VersionRow, Database}

-- The tables of a database file: none where there is no such table.
pub record Tables : Type 0 where
  pub versions : Option (List VersionRow)
  pub users : Option (List UserRow)
  pub tokens : Option (List TokenRow)
  pub emails : Option (List EmailRow)

pub data TableName : Type 0 where
  schema_migrations users_table tokens_table processed_emails : TableName

abbrev pub no_tables : Tables
no_tables = record { versions = none; users = none; tokens = none; emails = none }

abbrev pub tables_of : Database → Tables
tables_of db = record {
  versions = some db.versions;
  users = some db.users;
  tokens = some db.tokens;
  emails = some db.emails;
}

abbrev pub rows_or_none {ℓ} : {A : Type ℓ} → Option (List A) → List A
rows_or_none none = []
rows_or_none (some rows) = rows

-- The rows, none of a table that is missing.
abbrev pub database_of : Tables → Database
database_of t = record {
  users = rows_or_none t.users;
  tokens = rows_or_none t.tokens;
  emails = rows_or_none t.emails;
  versions = rows_or_none t.versions;
}

abbrev pub is_there {ℓ} : {A : Type ℓ} → Option A → Bool
is_there none = false
is_there (some a) = true

abbrev pub has_table : TableName → Tables → Bool
has_table schema_migrations t = is_there t.versions
has_table users_table t = is_there t.users
has_table tokens_table t = is_there t.tokens
has_table processed_emails t = is_there t.emails

-- A table of the first tables in the second.
abbrev pub copy_table : TableName → Tables → Tables → Tables
copy_table schema_migrations t u = record u { versions = t.versions }
copy_table users_table t u = record u { users = t.users }
copy_table tokens_table t u = record u { tokens = t.tokens }
copy_table processed_emails t u = record u { emails = t.emails }

-- Database files by path.
abbrev pub Files : Type 0
Files = Map Tables

-- A connection: the tables of the database it is open on, the files beside it, the path of the file
-- that is attached as `backup`, and whether a transaction is open.
pub record Connection : Type 0 where
  pub main : Tables
  pub files : Files
  pub attached : Option Text
  pub in_transaction : Bool

-- `ATTACH DATABASE ... AS backup`, `DROP TABLE IF EXISTS`, `CREATE TABLE backup.t AS SELECT`,
-- `CREATE TABLE t AS SELECT * FROM backup.t`, `CREATE INDEX` and `DETACH DATABASE backup`.
pub data Statement : Type 0 where
  attaches : Text → Statement
  drops saves restores indexes : TableName → Statement
  detaches : Statement

-- The tables at a path. A file that is not there is made when it is with_opened.
abbrev pub tables_at : Option Tables → Tables
tables_at none = no_tables
tables_at (some t) = t

abbrev pub save_table : TableName → Connection → Option Text → Option Connection
save_table n c none = none
save_table n c (some path) =
    if has_table n (tables_at (lookup path c.files))
    then none
    else if has_table n c.main
    then some (record c {
      files = insert path (copy_table n c.main (tables_at (lookup path c.files))) c.files;
    })
    else none

abbrev pub restore_table : TableName → Connection → Option Text → Option Connection
restore_table n c none = none
restore_table n c (some path) =
    if has_table n c.main
    then none
    else if has_table n (tables_at (lookup path c.files))
    then some (record c { main = copy_table n (tables_at (lookup path c.files)) c.main })
    else none

abbrev pub attach_file : Text → Connection → Option Text → Option Connection
attach_file path c none = some (record c { attached = some path })
attach_file path c (some other) = none

abbrev pub detach_file : Connection → Option Text → Option Connection
detach_file c none = none
detach_file c (some path) = some (record c { attached = none })

-- One statement; nothing where it fails. `ATTACH` fails where the name is in use, and `DETACH` in the
-- middle of a transaction.
unfoldable pub exec_statement : Connection → Statement → Option Connection
exec_statement c (attaches path) = attach_file path c c.attached
exec_statement c (drops n) = some (record c { main = copy_table n no_tables c.main })
exec_statement c (saves n) = save_table n c c.attached
exec_statement c (restores n) = restore_table n c c.attached
exec_statement c (indexes n) = some c
exec_statement c detaches = if c.in_transaction then none else detach_file c c.attached

-- A script, in which the driver may refuse any statement: the connection where it stops, and whether
-- every statement succeeded.
unfoldable pub exec_script : (Statement → Bool) → Connection → List Statement → Connection × Bool
exec_script refuses c [] = (c, true)
exec_script refuses c (s ∷ ss) =
    if refuses s
    then (c, false)
    else elim (exec_statement c s) [ none ↦ (c, false) | some d ↦ exec_script refuses d ss ]
