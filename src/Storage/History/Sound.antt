-- ===== src/Storage/History/Sound.antt =====
-- Properties of databases that every call preserves.
use gmaildigest_go.Prelude.{ℕ, Bool, true, false, Option, none, some, if◌then◌else◌, refl, ◌≡◌}
use gmaildigest_go.Prelude.Int.{ℤ, pos, leb_ℤ}
use gmaildigest_go.Prelude.Text.{Text}
use gmaildigest_go.Prelude.Results.{Result, ok, err}
use gmaildigest_go.Storage.Database.{
  Stamp, UserRow, Database, new_user, in_seconds, insert_user, update_interval, replace_token,
  upsert_token, delete_token_rows, replace_email,
}
use gmaildigest_go.Storage.Sqlite.{
  StorageError, Call, exec, when_valid, inserted, if_affected, exec_insert_user, exec_update_user,
  validate_token_input, database_failed, validate_input, validate_email_input, store_token,
  delete_token, create_user, update_user, mark_email_processed,
}
use gmaildigest_go.Storage.Cleanup.{
  delete_old_emails, delete_tokens_of, delete_users, delete_inactive, deleted, is_inactive,
  is_invalid, cutoff, cleanup_processed_emails, cleanup_invalid_tokens, cleanup_inactive_users,
}
use gmaildigest_go.Storage.Backup.Refused.{backup-main, restore-main}
use gmaildigest_go.Storage.History

-- A property of databases that no statement of the program ends.
pub record IsPreserved (P : Database → Type 0) : Type 0 where
  pub inserts :
      (now : Stamp) (i : ℤ) (g : Text) (secs : ℤ) (db : Database) {db' : Database}
      → P db
      → insert_user (new_user now i g secs) db ≡ some db'
      → P db'
  pub updates :
      (now : Stamp) (i secs : ℤ) (db : Database) → P db → P (update_interval now i secs db).0
  pub replaces :
      (now : Stamp) (user token nonce : Text) (db : Database)
      → P db
      → P (replace_token now user token nonce db)
  pub upserts :
      (now : Stamp) (user token nonce : Text) (db : Database)
      → P db
      → P (upsert_token now user token nonce db)
  pub deletes : (user : Text) (db : Database) → P db → P (delete_token_rows user db)
  pub marks :
      (now : Stamp) (message user : Text) (db : Database)
      → P db
      → P (replace_email now message user db)
  pub cleans_emails : (limit : Stamp) (db : Database) → P db → P (delete_old_emails limit db).0
  pub cleans_tokens : (p : UserRow → Bool) (db : Database) → P db → P (delete_tokens_of p db).0
  pub cleans_users : (p : UserRow → Bool) (db : Database) → P db → P (delete_users p db).0

-- A result of which a property holds.
abbrev pub Sound : (Database → Type 0) → Result StorageError Database → Type 0
Sound P (ok db) = P db
Sound P (err e) = Unit

abbrev pub SoundDeletion : (Database → Type 0) → Result StorageError (Database × ℕ) → Type 0
SoundDeletion P (ok (db, n)) = P db
SoundDeletion P (err e) = Unit

module _ (P : Database → Type 0) (p : IsPreserved P) where
  if_Sound :
      (b : Bool) (x y : Result StorageError Database)
      → Sound P x
      → Sound P y
      → Sound P (if b then x else y)
  if_Sound true x y h k = h
  if_Sound false x y h k = k

  if_SoundDeletion :
      (b : Bool) (x y : Result StorageError (Database × ℕ))
      → SoundDeletion P x
      → SoundDeletion P y
      → SoundDeletion P (if b then x else y)
  if_SoundDeletion true x y h k = h
  if_SoundDeletion false x y h k = k

  when_valid-Sound :
      (v : Result StorageError (Unit {0})) (r : Result StorageError Database)
      → Sound P r
      → Sound P (when_valid v r)
  when_valid-Sound (err e) r h = tt
  when_valid-Sound (ok x) r h = h

  if_affected-Sound : (r : Database × ℕ) → P r.0 → Sound P (if_affected r)
  if_affected-Sound (db, n) k = if_Sound _ (err _) (ok db) tt k

  pub exec-Sound : (c : Call) (db : Database) → P db → Sound P (exec c db)
  unfolding exec
  exec-Sound c db k = if_Sound c.fails (err database_failed) (ok db) tt k

  pub deleted-Sound : (c : Call) (r : Database × ℕ) → P r.0 → SoundDeletion P (deleted c r)
  deleted-Sound c (db, n) k = if_SoundDeletion c.fails (err database_failed) (ok (db, n)) tt k

  pub after-Sound :
      (db : Database) (r : Result StorageError Database) → P db → Sound P r → P (History.after db r)
  after-Sound db (ok u) k h = h
  after-Sound db (err e) k h = k

  pub after_deletion-Sound :
      (db : Database) (r : Result StorageError (Database × ℕ))
      → P db
      → SoundDeletion P r
      → P (History.after_deletion db r)
  after_deletion-Sound db (ok (u, n)) k h = h
  after_deletion-Sound db (err e) k h = k

  pub exec_insert_user-Sound :
      (c : Call) (db : Database) (i : ℤ) (g : Text) (d : ℤ)
      → P db
      → Sound P (exec_insert_user c db i g d)
  unfolding exec_insert_user
  exec_insert_user-Sound c db i g d k =
      if_Sound c.fails (err database_failed) _ tt
        (from (insert_user (new_user c.now i g (in_seconds d)) db) refl)
    where
      from :
          (o : Option Database)
          → insert_user (new_user c.now i g (in_seconds d)) db ≡ o
          → Sound P (inserted o)
      from none e = tt
      from (some u) e = p.inserts c.now i g (in_seconds d) db k e

  pub exec_update_user-Sound :
      (c : Call) (db : Database) (i d : ℤ) → P db → Sound P (exec_update_user c db i d)
  unfolding exec_update_user
  exec_update_user-Sound c db i d k = if_Sound c.fails (err database_failed) _ tt (
      if_affected-Sound (update_interval c.now i (in_seconds d) db)
        (p.updates c.now i (in_seconds d) db k))

  pub cleanup_processed_emails-Sound :
      (c : Call) (db : Database) (d : ℤ) → P db → SoundDeletion P (cleanup_processed_emails c db d)
  unfolding cleanup_processed_emails
  cleanup_processed_emails-Sound c db d k =
      if_SoundDeletion (leb_ℤ d (pos 0)) (err _) _ tt
        (deleted-Sound c _ (p.cleans_emails (cutoff c.now d) db k))

  pub cleanup_invalid_tokens-Sound :
      (c : Call) (db : Database) → P db → SoundDeletion P (cleanup_invalid_tokens c db)
  unfolding cleanup_invalid_tokens
  cleanup_invalid_tokens-Sound c db k = deleted-Sound c _ (p.cleans_tokens is_invalid db k)

  pub cleanup_inactive_users-Sound :
      (c c' : Call) (db : Database) (d : ℤ)
      → P db
      → SoundDeletion P (cleanup_inactive_users c c' db d)
  unfolding cleanup_inactive_users delete_inactive
  cleanup_inactive_users-Sound c c' db d k = if_SoundDeletion (leb_ℤ d (pos 0)) (err _) _ tt (
      if_SoundDeletion c.fails (err _) _ tt (
        deleted-Sound c' _ (
          p.cleans_users (is_inactive (cutoff c'.now d)) _
            (p.cleans_tokens (is_inactive (cutoff c.now d)) db k))))

  pub apply_kept : (db : Database) (x : History.StorageCall) → P db → P (History.apply db x)
  unfolding History.apply store_token delete_token create_user update_user mark_email_processed
  apply_kept db (History.stores_token c u t n) k = after-Sound db _ k (
      when_valid-Sound (validate_token_input u t n) _
        (exec-Sound c _ (p.replaces c.now u t n db k)))
  apply_kept db (History.deletes_token c u) k =
      after-Sound db _ k (exec-Sound c _ (p.deletes u db k))
  apply_kept db (History.creates_user c i g d) k =
      after-Sound db _ k
        (when_valid-Sound (validate_input i g d) _ (exec_insert_user-Sound c db i g d k))
  apply_kept db (History.updates_user c i d) k = after-Sound db _ k (
      if_Sound (leb_ℤ i (pos 0)) (err _) _ tt
        (if_Sound (leb_ℤ d (pos 0)) (err _) _ tt (exec_update_user-Sound c db i d k)))
  apply_kept db (History.marks_email c m u) k =
      after-Sound db _ k
        (when_valid-Sound (validate_email_input m u) _ (exec-Sound c _ (p.marks c.now m u db k)))
  apply_kept db (History.cleans_emails c d) k =
      after_deletion-Sound db _ k (cleanup_processed_emails-Sound c db d k)
  apply_kept db (History.cleans_tokens c) k =
      after_deletion-Sound db _ k (cleanup_invalid_tokens-Sound c db k)
  apply_kept db (History.cleans_users c c' d) k =
      after_deletion-Sound db _ k (cleanup_inactive_users-Sound c c' db d k)
  apply_kept db (History.backs_up b fs a path) k =
      rw (backup-main b (History.connection_on db fs a) path) k
  apply_kept db (History.restores_backup b fs a path) k =
      rw (restore-main b (History.connection_on db fs a) path) k
