-- ===== src/Storage/History/Keyed.antt =====
-- The keys stay unique through every history.
use gmaildigest_go.Prelude.{Bool, not, List}
use gmaildigest_go.Prelude.Rows.{Distinct-keep}
use gmaildigest_go.Storage.Database.{
  Stamp, UserRow, Database, user_clash, token_clash, email_clash, new_user,
}
use gmaildigest_go.Storage.Cleanup.{
  delete_old_emails, delete_tokens_of, delete_users, owner_is, is_old,
}
use gmaildigest_go.Storage.Keys.{
  IsDatabase, insert_user-IsDatabase, update_interval-IsDatabase, replace_token-IsDatabase,
  upsert_token-IsDatabase, delete_token_rows-IsDatabase, replace_email-IsDatabase,
}
use gmaildigest_go.Storage.History.{Action, run}
use gmaildigest_go.Storage.History.Sound.{IsPreserved}
use gmaildigest_go.Storage.History.Kept.{run_kept}

delete_old_emails-IsDatabase :
    (limit : Stamp) (db : Database) → IsDatabase db → IsDatabase (delete_old_emails limit db).0
unfolding delete_old_emails
delete_old_emails-IsDatabase limit db k = record {
  users = k.users;
  tokens = k.tokens;
  emails = Distinct-keep email_clash (λ e. not (is_old limit e)) db.emails k.emails;
}

delete_tokens_of-IsDatabase :
    (p : UserRow → Bool) (db : Database) → IsDatabase db → IsDatabase (delete_tokens_of p db).0
unfolding delete_tokens_of
delete_tokens_of-IsDatabase p db k = record {
  users = k.users;
  tokens = Distinct-keep token_clash (λ t. not (owner_is p db.users t)) db.tokens k.tokens;
  emails = k.emails;
}

delete_users-IsDatabase :
    (p : UserRow → Bool) (db : Database) → IsDatabase db → IsDatabase (delete_users p db).0
unfolding delete_users
delete_users-IsDatabase p db k = record {
  users = Distinct-keep user_clash (λ u. not (p u)) db.users k.users;
  tokens = k.tokens;
  emails = k.emails;
}

IsDatabase-IsPreserved : IsPreserved IsDatabase
IsDatabase-IsPreserved = record {
  inserts = λ now i g secs db k h. insert_user-IsDatabase (new_user now i g secs) db k h;
  updates = update_interval-IsDatabase;
  replaces = replace_token-IsDatabase;
  upserts = upsert_token-IsDatabase;
  deletes = delete_token_rows-IsDatabase;
  marks = replace_email-IsDatabase;
  cleans_emails = delete_old_emails-IsDatabase;
  cleans_tokens = delete_tokens_of-IsDatabase;
  cleans_users = delete_users-IsDatabase;
}

-- Through every sequence of the calls of the storage that write users, tokens and emails, of backups
-- and restores, and of whole transactions of such calls, failing ones included, the keys stay unique:
-- no two users have one Telegram id or one Gmail id, no user has two tokens, and no user has an email
-- marked twice.
pub run-IsDatabase : (db : Database) (xs : List Action) → IsDatabase db → IsDatabase (run db xs)
run-IsDatabase db xs k = run_kept IsDatabase IsDatabase-IsPreserved db xs k
