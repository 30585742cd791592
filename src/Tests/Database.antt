-- ===== src/Tests/Database.antt =====
-- A small database, its calls and its transactions.
use gmaildigest_go.Prelude.{any, ℕ, ◌≡◌, refl, true, false, List, [], ◌∷◌, none}
use gmaildigest_go.Prelude.Int.{pos}
use gmaildigest_go.Prelude.Text.{codes, text_dec}
use gmaildigest_go.Prelude.Results.{ok, err}
use gmaildigest_go.Cron.Calendar.{hour}
use gmaildigest_go.Storage.Database.{UserRow, Database, insert_user, upsert_token, replace_email}
use gmaildigest_go.Storage.Database.{replace_token}
use gmaildigest_go.Storage.Keys.{IsDatabase}
use gmaildigest_go.Storage.Sqlite.{
  Call, bad_interval, database_failed, validate_input, exec, exec_insert_user, create_user,
}
use gmaildigest_go.Storage.Cleanup.{
  delete_inactive, delete_tokens_of, delete_users, cleanup_inactive_users, cutoff,
}
use gmaildigest_go.Storage.Cleanup.Retention.{IsOwned, IsRemoval, cleanup_inactive_users-IsRemoval}
use gmaildigest_go.Storage.History.{
  Action, TxCall, calls, transacts, creates_user, restores_backup, stores_token, marks_email,
  cleans_users, commits, rolls_back, tx_stores_token, tx_marks_email, tx_run, run,
}
use gmaildigest_go.Storage.Sqlite
use gmaildigest_go.Storage.Sqlite.{validate_token_input}
use gmaildigest_go.Storage.Metrics.{Metrics, count_all, get_metrics}
use gmaildigest_go.Storage.Cleanup.{owner_is, cleanup_invalid_tokens}
use gmaildigest_go.Storage.History.{act, apply}
use gmaildigest_go.Storage.History.Unmarked.{run-IsUnmarked}
use gmaildigest_go.Storage.History.Atomic.{published, tx_run-published}
use gmaildigest_go.Storage.History.Keyed.{run-IsDatabase}
use gmaildigest_go.Storage.Connection.{no_tables}
use gmaildigest_go.Tests.Backup.{all_succeed}

abbrev empty : Database
empty = record { users = []; tokens = []; emails = []; versions = [] }

empty-IsDatabase : IsDatabase empty
empty-IsDatabase = record { users = tt; tokens = tt; emails = tt }

abbrev live : ℕ → Call
live now = record { now = now; fails = false }

abbrev dead : ℕ → Call
dead now = record { now = now; fails = true }

abbrev ann : UserRow
ann = record {
  telegram_id = pos 7;
  gmail_user_id = codes "ann";
  google_token_valid = true;
  digest_interval = pos 3600;
  last_digest_sent = none;
  created_at = 100;
  updated_at = 100;
}

abbrev bob : UserRow
bob = record ann { telegram_id = pos 8; gmail_user_id = codes "bob"; updated_at = 9000 }

abbrev two_users : Database
two_users = record empty {
  users = ann ∷ bob ∷ [];
  tokens =
      record {
        user_id = codes "ann";
        encrypted_token = codes "a";
        nonce = codes "n";
        created_at = 100;
        updated_at = 100;
      }
      ∷ record {
        user_id = codes "bob";
        encrypted_token = codes "b";
        nonce = codes "n";
        created_at = 100;
        updated_at = 100;
      }
      ∷ [];
}

-- The interval of the message is a duration; one of no length is refused.
no_interval : create_user (live 5) empty (pos 7) (codes "ann") (pos 0) ≡ err bad_interval
unfolding create_user validate_input
no_interval = refl

-- An interval under a second is kept as none.
abbrev brief : Database
brief = record empty {
  users =
      record ann {
        google_token_valid = false;
        digest_interval = pos 0;
        created_at = 5;
        updated_at = 5;
      }
      ∷ [];
}

brief_created : create_user (live 5) empty (pos 7) (codes "ann") (pos 1000) ≡ ok brief
unfolding create_user validate_input exec_insert_user insert_user
brief_created = refl

abbrev hour_of_inactivity : Database
hour_of_inactivity = record two_users {
  users = bob ∷ [];
  tokens =
      record {
        user_id = codes "bob";
        encrypted_token = codes "b";
        nonce = codes "n";
        created_at = 100;
        updated_at = 100;
      }
      ∷ [];
}

ann_removed :
    cleanup_inactive_users (live 10000) (live 10000) two_users (pos hour)
    ≡ ok (hour_of_inactivity, 1)
unfolding cleanup_inactive_users delete_inactive delete_tokens_of delete_users text_dec
ann_removed = refl

-- Where the second statement fails, nothing is removed.
not_removed :
    cleanup_inactive_users (live 10000) (dead 10000) two_users (pos hour) ≡ err database_failed
unfolding cleanup_inactive_users
not_removed = refl

two_users-IsOwned : IsOwned two_users
unfolding text_dec
two_users-IsOwned = refl

cleanup_inactive_users-IsRemoval_example :
    IsRemoval (cutoff 10000 (pos hour)) two_users hour_of_inactivity 1
cleanup_inactive_users-IsRemoval_example =
    cleanup_inactive_users-IsRemoval (live 10000) (live 10000) two_users hour_of_inactivity
      (pos hour) 1 refl two_users-IsOwned ann_removed

abbrev actions : List Action
actions =
    calls (creates_user (live 1) (pos 7) (codes "ann") (pos hour))
    ∷ calls (creates_user (live 2) (pos 7) (codes "eve") (pos hour))
    ∷ calls (stores_token (live 3) (codes "ann") (codes "x") (codes "n"))
    ∷ transacts (live 4)
        (tx_stores_token (live 4) (codes "ann") (codes "y") (codes "n") ∷ commits (live 5) ∷ [])
    ∷ calls (marks_email (live 6) (codes "m") (codes "ann"))
    ∷ calls (cleans_users (live 7) (dead 7) (pos hour))
    ∷ calls (restores_backup all_succeed ((codes "b", no_tables) ∷ []) none (codes "b"))
    ∷ []

two_users-IsDatabase : IsDatabase two_users
unfolding text_dec
two_users-IsDatabase = record {
  users = (refl, (refl, tt));
  tokens = (refl, (refl, tt));
  emails = tt;
}

run-IsDatabase_example : IsDatabase (run two_users actions)
run-IsDatabase_example = run-IsDatabase two_users actions two_users-IsDatabase

abbrev tx_calls : List TxCall
tx_calls =
    tx_stores_token (live 4) (codes "ann") (codes "y") (codes "n")
    ∷ tx_marks_email (live 4) (codes "m") (codes "ann")
    ∷ rolls_back (live 5)
    ∷ commits (live 6)
    ∷ []

-- A commit after a rollback publishes nothing.
rolled_back : published two_users two_users tx_calls ≡ two_users
unfolding published upsert_token exec replace_email text_dec
rolled_back = refl

tx_run-published_example :
    (tx_run (record { disk = two_users; work = two_users; closed = false }) tx_calls).disk
    ≡ published two_users two_users tx_calls
tx_run-published_example = tx_run-published two_users two_users tx_calls

-- Ann signs up and stores a token.
abbrev signs_up : List Action
signs_up =
    calls (creates_user (live 1) (pos 7) (codes "ann") (pos hour))
    ∷ calls (stores_token (live 3) (codes "ann") (codes "x") (codes "n"))
    ∷ []

abbrev ann_alone : Database
ann_alone = record empty {
  users = record ann { google_token_valid = false; created_at = 1; updated_at = 1 } ∷ [];
}

abbrev counted : Metrics
counted = record {
  total_users = 1;
  active_users = 0;
  processed_emails = 0;
  valid_tokens = 0;
  collected_at = 9;
}

ann_counted : get_metrics (live 9) 9 (run empty signs_up) ≡ ok counted
unfolding get_metrics count_all run act apply create_user validate_input exec_insert_user
    insert_user Sqlite.store_token validate_token_input exec replace_token text_dec
ann_counted = refl

ann_loses_token : cleanup_invalid_tokens (live 9) (run empty signs_up) ≡ ok (ann_alone, 1)
unfolding cleanup_invalid_tokens delete_tokens_of run act apply create_user validate_input
    exec_insert_user insert_user Sqlite.store_token validate_token_input exec replace_token text_dec
ann_loses_token = refl

run-IsUnmarked_example :
    (counted.active_users ≡ 0)
    × (counted.valid_tokens ≡ 0)
    × (any (owner_is (λ u. true) ann_alone.users) ann_alone.tokens ≡ false)
run-IsUnmarked_example =
    run-IsUnmarked empty ann_alone signs_up (live 9) (live 9) 9 counted 1 refl ann_counted
      ann_loses_token
