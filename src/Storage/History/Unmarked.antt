-- ===== src/Storage/History/Unmarked.antt =====
-- Which users ever count as having a valid token.
use gmaildigest_go.Prelude.{
  ℕ, ◌≡◌, refl, subst, ◌∙◌, true, false, not, ◌&&◌, List, [], ◌∷◌, ◌++◌, some, any, arith,
  Bool-cases, inl, inr,
}
use gmaildigest_go.Prelude.Int.{ℤ}
use gmaildigest_go.Prelude.Text.{Text, eqt}
use gmaildigest_go.Prelude.Results.{ok}
use gmaildigest_go.Prelude.Rows.{keep, change, count_where, any-keep, any-append}
use gmaildigest_go.Cron.Calendar.{Time}
use gmaildigest_go.Storage.Database.{
  Stamp, UserRow, TokenRow, Database, user_clash, has_telegram_id, set_interval, new_user,
  insert_user, update_interval, replace_token, upsert_token, delete_token_rows, replace_email,
}
use gmaildigest_go.Storage.Sqlite.{Call}
use gmaildigest_go.Storage.Cleanup.{
  owner_is, is_invalid, delete_old_emails, delete_tokens_of, delete_users, cleanup_invalid_tokens,
}
use gmaildigest_go.Storage.Metrics.{Metrics, is_valid_user, joined, count_all, get_metrics}
use gmaildigest_go.Storage.Metrics.Counts.{get_metrics-eq}
use gmaildigest_go.Storage.History.{Action, run}
use gmaildigest_go.Storage.History.Sound.{IsPreserved}
use gmaildigest_go.Storage.History.Kept.{run_kept}

-- No user is marked as having a valid token.
abbrev pub IsUnmarked : Database → Type 0
IsUnmarked db = any is_valid_user db.users ≡ false

insert_user-IsUnmarked :
    (now : Stamp) (i : ℤ) (g : Text) (secs : ℤ) (db : Database) {db' : Database}
    → IsUnmarked db
    → insert_user (new_user now i g secs) db ≡ some db'
    → IsUnmarked db'
unfolding insert_user
insert_user-IsUnmarked now i g secs db {db'} k h =
    elim (Bool-cases (any (user_clash (new_user now i g secs)) db.users)) [
      | inl taken ↦ absurd (ground arith)
      | inr free ↦
          let same : record db { users = db.users ++ new_user now i g secs ∷ [] } ≡ db' =
            ground arith in
          rw (← same) (any-append is_valid_user db.users (new_user now i g secs ∷ []) ∙ rw k refl)
    ]

any-change_interval :
    (now : Stamp) (i secs : ℤ) (us : List UserRow)
    → any is_valid_user us ≡ false
    → any is_valid_user (change (has_telegram_id i) (set_interval now secs) us) ≡ false
any-change_interval now i secs [] h = refl
any-change_interval now i secs (u ∷ us) h = ground (arith, any-change_interval now i secs us)

IsUnmarked-IsPreserved : IsPreserved IsUnmarked
unfolding update_interval replace_token upsert_token delete_token_rows replace_email
    delete_old_emails delete_tokens_of delete_users
IsUnmarked-IsPreserved = record {
  inserts = insert_user-IsUnmarked;
  updates = λ now i secs db k. any-change_interval now i secs db.users k;
  replaces = λ now user token nonce db k. k;
  upserts = λ now user token nonce db k. k;
  deletes = λ user db k. k;
  marks = λ now message user db k. k;
  cleans_emails = λ limit db k. k;
  cleans_tokens = λ p db k. k;
  cleans_users = λ p db k. any-keep is_valid_user (λ u. not (p u)) db.users k;
}

none_counted : (us : List UserRow) → any is_valid_user us ≡ false → count_where is_valid_user us ≡ 0
none_counted [] h = refl
none_counted (u ∷ us) h = ground (arith, none_counted us)

none_owned :
    (t : TokenRow) (us : List UserRow)
    → any is_valid_user us ≡ false
    → count_where (λ u. eqt t.user_id u.gmail_user_id && is_valid_user u) us ≡ 0
none_owned t [] h = refl
none_owned t (u ∷ us) h = ground (arith, none_owned t us)

none_joined :
    (ts : List TokenRow) (us : List UserRow)
    → any is_valid_user us ≡ false
    → joined (λ t u. is_valid_user u) ts us ≡ 0
none_joined [] us h = refl
none_joined (t ∷ ts) us h = omega (arith, none_owned t us h, none_joined ts us h)

-- Where nobody is marked, every owner counts as invalid.
owner_is-invalid :
    (t : TokenRow) (us : List UserRow)
    → any is_valid_user us ≡ false
    → owner_is is_invalid us t ≡ owner_is (λ u. true) us t
owner_is-invalid t [] h = refl
owner_is-invalid t (u ∷ us) h = ground (arith, owner_is-invalid t us)

none_left :
    (us : List UserRow) (ts : List TokenRow)
    → any is_valid_user us ≡ false
    → any (owner_is (λ u. true) us) (keep (λ t. not (owner_is is_invalid us t)) ts) ≡ false
none_left us [] h = refl
none_left us (t ∷ ts) h = ground (arith, none_left us ts, owner_is-invalid t us)

cleanup_invalid_tokens-eq :
    (c : Call) (db : Database) {r : Database × ℕ}
    → cleanup_invalid_tokens c db ≡ ok r
    → delete_tokens_of is_invalid db ≡ r
unfolding cleanup_invalid_tokens
cleanup_invalid_tokens-eq c db h = ground arith

deleted_all :
    (db : Database)
    → IsUnmarked db
    → any
        (owner_is (λ u. true) (delete_tokens_of is_invalid db).0.users)
        (delete_tokens_of is_invalid db).0.tokens
      ≡ false
unfolding delete_tokens_of
deleted_all db k = none_left db.users db.tokens k

counted_none :
    (now : Time) (db : Database)
    → IsUnmarked db
    → ((count_all now db).active_users ≡ 0) × ((count_all now db).valid_tokens ≡ 0)
unfolding count_all
counted_none now db k = (none_counted db.users k, none_joined db.tokens db.users k)

-- The bug: nothing marks a user's token as valid. After any sequence of the calls of the storage that
-- write users, tokens and emails, of backups and restores, and of whole transactions of such calls, on
-- a database where nobody is marked, the metrics show no active user and no valid token, and the
-- removal of invalid tokens removes the token of every user.
pub run-IsUnmarked :
    (db db' : Database) (xs : List Action) (c c' : Call) (now : Time) (m : Metrics) (n : ℕ)
    → IsUnmarked db
    → get_metrics c now (run db xs) ≡ ok m
    → cleanup_invalid_tokens c' (run db xs) ≡ ok (db', n)
    → (m.active_users ≡ 0)
      × (m.valid_tokens ≡ 0)
      × (any (owner_is (λ u. true) db'.users) db'.tokens ≡ false)
run-IsUnmarked db db' xs c c' now m n k h d =
    let unmarked = run_kept IsUnmarked IsUnmarked-IsPreserved db xs k in
    let (active, valid) = counted_none now (run db xs) unmarked in
    let counts = get_metrics-eq c now (run db xs) h in
    let left = cleanup_invalid_tokens-eq c' (run db xs) d in
    (
      rw (← counts) active,
      rw (← counts) valid,
      subst (λ r. any (owner_is (λ u. true) r.0.users) r.0.tokens ≡ false) left
          (deleted_all (run db xs) unmarked),
    )
