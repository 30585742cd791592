-- ===== src/Storage/History/Atomic.antt =====
-- Transactions are atomic.
use gmaildigest_go.Prelude.{
  ℕ, ◌≡◌, refl, ◌∙◌, true, false, List, [], ◌∷◌, if◌then◌else◌, Bool-cases, inl, inr, ap,
}
use gmaildigest_go.Prelude.Int.{ℤ, pos, leb_ℤ}
use gmaildigest_go.Prelude.Results.{Result, ok, err}
use gmaildigest_go.Storage.Database.{Database, upsert_token, replace_email}
use gmaildigest_go.Storage.Sqlite.{StorageError, Call, exec, exec_insert_user, exec_update_user}
use gmaildigest_go.Storage.Cleanup.{
  deleted, delete_users, delete_tokens_of, is_inactive, cutoff, cleanup_processed_emails,
  cleanup_invalid_tokens,
}
use gmaildigest_go.Storage.Transaction.{
  Transaction, commit, rollback, write, write_counted, tx_create_user, tx_update_user,
  tx_store_token, tx_mark_email_processed, tx_cleanup_processed_emails, tx_cleanup_invalid_tokens,
  tx_cleanup_inactive_users,
}
use gmaildigest_go.Storage.History.{
  after, after_deletion, TxCall, commits, rolls_back, tx_creates_user, tx_updates_user,
  tx_stores_token, tx_marks_email, tx_cleans_emails, tx_cleans_tokens, tx_cleans_users, tx_apply,
  tx_run,
}

-- The deletion of the users, on what the deletion of their tokens left.
abbrev pub users_deleted : Call → Call → ℤ → Database → Database
users_deleted c c' d db =
    let without = (delete_tokens_of (is_inactive (cutoff c.now d)) db).0 in
    if leb_ℤ d (pos 0)
    then db
    else if c.fails
    then db
    else after_deletion without (deleted c' (delete_users (is_inactive (cutoff c'.now d)) without))

-- What the calls of a transaction make of a database, each statement by itself, and the database
-- that is left when they end: the one at the first commit, if that succeeds before a rollback.
unfoldable pub published : Database → Database → List TxCall → Database
published d w [] = d
published d w (commits c ∷ xs) = if c.fails then d else w
published d w (rolls_back c ∷ xs) = d
published d w (tx_creates_user c i g t ∷ xs) = published d (after w (exec_insert_user c w i g t)) xs
published d w (tx_updates_user c i t ∷ xs) = published d (after w (exec_update_user c w i t)) xs
published d w (tx_stores_token c u k n ∷ xs) =
    published d (after w (exec c (upsert_token c.now u k n w))) xs
published d w (tx_marks_email c m u ∷ xs) =
    published d (after w (exec c (replace_email c.now m u w))) xs
published d w (tx_cleans_emails c t ∷ xs) =
    published d (after_deletion w (cleanup_processed_emails c w t)) xs
published d w (tx_cleans_tokens c ∷ xs) =
    published d (after_deletion w (cleanup_invalid_tokens c w)) xs
published d w (tx_cleans_users c c' t ∷ xs) = published d (users_deleted c c' t w) xs

abbrev opened : Database → Database → Transaction
opened d w = record { disk = d; work = w; closed = false }

abbrev shut : Database → Database → Transaction
shut d w = record { disk = d; work = w; closed = true }

write-after :
    (d w : Database) (r : Result StorageError Database)
    → (write (opened d w) r).0 ≡ opened d (after w r)
write-after d w (ok u) = refl
write-after d w (err e) = refl

write_counted-after :
    (d w : Database) (r : Result StorageError (Database × ℕ))
    → (write_counted (opened d w) r).0 ≡ opened d (after_deletion w r)
write_counted-after d w (ok (u, n)) = refl
write_counted-after d w (err e) = refl

-- A closed transaction stays as it is, whatever is called.
pub tx_apply-shut : (d w : Database) (x : TxCall) → tx_apply (shut d w) x ≡ shut d w
unfolding tx_apply commit rollback tx_create_user tx_update_user tx_store_token
    tx_mark_email_processed tx_cleanup_processed_emails tx_cleanup_invalid_tokens
    tx_cleanup_inactive_users
tx_apply-shut d w (commits c) = refl
tx_apply-shut d w (rolls_back c) = refl
tx_apply-shut d w (tx_creates_user c i g t) = refl
tx_apply-shut d w (tx_updates_user c i t) = refl
tx_apply-shut d w (tx_stores_token c u k n) = refl
tx_apply-shut d w (tx_marks_email c m u) = refl
tx_apply-shut d w (tx_cleans_emails c t) = refl
tx_apply-shut d w (tx_cleans_tokens c) = refl
tx_apply-shut d w (tx_cleans_users c c' t) = refl

tx_run-shut : (d w : Database) (xs : List TxCall) → tx_run (shut d w) xs ≡ shut d w
unfolding tx_run
tx_run-shut d w [] = refl
tx_run-shut d w (x ∷ xs) = rw (tx_apply-shut d w x) (tx_run-shut d w xs)

users_deleted-after :
    (c c' : Call) (d w : Database) (t : ℤ)
    → (tx_cleanup_inactive_users c c' (opened d w) t).0 ≡ opened d (users_deleted c c' t w)
unfolding tx_cleanup_inactive_users
users_deleted-after c c' d w t = elim (Bool-cases (leb_ℤ t (pos 0))) [
  | inl bad ↦ rw bad refl
  | inr good ↦ rw good (elim (Bool-cases c.fails) [
    | inl f ↦ rw f refl
    | inr g ↦ rw g (
        write_counted-after d (delete_tokens_of (is_inactive (cutoff c.now t)) w).0 (
          deleted c' (
            delete_users (is_inactive (cutoff c'.now t))
              (delete_tokens_of (is_inactive (cutoff c.now t)) w).0)))
  ])
]

-- What other connections see of a transaction: through any sequence of calls, the file holds what
-- it held before, until the first commit or rollback. If that is a commit that succeeds, the file
-- holds from then on what the statements before it made of it, one by one; otherwise it holds what it
-- held before, for ever.
pub tx_run-published :
    (d w : Database) (xs : List TxCall)
    → (tx_run (record { disk = d; work = w; closed = false }) xs).disk ≡ published d w xs
unfolding tx_run tx_apply published commit rollback tx_create_user tx_update_user tx_store_token
    tx_mark_email_processed tx_cleanup_processed_emails tx_cleanup_invalid_tokens
tx_run-published d w [] = refl
tx_run-published d w (commits c ∷ xs) = elim (Bool-cases c.fails) [
  | inl f ↦ rw f (ap (λ t. t.disk) (tx_run-shut d w xs))
  | inr g ↦ rw g (ap (λ t. t.disk) (tx_run-shut w w xs))
]
tx_run-published d w (rolls_back c ∷ xs) = elim (Bool-cases c.fails) [
  | inl f ↦ rw f (ap (λ t. t.disk) (tx_run-shut d w xs))
  | inr g ↦ rw g (ap (λ t. t.disk) (tx_run-shut d w xs))
]
tx_run-published d w (tx_creates_user c i g t ∷ xs) =
    ap (λ o. (tx_run o xs).disk) (write-after d w (exec_insert_user c w i g t))
    ∙ tx_run-published d (after w (exec_insert_user c w i g t)) xs
tx_run-published d w (tx_updates_user c i t ∷ xs) =
    ap (λ o. (tx_run o xs).disk) (write-after d w (exec_update_user c w i t))
    ∙ tx_run-published d (after w (exec_update_user c w i t)) xs
tx_run-published d w (tx_stores_token c u k n ∷ xs) =
    ap (λ o. (tx_run o xs).disk) (write-after d w (exec c (upsert_token c.now u k n w)))
    ∙ tx_run-published d (after w (exec c (upsert_token c.now u k n w))) xs
tx_run-published d w (tx_marks_email c m u ∷ xs) =
    ap (λ o. (tx_run o xs).disk) (write-after d w (exec c (replace_email c.now m u w)))
    ∙ tx_run-published d (after w (exec c (replace_email c.now m u w))) xs
tx_run-published d w (tx_cleans_emails c t ∷ xs) =
    ap (λ o. (tx_run o xs).disk) (write_counted-after d w (cleanup_processed_emails c w t))
    ∙ tx_run-published d (after_deletion w (cleanup_processed_emails c w t)) xs
tx_run-published d w (tx_cleans_tokens c ∷ xs) =
    ap (λ o. (tx_run o xs).disk) (write_counted-after d w (cleanup_invalid_tokens c w))
    ∙ tx_run-published d (after_deletion w (cleanup_invalid_tokens c w)) xs
tx_run-published d w (tx_cleans_users c c' t ∷ xs) =
    ap (λ o. (tx_run o xs).disk) (users_deleted-after c c' d w t)
    ∙ tx_run-published d (users_deleted c c' t w) xs
