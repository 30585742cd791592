-- ===== src/Storage/History/Kept.antt =====
-- What every statement preserves holds through every history.
use gmaildigest_go.Prelude.{Bool, true, false, List, [], ◌∷◌, if◌then◌else◌}
use gmaildigest_go.Prelude.Int.{ℤ, pos, leb_ℤ}
use gmaildigest_go.Prelude.Results.{ok, err}
use gmaildigest_go.Storage.Database.{Database, upsert_token, replace_email}
use gmaildigest_go.Storage.Sqlite.{Call, exec, exec_insert_user, exec_update_user, database_failed}
use gmaildigest_go.Storage.Cleanup.{
  is_inactive, cutoff, cleanup_processed_emails, cleanup_invalid_tokens,
}
use gmaildigest_go.Storage.Transaction.{begin_tx}
use gmaildigest_go.Storage.History.{
  Action, calls, transacts, disk_after, after, after_deletion, act, run, TxCall, commits,
  rolls_back, tx_creates_user, tx_updates_user, tx_stores_token, tx_marks_email, tx_cleans_emails,
  tx_cleans_tokens, tx_cleans_users,
}
use gmaildigest_go.Storage.History.Sound.{
  after-Sound, after_deletion-Sound, apply_kept, IsPreserved, exec-Sound, exec_insert_user-Sound,
  exec_update_user-Sound, deleted-Sound, cleanup_processed_emails-Sound,
  cleanup_invalid_tokens-Sound,
}
use gmaildigest_go.Storage.History.Atomic.{users_deleted, published, tx_run-published}

module _ (P : Database → Type 0) (p : IsPreserved P) where
  if_kept : (b : Bool) (x y : Database) → P x → P y → P (if b then x else y)
  if_kept true x y h k = h
  if_kept false x y h k = k

  users_deleted_kept : (c c' : Call) (t : ℤ) (db : Database) → P db → P (users_deleted c c' t db)
  users_deleted_kept c c' t db k =
      let without = p.cleans_tokens (is_inactive (cutoff c.now t)) db k in
      if_kept (leb_ℤ t (pos 0)) db _ k (
        if_kept c.fails db _ k (
          after_deletion-Sound P p _ _ without
            (deleted-Sound P p c' _ (p.cleans_users (is_inactive (cutoff c'.now t)) _ without))))

  published_kept : (d w : Database) (xs : List TxCall) → P d → P w → P (published d w xs)
  unfolding published
  published_kept d w [] h k = h
  published_kept d w (commits c ∷ xs) h k = if_kept c.fails d w h k
  published_kept d w (rolls_back c ∷ xs) h k = h
  published_kept d w (tx_creates_user c i g t ∷ xs) h k =
      published_kept d (after w (exec_insert_user c w i g t)) xs h
        (after-Sound P p w _ k (exec_insert_user-Sound P p c w i g t k))
  published_kept d w (tx_updates_user c i t ∷ xs) h k =
      published_kept d (after w (exec_update_user c w i t)) xs h
        (after-Sound P p w _ k (exec_update_user-Sound P p c w i t k))
  published_kept d w (tx_stores_token c u t n ∷ xs) h k =
      published_kept d (after w (exec c (upsert_token c.now u t n w))) xs h
        (after-Sound P p w _ k (exec-Sound P p c _ (p.upserts c.now u t n w k)))
  published_kept d w (tx_marks_email c m u ∷ xs) h k =
      published_kept d (after w (exec c (replace_email c.now m u w))) xs h
        (after-Sound P p w _ k (exec-Sound P p c _ (p.marks c.now m u w k)))
  published_kept d w (tx_cleans_emails c t ∷ xs) h k =
      published_kept d (after_deletion w (cleanup_processed_emails c w t)) xs h
        (after_deletion-Sound P p w _ k (cleanup_processed_emails-Sound P p c w t k))
  published_kept d w (tx_cleans_tokens c ∷ xs) h k =
      published_kept d (after_deletion w (cleanup_invalid_tokens c w)) xs h
        (after_deletion-Sound P p w _ k (cleanup_invalid_tokens-Sound P p c w k))
  published_kept d w (tx_cleans_users c c' t ∷ xs) h k =
      published_kept d (users_deleted c c' t w) xs h (users_deleted_kept c c' t w k)

  act_kept : (db : Database) (a : Action) → P db → P (act db a)
  unfolding act begin_tx
  act_kept db (calls x) k = apply_kept P p db x k
  act_kept db (transacts c xs) k = from c.fails
    where
      from :
          (b : Bool)
          → P (
              disk_after db xs (
                if b
                then err database_failed
                else ok (record { disk = db; work = db; closed = false })))
      from true = k
      from false = rw (tx_run-published db db xs) (published_kept db db xs k k)

  -- Through every history of calls and transactions.
  pub run_kept : (db : Database) (xs : List Action) → P db → P (run db xs)
  unfolding run
  run_kept db [] k = k
  run_kept db (a ∷ xs) k = run_kept (act db a) xs (act_kept db a k)
