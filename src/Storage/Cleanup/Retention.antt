-- ===== src/Storage/Cleanup/Retention.antt =====
-- What the removal of inactive users leaves.
use gmaildigest_go.Prelude.{
  ℕ, ◌+◌, ◌≡◌, refl, sym, ◌∙◌, ap, subst, Bool, true, false, not, List, [], ◌∷◌, any, arith, length,
}
use gmaildigest_go.Prelude.Int.{ℤ}
use gmaildigest_go.Prelude.Results.{ok}
use gmaildigest_go.Prelude.Rows.{keep, length-keep, count_where-not}
use gmaildigest_go.Storage.Database.{Stamp, UserRow, TokenRow, Database}
use gmaildigest_go.Storage.Sqlite.{Call}
use gmaildigest_go.Storage.Cleanup.{
  owner_is, is_inactive, cutoff, delete_tokens_of, delete_users, delete_inactive,
  cleanup_inactive_users,
}

-- No user has the token.
abbrev pub is_orphan : List UserRow → TokenRow → Bool
is_orphan us t = not (owner_is (λ u. true) us t)

-- Every token belongs to a user.
abbrev pub IsOwned : Database → Type 0
IsOwned db = any (is_orphan db.users) db.tokens ≡ false

owner_is-keep :
    (p : UserRow → Bool) (us : List UserRow) (t : TokenRow)
    → owner_is p us t ≡ false
    → is_orphan us t ≡ false
    → is_orphan (keep (λ u. not (p u)) us) t ≡ false
owner_is-keep p [] t h k = k
owner_is-keep p (u ∷ us) t h k = ground (arith, owner_is-keep p us t)

any-orphan :
    (p : UserRow → Bool) (us : List UserRow) (ts : List TokenRow)
    → any (is_orphan us) ts ≡ false
    → any (is_orphan (keep (λ u. not (p u)) us)) (keep (λ t. not (owner_is p us t)) ts) ≡ false
any-orphan p us [] h = refl
any-orphan p us (t ∷ ts) h = ground (arith, any-orphan p us ts, owner_is-keep p us t)

cleanup_inactive_users-eq :
    (c c' : Call) (db : Database) (period : ℤ) {r : Database × ℕ}
    → cleanup_inactive_users c c' db period ≡ ok r
    → delete_inactive (cutoff c.now period) (cutoff c'.now period) db ≡ r
unfolding cleanup_inactive_users
cleanup_inactive_users-eq c c' db period h = ground arith

-- What a removal of inactive users before a time leaves, with the number of users it reports.
pub record IsRemoval (limit : Stamp) (db db' : Database) (n : ℕ) : Type 0 where
  -- The users that are not inactive stay, in their order.
  pub users : db'.users ≡ keep (λ u. not (is_inactive limit u)) db.users
  pub removed : n + length db'.users ≡ length db.users
  pub emails : db'.emails ≡ db.emails
  pub owned : IsOwned db'

delete_inactive-IsRemoval :
    (limit : Stamp) (db : Database)
    → IsOwned db
    → IsRemoval limit db (delete_inactive limit limit db).0 (delete_inactive limit limit db).1
unfolding delete_inactive delete_users delete_tokens_of
delete_inactive-IsRemoval limit db k = record {
  users = refl;
  removed =
      rw (length-keep (λ u. not (is_inactive limit u)) db.users)
        (count_where-not (is_inactive limit) db.users);
  emails = refl;
  owned = any-orphan (is_inactive limit) db.users db.tokens k;
}

-- Where both statements of the removal of inactive users read the same second: exactly the users not
-- updated within the period go, the number of them is returned, the processed emails stay, and if
-- every token belonged to a user, every token still does.
pub cleanup_inactive_users-IsRemoval :
    (c c' : Call) (db db' : Database) (period : ℤ) (n : ℕ)
    → c.now ≡ c'.now
    → IsOwned db
    → cleanup_inactive_users c c' db period ≡ ok (db', n)
    → IsRemoval (cutoff c'.now period) db db' n
cleanup_inactive_users-IsRemoval c c' db db' period n same k h =
    let e = cleanup_inactive_users-eq c c' db period h in
    let at_once = ap (λ now. delete_inactive (cutoff now period) (cutoff c'.now period) db) same in
    subst (λ r. IsRemoval (cutoff c'.now period) db r.0 r.1) (sym at_once ∙ e)
      (delete_inactive-IsRemoval (cutoff c'.now period) db k)
