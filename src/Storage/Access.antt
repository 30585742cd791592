-- ===== src/Storage/Access.antt =====
-- What is read after a write.
use gmaildigest_go.Prelude.{
  ◌≡◌, refl, sym, Bool, true, false, not, ◌||◌, List, [], ◌∷◌, ◌++◌, Option, none, some, any, arith,
  if◌then◌else◌, Bool-cases, inl, inr,
}
use gmaildigest_go.Prelude.Int.{ℤ, pos, leb_ℤ}
use gmaildigest_go.Prelude.Text.{Text, eqt, is_empty}
use gmaildigest_go.Prelude.Results.{Result, ok, err}
use gmaildigest_go.Prelude.Rows.{keep, first}
use gmaildigest_go.Storage.Database.{
  Stamp, UserRow, Database, eqz, in_seconds, of_seconds, has_telegram_id, user_clash, new_user,
  insert_user, owns_token, token_row, replace_token,
}
use gmaildigest_go.Storage.Sqlite.{
  StorageError, Call, bad_telegram_id, validate_token_input, validate_input, when_valid, exec,
  store_token, get_token, select_token, create_user, exec_insert_user, get_user, select_user,
  scan_user,
}

pub first-append {ℓ} :
    {A : Type ℓ} (p : A → Bool) (xs : List A) (y : A)
    → any p xs ≡ false
    → first p (xs ++ y ∷ []) ≡ (if p y then some y else none)
first-append p [] y h = refl
first-append p (x ∷ xs) y h = ground (arith, first-append p xs y)

-- The first row of one key is not moved by a deletion and an insertion of another.
first-other {ℓ} :
    {A : Type ℓ} (p q : A → Bool) (xs : List A) (y : A)
    → ((x : A) → q x ≡ true → p x ≡ false)
    → p y ≡ false
    → first p (keep (λ x. not (q x)) xs ++ y ∷ []) ≡ first p xs
first-other p q [] y h k = rw k refl
first-other p q (x ∷ xs) y h k = ground (arith, h x, first-other p q xs y h k)

any-keep_self {ℓ} :
    {A : Type ℓ} (p : A → Bool) (xs : List A) → any p (keep (λ x. not (p x)) xs) ≡ false
any-keep_self p [] = refl
any-keep_self p (x ∷ xs) = ground (arith, any-keep_self p xs)

pub eqt_refl : (a : Text) → eqt a a ≡ true
eqt_refl a = ground arith

eqt-true : (a b : Text) → eqt a b ≡ true → a ≡ b
eqt-true a b h = ground arith

eqt_apart : (a b c : Text) → eqt b c ≡ false → eqt a b ≡ true → eqt a c ≡ false
eqt_apart a b c h k = ground arith

-- A read of the tokens after the statement of `StoreToken`.
pub select_token-replace_token :
    (now : Stamp) (user token nonce other : Text) (db : Database)
    → select_token (replace_token now user token nonce db) other
      ≡ (if eqt user other then ok (token, nonce) else select_token db other)
unfolding select_token replace_token
select_token-replace_token now user token nonce other db = elim (Bool-cases (eqt user other)) [
  | inl same ↦
      rw
        (
          same,
          ← eqt-true user other same,
          first-append (owns_token user) (keep (λ t. not (owns_token user t)) db.tokens)
              (token_row now user token nonce) (any-keep_self (owns_token user) db.tokens),
          eqt_refl user,
        )
        refl
  | inr apart ↦
      rw
        (
          apart,
          first-other (owns_token other) (owns_token user) db.tokens
              (token_row now user token nonce) (λ t. eqt_apart t.user_id user other apart) apart,
        )
        refl
]

exec-eq : (c : Call) (db : Database) {u : Database} → exec c db ≡ ok u → db ≡ u
unfolding exec
exec-eq c db {u} h = ground arith

when_valid-eq {ℓ} :
    {A : Type ℓ} (v : Result StorageError (Unit {0})) (r : Result StorageError A) {a : A}
    → when_valid v r ≡ ok a
    → (v ≡ ok tt) × (r ≡ ok a)
when_valid-eq (ok x) r h = (refl, h)
when_valid-eq (err e) r h = absurd (cc)

validate_token_input-named :
    (user token nonce : Text)
    → validate_token_input user token nonce ≡ ok tt
    → is_empty user ≡ false
unfolding validate_token_input
validate_token_input-named user token nonce h = ground arith

-- The two tests of a read can be made in either order, since the user is not empty.
if_apart {ℓ} :
    {A : Type ℓ} (user other : Text) (x y z : A)
    → is_empty user ≡ false
    → (if is_empty other then x else if eqt user other then y else z)
      ≡ (if eqt user other then y else if is_empty other then x else z)
if_apart user other x y z named = elim (Bool-cases (eqt user other)) [
  | inl same ↦ rw (same, ← eqt-true user other same, named) refl
  | inr apart ↦ rw apart refl
]

-- After a token was stored, a read for its user returns it with its nonce, and a read for any other
-- user what it returned before.
pub get_token-store_token :
    (c c' : Call) (db db' : Database) (user token nonce other : Text)
    → store_token c db user token nonce ≡ ok db'
    → c'.fails ≡ false
    → get_token c' db' other ≡ (if eqt user other then ok (token, nonce) else get_token c' db other)
unfolding store_token get_token validate_token_input
get_token-store_token c c' db db' user token nonce other h live =
    let (valid, done) = when_valid-eq (validate_token_input user token nonce) _ h in
    let same = exec-eq c (replace_token c.now user token nonce db) done in
    rw (← same, live, select_token-replace_token c.now user token nonce other db)
      (if_apart user other _ _ _ (validate_token_input-named user token nonce valid))

eqz_trans : (a b c : ℤ) → eqz a b ≡ true → eqz c b ≡ true → eqz a c ≡ true
eqz_trans a b c h k = ground arith

or_left : (a b : Bool) → (a || b) ≡ false → a ≡ false
or_left true b h = h
or_left false b h = refl

or_right : (a b : Bool) → (a || b) ≡ false → b ≡ false
or_right true b h = absurd (cc)
or_right false b h = h

clash_apart :
    (i : ℤ) (u v : UserRow)
    → user_clash u v ≡ false
    → eqz v.telegram_id i ≡ true
    → eqz u.telegram_id i ≡ false
clash_apart i u v h k = elim (Bool-cases (eqz u.telegram_id i)) [
  | inl e ↦
      let same = eqz_trans u.telegram_id i v.telegram_id e k in
      let free =
        or_left (eqz u.telegram_id v.telegram_id) (eqt u.gmail_user_id v.gmail_user_id) h in
      absurd (cc)
  | inr n ↦ n
]

first-append_user :
    (i : ℤ) (us : List UserRow) (u : UserRow)
    → any (user_clash u) us ≡ false
    → first (has_telegram_id i) (us ++ u ∷ [])
      ≡ (if eqz u.telegram_id i then some u else first (has_telegram_id i) us)
first-append_user i [] u h = refl
first-append_user i (v ∷ us) u h = elim (Bool-cases (eqz v.telegram_id i)) [
  | inl old ↦ rw (old, clash_apart i u v (or_left _ _ h) old) refl
  | inr other ↦ rw other (first-append_user i us u (or_right _ _ h))
]

exec_insert_user-eq :
    (c : Call) (db : Database) (i : ℤ) (g : Text) (interval : ℤ) {db' : Database}
    → exec_insert_user c db i g interval ≡ ok db'
    → (db' ≡ record db { users = db.users ++ new_user c.now i g (in_seconds interval) ∷ [] })
      × (any (user_clash (new_user c.now i g (in_seconds interval))) db.users ≡ false)
unfolding exec_insert_user insert_user
exec_insert_user-eq c db i g interval h = (sym (ground arith), ground arith)

validate_input-positive :
    (i : ℤ) (g : Text) (interval : ℤ)
    → validate_input i g interval ≡ ok tt
    → leb_ℤ i (pos 0) ≡ false
unfolding validate_input
validate_input-positive i g interval h = ground arith

eqz-positive :
    (i other : ℤ) → eqz i other ≡ true → leb_ℤ i (pos 0) ≡ false → leb_ℤ other (pos 0) ≡ false
eqz-positive i other h k = ground arith

if_positive :
    (i other : ℤ) (u : UserRow) (o : Option UserRow)
    → leb_ℤ i (pos 0) ≡ false
    → (if leb_ℤ other (pos 0)
        then err bad_telegram_id
        else scan_user (if eqz i other then some u else o))
      ≡ (if eqz i other
          then scan_user (some u)
          else if leb_ℤ other (pos 0)
          then err bad_telegram_id
          else scan_user o)
if_positive i other u o named = elim (Bool-cases (eqz i other)) [
  | inl same ↦ rw (same, eqz-positive i other same named) refl
  | inr apart ↦ rw apart refl
]

-- After a user was created, a read of the id returns the user, with no valid token, no digest sent,
-- the time of the creation, and the interval in whole seconds; a read of any other id returns what it
-- did before.
pub get_user-create_user :
    (c c' : Call) (db db' : Database) (i other : ℤ) (g : Text) (interval : ℤ)
    → create_user c db i g interval ≡ ok db'
    → c'.fails ≡ false
    → get_user c' db' other ≡ (
        if eqz i other
        then ok (record {
          telegram_id = i;
          gmail_user_id = g;
          digest_interval = of_seconds (in_seconds interval);
          last_digest_sent = none;
          token_valid = false;
          created_at = c.now;
          updated_at = c.now;
        })
        else get_user c' db other)
unfolding create_user get_user exec_insert_user insert_user select_user validate_input
get_user-create_user c c' db db' i other g interval h live =
    let (valid, done) = when_valid-eq (validate_input i g interval) _ h in
    let (same, free) = exec_insert_user-eq c db i g interval done in
    rw
      (same, live, first-append_user other db.users (new_user c.now i g (in_seconds interval)) free)
      (if_positive i other _ _ (validate_input-positive i g interval valid))
