-- ===== src/Storage/Keys.antt =====
-- The keys of the tables, which every statement keeps.
use gmaildigest_go.Prelude.{
  ◌≡◌, refl, sym, ◌∙◌, Bool, false, not, List, [], ◌∷◌, some, any, arith, Bool-cases, inl, inr,
  carry,
}
use gmaildigest_go.Prelude.Int.{ℤ}
use gmaildigest_go.Prelude.Text.{Text, eqt}
use gmaildigest_go.Prelude.Rows.{keep, Distinct, Distinct-keep, Distinct-append, Distinct-change}
use gmaildigest_go.Storage.Database.{
  Stamp, UserRow, TokenRow, EmailRow, Database, eqz, user_clash, token_clash, email_clash,
  insert_user, update_interval, set_interval, has_telegram_id, replace_token, upsert_token,
  owns_token, set_token, token_row, delete_token_rows, replace_email, is_email,
}

-- The keys of the three tables are unique.
pub record IsDatabase (db : Database) : Type 0 where
  pub users : Distinct user_clash db.users
  pub tokens : Distinct token_clash db.tokens
  pub emails : Distinct email_clash db.emails

eqt_comm : (a b : Text) → eqt a b ≡ eqt b a
eqt_comm a b = ground arith

eqz_comm : (a b : ℤ) → eqz a b ≡ eqz b a
eqz_comm a b = ground arith

user_clash_comm : (a b : UserRow) → user_clash a b ≡ user_clash b a
user_clash_comm a b =
    rw (eqz_comm a.telegram_id b.telegram_id, eqt_comm a.gmail_user_id b.gmail_user_id) refl

token_clash_comm : (a b : TokenRow) → token_clash a b ≡ token_clash b a
token_clash_comm a b = eqt_comm a.user_id b.user_id

email_clash_comm : (a b : EmailRow) → email_clash a b ≡ email_clash b a
email_clash_comm a b = rw (eqt_comm a.message_id b.message_id, eqt_comm a.user_id b.user_id) refl

-- After a deletion no row satisfies the condition.
pub any-keep-not {ℓ} :
    {A : Type ℓ} (q p : A → Bool) (xs : List A)
    → ((x : A) → q x ≡ p x)
    → any q (keep (λ x. not (p x)) xs) ≡ false
any-keep-not q p [] h = refl
any-keep-not q p (x ∷ xs) h = ground (arith, h x, any-keep-not q p xs h)

pub insert_user-IsDatabase :
    (u : UserRow) (db : Database) {db' : Database}
    → IsDatabase db
    → insert_user u db ≡ some db'
    → IsDatabase db'
unfolding insert_user
insert_user-IsDatabase u db {db'} k h = elim (Bool-cases (any (user_clash u) db.users)) [
  | inl taken ↦ absurd (ground arith)
  | inr free ↦ carry IsDatabase (rw free at h) (record {
    users = Distinct-append user_clash db.users u user_clash_comm k.users free;
    tokens = k.tokens;
    emails = k.emails;
  })
]

pub update_interval-IsDatabase :
    (now : Stamp) (i secs : ℤ) (db : Database)
    → IsDatabase db
    → IsDatabase (update_interval now i secs db).0
unfolding update_interval
update_interval-IsDatabase now i secs db k = record {
  users =
      Distinct-change user_clash (has_telegram_id i) (set_interval now secs) db.users (λ b c. refl)
        (λ b c. refl) k.users;
  tokens = k.tokens;
  emails = k.emails;
}

pub replace_token-IsDatabase :
    (now : Stamp) (user token nonce : Text) (db : Database)
    → IsDatabase db
    → IsDatabase (replace_token now user token nonce db)
unfolding replace_token
replace_token-IsDatabase now user token nonce db k = record {
  users = k.users;
  tokens =
      Distinct-append token_clash (keep (λ t. not (owns_token user t)) db.tokens)
        (token_row now user token nonce) token_clash_comm
        (Distinct-keep token_clash (λ t. not (owns_token user t)) db.tokens k.tokens)
        (any-keep-not _ (owns_token user) db.tokens (λ t. eqt_comm user t.user_id));
  emails = k.emails;
}

any_comm :
    (user : Text) (ts : List TokenRow) → any (owns_token user) ts ≡ any (λ t. eqt user t.user_id) ts
any_comm user [] = refl
any_comm user (t ∷ ts) = rw (eqt_comm t.user_id user, any_comm user ts) refl

pub upsert_token-IsDatabase :
    (now : Stamp) (user token nonce : Text) (db : Database)
    → IsDatabase db
    → IsDatabase (upsert_token now user token nonce db)
unfolding upsert_token
upsert_token-IsDatabase now user token nonce db k = record {
  users = k.users;
  tokens = elim (Bool-cases (any (owns_token user) db.tokens)) [
    | inl old ↦ rw old (
        Distinct-change token_clash (owns_token user) (set_token now token nonce) db.tokens
          (λ b c. refl) (λ b c. refl) k.tokens)
    | inr new ↦ rw new (
        Distinct-append token_clash db.tokens (token_row now user token nonce) token_clash_comm
          k.tokens (sym (any_comm user db.tokens) ∙ new))
  ];
  emails = k.emails;
}

pub delete_token_rows-IsDatabase :
    (user : Text) (db : Database) → IsDatabase db → IsDatabase (delete_token_rows user db)
unfolding delete_token_rows
delete_token_rows-IsDatabase user db k = record {
  users = k.users;
  tokens = Distinct-keep token_clash (λ t. not (owns_token user t)) db.tokens k.tokens;
  emails = k.emails;
}

pub replace_email-IsDatabase :
    (now : Stamp) (message user : Text) (db : Database)
    → IsDatabase db
    → IsDatabase (replace_email now message user db)
unfolding replace_email
replace_email-IsDatabase now message user db k = record {
  users = k.users;
  tokens = k.tokens;
  emails =
      Distinct-append email_clash (keep (λ e. not (is_email message user e)) db.emails) _
        email_clash_comm
        (Distinct-keep email_clash (λ e. not (is_email message user e)) db.emails k.emails)
        (any-keep-not _ (is_email message user) db.emails
          (λ e. rw (eqt_comm message e.message_id, eqt_comm user e.user_id) refl));
}
