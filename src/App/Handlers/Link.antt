-- ===== src/App/Handlers/Link.antt =====
-- The link that the Telegram bot sends.
use gmaildigest_go.Prelude.{
  ◌≡◌, refl, ◌∙◌, ap, true, false, List, [], ◌∷◌, some, any, Bool-cases, inl, inr,
}
use gmaildigest_go.Prelude.Int.{ℤ}
use gmaildigest_go.Prelude.Text.{Text, codes, is_empty}
use gmaildigest_go.Prelude.Rows.{first, change}
use gmaildigest_go.Settings.Numbers.{parse_int}
use gmaildigest_go.Settings.Numbers.Printed.{is_int64, parse_int-show_int}
use gmaildigest_go.Storage.Database.{Stamp}
use gmaildigest_go.Storage.Accounts.{
  Account, has_id, is_taken, set_telegram, update_user_telegram_details,
}
use gmaildigest_go.Digest.Telegram.{Incoming, link_token}
use gmaildigest_go.App.Middleware.{require_auth, served}
use gmaildigest_go.App.Handlers.{
  Application, Request, Moment, World, Reply, telegram_connect, handle_telegram_connect, serve,
  plain,
}

-- The user has an account with a chat of that id.
abbrev pub HasChat : List Account → Text → ℤ → Type 0
HasChat us user n =
    (a : Account) × (first (has_id user) us ≡ some a) × (a.telegram_chat_id ≡ some n)

first-change :
    (user : Text) (now : Stamp) (n : ℤ) (us : List Account)
    → any (has_id user) us ≡ true
    → HasChat (change (has_id user) (set_telegram now n n) us) user n
first-change user now n [] h = absurd (cc)
first-change user now n (a ∷ us) h = elim (Bool-cases (has_id user a)) [
  | inl same ↦ rw (same, same) (set_telegram now n n a, refl, refl)
  | inr other ↦ rw (other, other) (first-change user now n us (rw other at h))
]

-- A text that is a number is not empty.
parsed_full : (s : Text) {n : ℤ} → parse_int s ≡ some n → is_empty s ≡ false
unfolding parse_int
parsed_full [] h = absurd (cc)
parsed_full (c ∷ s) h = refl

-- A user who follows the link of the bot while signed in is connected: where the user has an account,
-- no other account has the Telegram id and the database works, the token of the link is accepted, and
-- the account then has the sender's id as its chat.
pub serve-link_token :
    {S : Type 0} (w : World S) (t : Moment) (a : Application S) (r : Request) (user : Text)
    (m : Incoming)
    → r.route ≡ telegram_connect
    → r.token ≡ link_token m
    → is_int64 m.from_id ≡ true
    → require_auth t.now a.sessions r.cookie ≡ served user
    → any (has_id user) a.accounts ≡ true
    → any (is_taken user m.from_id) a.accounts ≡ false
    → t.call.fails ≡ false
    → (us : List Account) × (reply : Reply) × (serve w t a r
        ≡ some (record a { accounts = us }, reply))
      × (reply.status ≡ 200)
      × HasChat us user m.from_id
unfolding serve handle_telegram_connect update_user_telegram_details
serve-link_token w t a r user m at_route link fits signed known free works =
    let number = ap parse_int link ∙ parse_int-show_int m.from_id fits in
    (
      change (has_id user) (set_telegram t.call.now m.from_id m.from_id) a.accounts,
      plain 200 (codes "Telegram account successfully connected! You can now close this window."),
      rw (at_route, signed, parsed_full r.token number, number, works, known, free) refl,
      refl,
      first-change user t.call.now m.from_id a.accounts known,
    )
