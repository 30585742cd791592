-- ===== src/Storage/Metrics/Counts.antt =====
-- How the counts of a database relate.
use gmaildigest_go.Prelude.{
  ℕ, ◌+◌, ◌≤◌, ◌≡◌, refl, true, false, List, [], ◌∷◌, any, arith, if◌then◌else◌,
}
use gmaildigest_go.Prelude.Text.{Text, eqt}
use gmaildigest_go.Prelude.Results.{ok}
use gmaildigest_go.Prelude.Rows.{count_where, count_where-le, Distinct}
use gmaildigest_go.Cron.Calendar.{Time}
use gmaildigest_go.Storage.Database.{UserRow, TokenRow, Database, token_clash, owns_token}
use gmaildigest_go.Storage.Keys.{IsDatabase}
use gmaildigest_go.Storage.Sqlite.{Call}
use gmaildigest_go.Storage.Metrics.{Metrics, joined, is_valid_user, count_all, get_metrics}

none_owned :
    (g : Text) (t : TokenRow) (ts : List TokenRow)
    → eqt t.user_id g ≡ true
    → any (token_clash t) ts ≡ false
    → count_where (owns_token g) ts ≡ 0
none_owned g t [] e h = refl
none_owned g t (x ∷ ts) e h = ground (arith, none_owned g t ts)

-- A user has at most one token.
owned-le :
    (g : Text) (ts : List TokenRow) → Distinct token_clash ts → count_where (owns_token g) ts ≤ 1
owned-le g [] d = omega arith
owned-le g (t ∷ ts) (a, d) = ground (arith, owned-le g ts d, none_owned g t ts)

abbrev tokens_of_valid : List TokenRow → List UserRow → ℕ
tokens_of_valid ts us = joined (λ t u. is_valid_user u) ts us

-- The join, user by user.
joined-cons :
    (ts : List TokenRow) (u : UserRow) (us : List UserRow)
    → tokens_of_valid ts (u ∷ us)
      ≡ (if is_valid_user u then count_where (owns_token u.gmail_user_id) ts else 0)
        + tokens_of_valid ts us
joined-cons [] u us = ground arith
joined-cons (t ∷ ts) u us = ground (arith, joined-cons ts u us)

joined-nil : (ts : List TokenRow) → tokens_of_valid ts [] ≡ 0
joined-nil [] = refl
joined-nil (t ∷ ts) = omega (arith, joined-nil ts)

joined-le :
    (ts : List TokenRow) (us : List UserRow)
    → Distinct token_clash ts
    → tokens_of_valid ts us ≤ count_where is_valid_user us
joined-le ts [] d = omega (arith, joined-nil ts)
joined-le ts (u ∷ us) d =
    ground (arith, joined-cons ts u us, owned-le u.gmail_user_id ts d, joined-le ts us d)

pub get_metrics-eq :
    (c : Call) (now : Time) (db : Database) {m : Metrics}
    → get_metrics c now db ≡ ok m
    → count_all now db ≡ m
unfolding get_metrics
get_metrics-eq c now db h = ground arith

count_all-le :
    (now : Time) (db : Database)
    → IsDatabase db
    → ((count_all now db).valid_tokens ≤ (count_all now db).active_users)
      × ((count_all now db).active_users ≤ (count_all now db).total_users)
unfolding count_all
count_all-le now db k =
    (joined-le db.tokens db.users k.tokens, count_where-le is_valid_user db.users)

-- In metrics of a database whose keys are unique, no more tokens are valid than users are active,
-- and no more users are active than there are users.
pub get_metrics-le :
    (c : Call) (now : Time) (db : Database) (m : Metrics)
    → IsDatabase db
    → get_metrics c now db ≡ ok m
    → (m.valid_tokens ≤ m.active_users) × (m.active_users ≤ m.total_users)
get_metrics-le c now db m k h = rw (← get_metrics-eq c now db h) (count_all-le now db k)
