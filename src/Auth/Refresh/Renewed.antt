-- ===== src/Auth/Refresh/Renewed.antt =====
-- What a refresh that succeeds has stored.
use gmaildigest_go.Prelude.{
  ◌+◌, ◌*◌, ◌<◌, ◌≤◌, ◌≡◌, ◌⊎◌, inl, inr, refl, true, false, Option, some, none, arith, ltb,
  Bool-cases,
}
use mathlib.Core.Option.{some-injective}
use gmaildigest_go.Prelude.Text.{Text, is_empty}
use gmaildigest_go.Prelude.Results.{Result, ok, err}
use gmaildigest_go.Cron.Calendar.{Time, minute}
use gmaildigest_go.Auth.Stores.{AuthError}
use gmaildigest_go.Auth.OAuth.{Token, Config, Storage, Provider, OAuthManager}
use gmaildigest_go.Auth.OAuth.Callback.{keep_token-eq, if_ok}
use gmaildigest_go.Auth.Renewal.{
  refresh_token_of, refresh_found, keep_refreshed, refresh_with, preserve,
}
use gmaildigest_go.Auth.Refresh.{refresh_user_token, refresh_due}

-- The user had a token with a refresh token, the token source gave one for it, and the token now
-- stored is the one it gave, with a refresh token again.
pub record Supplied {S : Type 0} (st : Storage S) (p : Provider) (user : Text)
    (m u : OAuthManager S) : Type 0 where
  pub old : Token
  pub new : Token
  pub had : st.get_token m.storage user ≡ ok (some old)
  pub refreshable : is_empty old.refresh_token ≡ false
  pub fetched : refresh_with p m.config m.token_source old ≡ some (ok new)
  pub has : st.get_token u.storage user ≡ ok (some (preserve old new))
  pub again : is_empty (preserve old new).refresh_token ≡ false
  pub access : (preserve old new).access_token ≡ new.access_token

preserve_again :
    (old t : Token)
    → is_empty old.refresh_token ≡ false
    → is_empty (preserve old t).refresh_token ≡ false
unfolding preserve
preserve_again old t h = elim (Bool-cases (is_empty t.refresh_token)) [
  | inl e ↦ rw e h
  | inr n ↦ rw n n
]

preserve_access : (old t : Token) → (preserve old t).access_token ≡ t.access_token
unfolding preserve
preserve_access old t = elim (Bool-cases (is_empty t.refresh_token)) [
  | inl e ↦ rw e refl
  | inr n ↦ rw n refl
]

preserve_self : (t : Token) → is_empty t.refresh_token ≡ false → preserve t t ≡ t
unfolding preserve
preserve_self t h = rw h refl

refresh_with-valid :
    (p : Provider) (config : Option Config) (t new : Token)
    → p.is_valid t ≡ true
    → refresh_with p config none t ≡ some (ok new)
    → new ≡ t
refresh_with-valid p none t new v h = absurd (cc)
refresh_with-valid p (some c) t new v h = let again = p.refresh-valid c t v in ground arith

-- The token is valid for more than five minutes, and the manager is left as it is.
abbrev pub IsLeft : {S : Type 0} → Time → OAuthManager S → OAuthManager S → Token → Type 0
IsLeft now m u t = (now + 5 * minute < t.expiry) × (u ≡ m)

-- The token has five minutes or less, and is still valid: it is stored again unchanged.
abbrev pub IsKept :
    {S : Type 0}
    → Storage S
    → Provider
    → Time
    → Text
    → OAuthManager S
    → OAuthManager S
    → Token
    → Type 0
IsKept st p now user m u t =
    (t.expiry ≤ now + 5 * minute)
    × (p.is_valid t ≡ true)
    × (m.token_source ≡ none)
    × Supplied st p user m u
    × (st.get_token u.storage user ≡ ok (some t))

-- The token is valid no more, or a test has set a token source: what the source gave is stored.
abbrev pub IsReplaced :
    {S : Type 0}
    → Storage S
    → Provider
    → Time
    → Text
    → OAuthManager S
    → OAuthManager S
    → Token
    → Type 0
IsReplaced st p now user m u t =
    (t.expiry ≤ now + 5 * minute)
    × ((p.is_valid t ≡ false) ⊎ ((source : Option Token) × (m.token_source ≡ some source)))
    × Supplied st p user m u

module _ {S : Type 0} where
  refresh_found-ok :
      (st : Storage S) (p : Provider) (m : OAuthManager S) (user : Text) {u : OAuthManager S}
      (r : Result Text (Option Token))
      → st.get_token m.storage user ≡ r
      → refresh_found st p m user r ≡ some (u, ok tt)
      → Supplied st p user m u
  refresh_found-ok st p m user (err e) had h = absurd (cc)
  refresh_found-ok st p m user (ok none) had h = absurd (cc)
  refresh_found-ok st p m user {u} (ok (some t)) had h =
      elim (Bool-cases (is_empty t.refresh_token)) [
        | inl e ↦ absurd (ground arith)
        | inr n ↦
            from n (refresh_with p m.config m.token_source t) refl
              (if_ok (is_empty t.refresh_token) m _ _ h)
      ]
    where
      from :
          is_empty t.refresh_token ≡ false
          → (o : Option (Result AuthError Token)) → refresh_with p m.config m.token_source t ≡ o
          → keep_refreshed st m user t o ≡ some (u, ok tt)
          → Supplied st p user m u
      from n none e g = absurd (cc)
      from n (some (err x)) e g = absurd (cc)
      from n (some (ok x)) e g = record {
        old = t;
        new = x;
        had = had;
        refreshable = n;
        fetched = e;
        has = (keep_token-eq st m user (preserve t x) (some-injective _ _ g)).1;
        again = preserve_again t x n;
        access = preserve_access t x;
      }

  -- A refresh that succeeds found a token of the user with a refresh token, and stored a token with
  -- the access token of the new one that has a refresh token again: the new one's, or else the old.
  pub refresh_token_of-ok :
      (st : Storage S) (p : Provider) (m u : OAuthManager S) (user : Text)
      → refresh_token_of st p m user ≡ some (u, ok tt)
      → Supplied st p user m u
  unfolding refresh_token_of
  refresh_token_of-ok st p m u user h =
      refresh_found-ok st p m user (st.get_token m.storage user) refl
        (if_ok (is_empty user) m _ _ h)

  Supplied-valid :
      (st : Storage S) (p : Provider) (m u : OAuthManager S) (user : Text) (t : Token)
      → st.get_token m.storage user ≡ ok (some t)
      → p.is_valid t ≡ true
      → m.token_source ≡ none
      → Supplied st p user m u
      → st.get_token u.storage user ≡ ok (some t)
  Supplied-valid st p m u user t g v n r =
      let same_old : r.old ≡ t = ground (arith, g, r.had) in
      let same : r.new ≡ t =
        refresh_with-valid p m.config t r.new v (rw (same_old, n) at r.fetched) in
      rw (same_old, same, preserve_self t (rw same_old at r.refreshable)) at r.has

  due_cases :
      (st : Storage S) (p : Provider) (now : Time) (m u : OAuthManager S) (user : Text) (t : Token)
      (source : Option (Option Token))
      → m.token_source ≡ source
      → st.get_token m.storage user ≡ ok (some t)
      → t.expiry ≤ now + 5 * minute
      → Supplied st p user m u
      → IsKept st p now user m u t ⊎ IsReplaced st p now user m u t
  due_cases st p now m u user t (some source) e g due r = inr (due, inr (source, e), r)
  due_cases st p now m u user t none e g due r = elim (Bool-cases (p.is_valid t)) [
    | inl v ↦ inl (due, v, e, r, Supplied-valid st p m u user t g v e r)
    | inr v ↦ inr (due, inl v, r)
  ]

  -- A refresh of a user by the service that succeeds leaves a token with more than five minutes to
  -- its expiry as it is, with the rest of the manager. Of the others it stores a token that is still
  -- valid again unchanged, unless a test has set a token source, and replaces only the rest by what
  -- the token source gives.
  pub refresh_user_token-ok :
      (st : Storage S) (p : Provider) (now : Time) (m u : OAuthManager S) (user : Text)
      → refresh_user_token st p now m user ≡ some (u, ok tt)
      → (t : Token) × (st.get_token m.storage user ≡ ok (some t))
        × (IsLeft now m u t ⊎ IsKept st p now user m u t ⊎ IsReplaced st p now user m u t)
  unfolding refresh_user_token
  refresh_user_token-ok st p now m u user h = from (st.get_token m.storage user) refl h
    where
      from :
          (r : Result Text (Option Token))
          → st.get_token m.storage user ≡ r
          → refresh_due st p now m user r ≡ some (u, ok tt)
          → (t : Token) × (st.get_token m.storage user ≡ ok (some t))
            × (IsLeft now m u t ⊎ IsKept st p now user m u t ⊎ IsReplaced st p now user m u t)
      from (err e) g k = absurd (cc)
      from (ok none) g k = absurd (cc)
      from (ok (some t)) g k = elim (Bool-cases (ltb (now + 5 * minute) t.expiry)) [
        | inl fresh ↦ (t, g, inl (ground arith, ground arith))
        | inr due ↦ (
          t,
          g,
          inr (
              due_cases st p now m u user t m.token_source refl g (ground arith)
                (refresh_token_of-ok st p m u user (rw due at k))),
        )
      ]
