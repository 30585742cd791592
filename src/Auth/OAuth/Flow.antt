-- ===== src/Auth/OAuth/Flow.antt =====
-- The flow as a whole: what sequences of calls on a manager can reach.
use gmaildigest_go.Prelude.{
  ℕ, ◌≡◌, ◌≢◌, refl, Bool, true, false, List, [], ◌∷◌, Option, some, none, if◌then◌else◌, ◌∙◌,
}
use gmaildigest_go.Prelude.Int.{pos}
use gmaildigest_go.Prelude.Text.{Text, is_empty}
use gmaildigest_go.Prelude.Maps.{lookup}
use gmaildigest_go.Prelude.Results.{Result, ok, err}
use gmaildigest_go.Auth.Stores.{
  AuthError, Crypto, InMemoryStateStore, validate_state, get_verifier, generate_code_verifier,
}
use gmaildigest_go.Auth.OAuth.{
  Token, Config, Storage, Provider, OAuthManager, Outcome, keep_token, callback_validated,
  handle_callback, get_auth_url, url_with, url_for,
}
use gmaildigest_go.Auth.Renewal.{
  refresh_token_of, revoke_token, refresh_found, keep_refreshed, refresh_with, preserve,
}
use gmaildigest_go.Auth.OAuth.Callback.{handle_callback-ok}

-- A call on a manager, with the random bytes a call of `GetAuthURL` finds.
pub data ManagerCall : Type 0 where
  asks_url : (ℕ → Option Text) → Text → ManagerCall
  calls_back : Text → Text → Text → ManagerCall
  refreshes : Text → ManagerCall
  revokes : Text → ManagerCall

abbrev pub left_by : {S : Type 0} {A : Type 0} → Outcome S A → Option (OAuthManager S)
left_by none = none
left_by (some (m, r)) = some m

module _ {S : Type 0} where
  -- The manager after a call, and nothing if it panicked.
  unfoldable pub call :
      Crypto → Storage S → Provider → OAuthManager S → ManagerCall → Option (OAuthManager S)
  call c st p m (asks_url random user) = left_by (get_auth_url c p random m user)
  call c st p m (calls_back code state user) = left_by (handle_callback st p m code state user)
  call c st p m (refreshes user) = left_by (refresh_token_of st p m user)
  call c st p m (revokes user) = some (revoke_token st m user).0

  abbrev pub then_calls :
      Option (OAuthManager S) → (OAuthManager S → Option (OAuthManager S)) → Option (OAuthManager S)
  then_calls none f = none
  then_calls (some m) f = f m

  unfoldable pub calls :
      Crypto → Storage S → Provider → OAuthManager S → List ManagerCall → Option (OAuthManager S)
  calls c st p m [] = some m
  calls c st p m (x ∷ xs) = then_calls (call c st p m x) (λ n. calls c st p n xs)

  keep_token-pkce :
      (m : OAuthManager S) (r : S × Option Text) → (keep_token m r).0.pkce_store ≡ m.pkce_store
  keep_token-pkce m (s, none) = refl
  keep_token-pkce m (s, some e) = refl

  -- No verifier is stored for any state.
  abbrev pub NoVerifier : Option (OAuthManager S) → Type 0
  NoVerifier none = Unit {0}
  NoVerifier (some m) = m.pkce_store ≡ []

  if_NoVerifier :
      {A : Type 0} (b : Bool) (x y : Outcome S A)
      → NoVerifier (left_by x)
      → NoVerifier (left_by y)
      → NoVerifier (left_by (if b then x else y))
  if_NoVerifier true x y h k = h
  if_NoVerifier false x y h k = k

  pub asks_url-NoVerifier :
      (c : Crypto) (p : Provider) (random : ℕ → Option Text) (m : OAuthManager S) (user : Text)
      → m.pkce_store ≡ []
      → NoVerifier (left_by (get_auth_url c p random m user))
  unfolding get_auth_url
  asks_url-NoVerifier c p random m user h =
      if_NoVerifier (is_empty user) _ _ h (from (generate_code_verifier c random (pos 128)))
    where
      from : (r : Result AuthError Text) → NoVerifier (left_by (url_with c p m user r))
      from (err e) = h
      from (ok v) = config m.config
        where
          config : (o : Option Config) → NoVerifier (left_by (url_for c p m user o v))
          config none = tt
          config (some k) = h

  pub calls_back-NoVerifier :
      (st : Storage S) (p : Provider) (m : OAuthManager S) (code state user : Text)
      → m.pkce_store ≡ []
      → NoVerifier (left_by (handle_callback st p m code state user))
  unfolding handle_callback get_verifier lookup
  calls_back-NoVerifier st p m code state user h = if_NoVerifier (is_empty code) _ _ h (
      if_NoVerifier (is_empty state) _ _ h
        (if_NoVerifier (is_empty user) _ _ h (from (validate_state m.state_store user state))))
    where
      from :
          (r : InMemoryStateStore × Bool)
          → NoVerifier (left_by (callback_validated st p m code state user r))
      from (ss, false) = h
      from (ss, true) = rw h refl

  refreshes-NoVerifier :
      (st : Storage S) (p : Provider) (m : OAuthManager S) (user : Text)
      → m.pkce_store ≡ []
      → NoVerifier (left_by (refresh_token_of st p m user))
  unfolding refresh_token_of
  refreshes-NoVerifier st p m user h =
      if_NoVerifier (is_empty user) _ _ h (from (st.get_token m.storage user))
    where
      kept :
          (t : Token) (o : Option (Result AuthError Token))
          → NoVerifier (left_by (keep_refreshed st m user t o))
      kept t none = tt
      kept t (some (err e)) = h
      kept t (some (ok n)) = keep_token-pkce m (st.store_token m.storage user (preserve t n)) ∙ h

      from : (r : Result Text (Option Token)) → NoVerifier (left_by (refresh_found st p m user r))
      from (err e) = h
      from (ok none) = h
      from (ok (some t)) =
          if_NoVerifier (is_empty t.refresh_token) _ _ h
            (kept t (refresh_with p m.config m.token_source t))

  call-NoVerifier :
      (c : Crypto) (st : Storage S) (p : Provider) (m : OAuthManager S) (x : ManagerCall)
      → m.pkce_store ≡ []
      → NoVerifier (call c st p m x)
  unfolding call revoke_token
  call-NoVerifier c st p m (asks_url random user) h = asks_url-NoVerifier c p random m user h
  call-NoVerifier c st p m (calls_back code state user) h =
      calls_back-NoVerifier st p m code state user h
  call-NoVerifier c st p m (refreshes user) h = refreshes-NoVerifier st p m user h
  call-NoVerifier c st p m (revokes user) h = keep_token-pkce m (st.delete_token m.storage user) ∙ h

  then_calls-NoVerifier :
      (o : Option (OAuthManager S)) (f : OAuthManager S → Option (OAuthManager S))
      → NoVerifier o
      → ((n : OAuthManager S) → n.pkce_store ≡ [] → NoVerifier (f n))
      → NoVerifier (then_calls o f)
  then_calls-NoVerifier none f h k = tt
  then_calls-NoVerifier (some n) f h k = k n h

  calls-NoVerifier :
      (c : Crypto) (st : Storage S) (p : Provider) (m : OAuthManager S) (xs : List ManagerCall)
      → m.pkce_store ≡ []
      → NoVerifier (calls c st p m xs)
  unfolding calls
  calls-NoVerifier c st p m [] h = h
  calls-NoVerifier c st p m (x ∷ xs) h =
      then_calls-NoVerifier (call c st p m x) _ (call-NoVerifier c st p m x h)
        (λ n. calls-NoVerifier c st p n xs)

  -- The bug: no call of the manager stores a verifier. From a manager whose PKCE store is empty, after
  -- any sequence of `GetAuthURL`, `HandleCallback`, `RefreshToken` and `RevokeToken`, no callback
  -- succeeds.
  pub handle_callback_never_ok :
      (c : Crypto) (st : Storage S) (p : Provider) (m n u : OAuthManager S) (xs : List ManagerCall)
      (code state user : Text)
      → m.pkce_store ≡ []
      → calls c st p m xs ≡ some n
      → handle_callback st p n code state user ≢ some (u, ok tt)
  unfolding lookup
  handle_callback_never_ok c st p m n u xs code state user h e ok' =
      let found = (handle_callback-ok st p n u code state user ok').known in
      let nothing : n.pkce_store ≡ [] = rw e at (calls-NoVerifier c st p m xs h) in absurd (cc)
