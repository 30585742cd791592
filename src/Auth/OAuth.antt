-- ===== src/Auth/OAuth.antt =====
-- The OAuth flow: `internal/auth/oauth.go`, with the in-memory stores for states and verifiers.
pub mod Callback
pub mod Flow
use gmaildigest_go.Prelude.{
  ℕ, ◌≡◌, Bool, true, false, List, [], ◌∷◌, Option, some, none, if◌then◌else◌,
}
use gmaildigest_go.Prelude.Int.{pos}
use gmaildigest_go.Prelude.Text.{Text, codes, is_empty}
use gmaildigest_go.Prelude.Results.{Result, ok, err, map_err}
use gmaildigest_go.Cron.Calendar.{Time}
use gmaildigest_go.Auth.Stores.{
  AuthError, Crypto, InMemoryStateStore, InMemoryPkceStore, empty_user_id, empty_code, empty_state,
  invalid_state, storage_failed, provider_failed, no_token, no_refresh_token, store_state,
  validate_state, delete_state, get_verifier, generate_code_verifier, generate_code_challenge,
}

-- What the program uses of `oauth2.Token`.
pub record Token : Type 0 where
  pub access_token : Text
  pub refresh_token : Text
  pub expiry : Time

-- What the program uses of `oauth2.Config`.
pub record Config : Type 0 where
  pub client_id : Text
  pub client_secret : Text
  pub redirect_url : Text
  pub scopes : List Text

-- The `Storage` interface over stores of type `S`. A failing call may have changed the store.
pub record Storage (S : Type 0) : Type 0 where
  pub get_token : S → Text → Result Text (Option Token)
  pub store_token : S → Text → Token → S × Option Text
  pub delete_token : S → Text → S × Option Text
  -- A token that was stored without an error is read back.
  pub get-store_token :
      (s : S) (user : Text) (t : Token)
      → (store_token s user t).1 ≡ none
      → get_token (store_token s user t).0 user ≡ ok (some t)

-- What the program uses of the package `oauth2`: the URL for a state and a challenge, the exchange of
-- a code and a verifier, the token source of a configuration and a token or nil, and `Token.Valid` at the time of
-- the call.
pub record Provider : Type 0 where
  pub auth_code_url : Config → Text → Text → Text
  pub exchange : Config → Text → Text → Option Token
  pub refresh : Config → Option Token → Option Token
  pub is_valid : Token → Bool
  -- The token source of a configuration returns the token it was made with until that expires.
  pub refresh-valid : (c : Config) (t : Token) → is_valid t ≡ true → refresh c (some t) ≡ some t

-- `OAuthManager`: `config` is absent before `LoadCredentials`, and `token_source` unless a test sets it.
pub record OAuthManager (S : Type 0) : Type 0 where
  pub config : Option Config
  pub storage : S
  pub pkce_store : InMemoryPkceStore
  pub state_store : InMemoryStateStore
  pub token_source : Option (Option Token)

-- `generateRandomState`.
abbrev pub generate_random_state : Text
generate_random_state = codes "temporary-state"

-- `ValidateToken`.
abbrev pub validate_token : Provider → Option Token → Bool
validate_token p none = false
validate_token p (some t) = p.is_valid t

abbrev pub token_or : Option Token → Result AuthError Token
token_or none = err provider_failed
token_or (some t) = ok t

-- What a call on a manager gives: nothing where it panics on a missing configuration.
abbrev pub Outcome : Type 0 → Type 0 → Type 0
Outcome S A = Option (OAuthManager S × Result AuthError A)

-- The token for a code: from the source of a test, or from the provider.
abbrev pub exchange_with :
    Provider → Option Config → Option (Option Token) → Text → Text → Option (Result AuthError Token)
exchange_with p config (some source) code verifier = some (token_or source)
exchange_with p none none code verifier = none
exchange_with p (some config) none code verifier = some (token_or (p.exchange config code verifier))

module _ {S : Type 0} where
  -- `NewOAuthManager`.
  abbrev pub new_oauth_manager : S → InMemoryPkceStore → InMemoryStateStore → OAuthManager S
  new_oauth_manager st ps ss = record {
    config = none;
    storage = st;
    pkce_store = ps;
    state_store = ss;
    token_source = none;
  }

  abbrev pub url_for :
      Crypto → Provider → OAuthManager S → Text → Option Config → Text → Outcome S (Text × Text)
  url_for c p m user none verifier = none
  url_for c p m user (some config) verifier = some (
    record m { state_store = store_state m.state_store user generate_random_state },
    ok (
      p.auth_code_url config generate_random_state (generate_code_challenge c verifier),
      generate_random_state,
    ),
  )

  abbrev pub url_with :
      Crypto → Provider → OAuthManager S → Text → Result AuthError Text → Outcome S (Text × Text)
  url_with c p m user (err e) = some (m, err e)
  url_with c p m user (ok verifier) = url_for c p m user m.config verifier

  -- `GetAuthURL`.
  unfoldable pub get_auth_url :
      Crypto → Provider → (ℕ → Option Text) → OAuthManager S → Text → Outcome S (Text × Text)
  get_auth_url c p random m user =
      if is_empty user
      then some (m, err empty_user_id)
      else url_with c p m user (generate_code_verifier c random (pos 128))

  -- `StoreToken` and the wrapping of its error.
  abbrev pub keep_token :
      OAuthManager S → S × Option Text → OAuthManager S × Result AuthError (Unit {0})
  keep_token m (st, none) = (record m { storage = st }, ok tt)
  keep_token m (st, some e) = (record m { storage = st }, err storage_failed)

  abbrev pub keep_exchanged :
      Storage S
      → OAuthManager S
      → Text
      → Result AuthError Token
      → OAuthManager S × Result AuthError (Unit {0})
  keep_exchanged st m user (err e) = (m, err e)
  keep_exchanged st m user (ok t) = keep_token m (st.store_token m.storage user t)

  abbrev pub finish_callback :
      Storage S → OAuthManager S → Text → Option (Result AuthError Token) → Outcome S (Unit {0})
  finish_callback st m user none = none
  finish_callback st m user (some r) = some (keep_exchanged st m user r)

  abbrev pub callback_verified :
      Storage S
      → Provider
      → OAuthManager S
      → Text
      → Text
      → InMemoryPkceStore × Result AuthError Text
      → Outcome S (Unit {0})
  callback_verified st p m code user (ps, err e) = some (record m { pkce_store = ps }, err e)
  callback_verified st p m code user (ps, ok verifier) =
      finish_callback st (record m { pkce_store = ps }) user
        (exchange_with p m.config m.token_source code verifier)

  -- The deferred `DeleteState`.
  abbrev pub forget_state : Text → Outcome S (Unit {0}) → Outcome S (Unit {0})
  forget_state user none = none
  forget_state user (some (m, r)) =
      some (record m { state_store = delete_state m.state_store user }, r)

  abbrev pub callback_validated :
      Storage S
      → Provider
      → OAuthManager S
      → Text
      → Text
      → Text
      → InMemoryStateStore × Bool
      → Outcome S (Unit {0})
  callback_validated st p m code state user (ss, false) =
      some (record m { state_store = ss }, err invalid_state)
  callback_validated st p m code state user (ss, true) = forget_state user (
      callback_verified st p (record m { state_store = ss }) code user
        (get_verifier m.pkce_store state))

  -- `HandleCallback`.
  unfoldable pub handle_callback :
      Storage S → Provider → OAuthManager S → Text → Text → Text → Outcome S (Unit {0})
  handle_callback st p m code state user =
      if is_empty code
      then some (m, err empty_code)
      else if is_empty state
      then some (m, err empty_state)
      else if is_empty user
      then some (m, err empty_user_id)
      else callback_validated st p m code state user (validate_state m.state_store user state)
