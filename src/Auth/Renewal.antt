-- ===== src/Auth/Renewal.antt =====
-- Refreshing and revoking tokens: `RefreshToken` and `RevokeToken` of `internal/auth/oauth.go`.
use gmaildigest_go.Prelude.{Option, some, none, if◌then◌else◌}
use gmaildigest_go.Prelude.Text.{Text, is_empty}
use gmaildigest_go.Prelude.Results.{Result, ok, err}
use gmaildigest_go.Auth.Stores.{
  AuthError, empty_user_id, storage_failed, no_token, no_refresh_token,
}
use gmaildigest_go.Auth.OAuth.{
  Token, Config, Storage, Provider, OAuthManager, Outcome, token_or, keep_token,
}

-- The refresh token of the old token, where the new one has none.
unfoldable pub preserve : Token → Token → Token
preserve old t =
    if is_empty t.refresh_token then record t { refresh_token = old.refresh_token } else t

abbrev pub refresh_with :
    Provider → Option Config → Option (Option Token) → Token → Option (Result AuthError Token)
refresh_with p config (some source) t = some (token_or source)
refresh_with p none none t = none
refresh_with p (some config) none t = some (token_or (p.refresh config (some t)))

module _ {S : Type 0} where
  abbrev pub keep_refreshed :
      Storage S
      → OAuthManager S
      → Text
      → Token
      → Option (Result AuthError Token)
      → Outcome S (Unit {0})
  keep_refreshed st m user old none = none
  keep_refreshed st m user old (some (err e)) = some (m, err e)
  keep_refreshed st m user old (some (ok t)) =
      some (keep_token m (st.store_token m.storage user (preserve old t)))

  abbrev pub refresh_found :
      Storage S
      → Provider
      → OAuthManager S
      → Text
      → Result Text (Option Token)
      → Outcome S (Unit {0})
  refresh_found st p m user (err e) = some (m, err storage_failed)
  refresh_found st p m user (ok none) = some (m, err no_token)
  refresh_found st p m user (ok (some t)) =
      if is_empty t.refresh_token
      then some (m, err no_refresh_token)
      else keep_refreshed st m user t (refresh_with p m.config m.token_source t)

  -- `RefreshToken`.
  unfoldable pub refresh_token_of :
      Storage S → Provider → OAuthManager S → Text → Outcome S (Unit {0})
  refresh_token_of st p m user =
      if is_empty user
      then some (m, err empty_user_id)
      else refresh_found st p m user (st.get_token m.storage user)

  -- `RevokeToken`.
  unfoldable pub revoke_token :
      Storage S → OAuthManager S → Text → OAuthManager S × Result AuthError (Unit {0})
  revoke_token st m user = keep_token m (st.delete_token m.storage user)
