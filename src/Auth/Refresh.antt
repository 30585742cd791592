-- ===== src/Auth/Refresh.antt =====
-- The refreshing of tokens by the scheduler: `internal/auth/refresh_service.go`.
pub mod Renewed
pub mod Hourly
use gmaildigest_go.Prelude.{
  ◌+◌, ◌*◌, ◌≡◌, Bool, true, false, List, [], ◌∷◌, Option, some, none, if◌then◌else◌, ltb,
}
use gmaildigest_go.Prelude.Text.{Text, codes}
use gmaildigest_go.Prelude.Results.{Result, ok, err}
use gmaildigest_go.Cron.Calendar.{Time, minute}
use gmaildigest_go.Jobs.Job.{Job}
use gmaildigest_go.Auth.Stores.{AuthError, storage_failed, bad_payload}
use gmaildigest_go.Auth.OAuth.{Token, Storage, Provider, OAuthManager, Outcome}
use gmaildigest_go.Auth.Renewal.{refresh_token_of}

-- `GetRefreshSchedule`.
abbrev pub get_refresh_schedule : Text
get_refresh_schedule = codes "0 * * * *"

module _ {S : Type 0} where
  abbrev pub refresh_due :
      Storage S
      → Provider
      → Time
      → OAuthManager S
      → Text
      → Result Text (Option Token)
      → Outcome S (Unit {0})
  refresh_due st p now m user (err e) = some (m, err storage_failed)
  refresh_due st p now m user (ok none) = none
  refresh_due st p now m user (ok (some t)) =
      if ltb (now + 5 * minute) t.expiry then some (m, ok tt) else refresh_token_of st p m user

  -- `refreshUserToken`. It gives nothing where it panics: on a missing token.
  unfoldable pub refresh_user_token :
      Storage S → Provider → Time → OAuthManager S → Text → Outcome S (Unit {0})
  refresh_user_token st p now m user = refresh_due st p now m user (st.get_token m.storage user)

  abbrev pub go_on :
      Outcome S (Unit {0}) → (OAuthManager S → Option (OAuthManager S)) → Option (OAuthManager S)
  go_on none f = none
  go_on (some (m, r)) f = f m

  -- `RefreshTokens`, with the time that each user finds. An error is printed and skipped.
  unfoldable pub refresh_tokens :
      Storage S → Provider → (Text → Time) → OAuthManager S → List Text → Option (OAuthManager S)
  refresh_tokens st p now m [] = some m
  refresh_tokens st p now m (u ∷ us) =
      go_on (refresh_user_token st p (now u) m u) (λ n. refresh_tokens st p now n us)

  abbrev pub handle_payload :
      Storage S → Provider → Time → OAuthManager S → Option Text → Outcome S (Unit {0})
  handle_payload st p now m none = some (m, err bad_payload)
  handle_payload st p now m (some user) = refresh_user_token st p now m user

  -- `HandleTokenRefreshJob`, from what `json.Unmarshal` reads as the user id of a payload.
  unfoldable pub handle_token_refresh_job :
      (Text → Option Text)
      → Storage S
      → Provider
      → Time
      → OAuthManager S
      → Job
      → Outcome S (Unit {0})
  handle_token_refresh_job user_of st p now m j = handle_payload st p now m (user_of j.payload)
