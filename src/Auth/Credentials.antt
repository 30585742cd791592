-- ===== src/Auth/Credentials.antt =====
-- Loading the credentials of the program: `LoadCredentials` of `internal/auth/oauth.go`.
use gmaildigest_go.Prelude.{List, [], ◌∷◌, Option, some, none, if◌then◌else◌}
use gmaildigest_go.Prelude.Text.{Text, codes, is_empty}
use gmaildigest_go.Prelude.Results.{Result, ok, err}
use gmaildigest_go.Auth.OAuth.{Config, OAuthManager}

pub data CredentialsError : Type 0 where
  empty_path unreadable unparsable : CredentialsError

-- The part `web` of the credentials file.
pub record WebCredentials : Type 0 where
  pub client_id : Text
  pub client_secret : Text
  pub redirect_uris : List Text

abbrev pub gmail_scopes : List Text
gmail_scopes =
    codes "https://www.googleapis.com/auth/gmail.readonly"
    ∷ codes "https://www.googleapis.com/auth/gmail.modify"
    ∷ []

abbrev pub redirect_to : Text → Option Config → Option Config
redirect_to url none = none
redirect_to url (some c) = some (record c { redirect_url = url })

module _ {S : Type 0} where
  abbrev pub configure :
      OAuthManager S
      → WebCredentials
      → List Text
      → Option (OAuthManager S × Result CredentialsError (Unit {0}))
  configure m w [] = none
  configure m w (url ∷ urls) = some (
    record m {
      config = some (record {
        client_id = w.client_id;
        client_secret = w.client_secret;
        redirect_url = url;
        scopes = gmail_scopes;
      });
    },
    ok tt,
  )

  abbrev pub credentials_parsed :
      OAuthManager S
      → Option WebCredentials
      → Option (OAuthManager S × Result CredentialsError (Unit {0}))
  credentials_parsed m none = some (m, err unparsable)
  credentials_parsed m (some w) = configure m w w.redirect_uris

  abbrev pub credentials_read :
      (Text → Option WebCredentials)
      → OAuthManager S
      → Option Text
      → Option (OAuthManager S × Result CredentialsError (Unit {0}))
  credentials_read parse m none = some (m, err unreadable)
  credentials_read parse m (some content) = credentials_parsed m (parse content)

  -- `LoadCredentials`, from `os.ReadFile` and `json.Unmarshal`. It gives nothing where it panics: on
  -- a file without redirect URIs.
  unfoldable pub load_credentials :
      (Text → Option Text)
      → (Text → Option WebCredentials)
      → OAuthManager S
      → Text
      → Option (OAuthManager S × Result CredentialsError (Unit {0}))
  load_credentials read parse m path =
      if is_empty path then some (m, err empty_path) else credentials_read parse m (read path)

  -- `SetRedirectURL`.
  abbrev pub set_redirect_url : OAuthManager S → Text → OAuthManager S
  set_redirect_url m url = record m { config = redirect_to url m.config }
