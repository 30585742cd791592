-- ===== src/App/Handlers.antt =====
-- The handlers of the web application and their routes: internal/app/handlers.go, and `routes` of
-- internal/app/app.go. `a.Auth` is taken as the OAuth manager, whose methods the calls fit.
pub mod Reached
pub mod Nobody
pub mod Link
use gmaildigest_go.Prelude.{
  ℕ, ◌+◌, ◌*◌, ◌≡◌, Bool, true, false, not, ◌||◌, List, [], ◌∷◌, ◌++◌, Option, none, some,
  if◌then◌else◌,
}
use gmaildigest_go.Prelude.Int.{ℤ, pos, negsuc}
use gmaildigest_go.Prelude.Text.{Text, codes, eqt, is_empty}
use gmaildigest_go.Prelude.Results.{Result, ok, err}
use gmaildigest_go.Cron.Calendar.{Time, second}
use gmaildigest_go.Session.Store.{InMemoryStore, SessionError, create, delete_session}
use gmaildigest_go.Auth.Stores.{Crypto, AuthError}
use gmaildigest_go.Auth.OAuth.{
  Storage, Provider, OAuthManager, Outcome, get_auth_url, handle_callback,
}
use gmaildigest_go.Storage.Sqlite.{StorageError, Call}
use gmaildigest_go.Storage.Accounts.{Account, update_user_telegram_details}
use gmaildigest_go.Settings.Numbers.{parse_int}
use gmaildigest_go.App.Middleware.{Response, redirected, served, require_auth}

pub record Cookie : Type 0 where
  pub value : Text
  pub expires : Option Time
  pub max_age : ℤ

pub record Reply : Type 0 where
  pub status : ℕ
  pub location : Option Text
  pub cookie : Option Cookie
  pub body : Text

-- `http.Error`, and a page.
abbrev pub plain : ℕ → Text → Reply
plain status body = record { status = status; location = none; cookie = none; body = body }

-- `http.Redirect` with `http.StatusSeeOther`. The page for browsers that do not follow is left out.
abbrev pub redirect : Text → Option Cookie → Reply
redirect to cookie = record { status = 303; location = some to; cookie = cookie; body = [] }

abbrev pub cleared : Cookie
cleared = record { value = []; expires = none; max_age = negsuc 0 }

abbrev pub day : ℕ
day = 24 * 3600 * second

-- The state that the handlers share: the manager, the sessions, the users, and the users for whom a
-- digest was started, the latest first.
pub record Application (S : Type 0) : Type 0 where
  pub auth : OAuthManager S
  pub sessions : InMemoryStore
  pub accounts : List Account
  pub digests : List Text

pub data Route : Type 0 where
  login auth_callback logout dashboard telegram_connect digest_now : Route

-- `routes`: the patterns of the mux. "GET /" takes every path that no other pattern takes, and a
-- pattern for GET takes HEAD.
unfoldable pub route : Text → Text → Option Route
route method path =
    if eqt method (codes "GET") || eqt method (codes "HEAD")
    then some (
        if eqt path (codes "/login")
        then login
        else if eqt path (codes "/auth/callback")
        then auth_callback
        else if eqt path (codes "/telegram/connect")
        then telegram_connect
        else if eqt path (codes "/digest/now")
        then digest_now
        else dashboard)
    else if eqt method (codes "POST")
    then if eqt path (codes "/logout") then some logout else none
    else none

-- What a request holds that is read; an absent value of the query is empty.
pub record Request : Type 0 where
  pub route : Route
  pub cookie : Option Text
  pub code : Text
  pub state : Text
  pub token : Text

-- What a request meets: the time, random bytes for a verifier and for a session, and the database.
pub record Moment : Type 0 where
  pub now : Time
  pub verifier_bytes : ℕ → Option Text
  pub session_bytes : Option Text
  pub call : Call

-- What the application is built on, besides its state.
pub record World (S : Type 0) : Type 0 where
  pub crypto : Crypto
  pub storage : Storage S
  pub provider : Provider
  pub base64 : Text → Text

-- The user of every login.
abbrev pub fixed_user : Text
fixed_user = codes "user-123"

-- The application after a request, and the reply; none where the handler panics.
abbrev pub Handled : Type 0 → Type 0
Handled S = Option (Application S × Reply)

module _ {S : Type 0} where
  abbrev pub login_reply : Application S → Outcome S (Text × Text) → Handled S
  login_reply a none = none
  login_reply a (some (m, err e)) =
      some (record a { auth = m }, plain 500 (codes "Failed to generate auth URL"))
  login_reply a (some (m, ok (url, state))) = some (record a { auth = m }, redirect url none)

  -- `handleLogin`.
  unfoldable pub handle_login : World S → Moment → Application S → Handled S
  handle_login w t a =
      login_reply a (get_auth_url w.crypto w.provider t.verifier_bytes a.auth fixed_user)

  abbrev pub signed_in :
      Moment → Application S → InMemoryStore × Result SessionError Text → Handled S
  signed_in t a (s, err e) =
      some (record a { sessions = s }, plain 500 (codes "Failed to create session"))
  signed_in t a (s, ok id) = some (
    record a { sessions = s },
    redirect (codes "/")
        (some (record { value = id; expires = some (t.now + day); max_age = pos 0 })),
  )

  abbrev pub callback_reply : World S → Moment → Application S → Outcome S (Unit {0}) → Handled S
  callback_reply w t a none = none
  callback_reply w t a (some (m, err e)) =
      some (record a { auth = m }, plain 500 (codes "Authentication failed"))
  callback_reply w t a (some (m, ok u)) =
      signed_in t (record a { auth = m })
        (create w.base64 t.session_bytes t.now a.sessions fixed_user (pos day))

  -- `handleAuthCallback`.
  unfoldable pub handle_auth_callback : World S → Moment → Application S → Text → Text → Handled S
  handle_auth_callback w t a code state =
      if is_empty code || is_empty state
      then some (a, plain 400 (codes "Invalid request: missing code or state"))
      else callback_reply w t a (handle_callback w.storage w.provider a.auth code state fixed_user)

  -- `handleLogout`, from the cookie `session_id`.
  unfoldable pub handle_logout : Application S → Option Text → Application S × Reply
  handle_logout a none = (a, redirect (codes "/login") none)
  handle_logout a (some id) = (
    record a { sessions = delete_session a.sessions id },
    redirect (codes "/login") (some cleared),
  )

  -- `handleDashboard`, behind the middleware.
  unfoldable pub handle_dashboard : Application S → Text → Application S × Reply
  handle_dashboard a user = (a, plain 200 (codes "Welcome, " ++ user ++ codes "!"))

  abbrev pub connected : Application S → Result StorageError (List Account) → Application S × Reply
  connected a (err e) = (a, plain 500 (codes "Failed to connect account. Please try again."))
  connected a (ok us) = (
    record a { accounts = us },
    plain 200 (codes "Telegram account successfully connected! You can now close this window."),
  )

  abbrev pub connect : Moment → Application S → Text → Option ℤ → Application S × Reply
  connect t a user none = (a, plain 400 (codes "Invalid token"))
  connect t a user (some n) = connected a (update_user_telegram_details t.call a.accounts user n n)

  -- `handleTelegramConnect`, behind the middleware.
  unfoldable pub handle_telegram_connect :
      Moment → Application S → Text → Text → Application S × Reply
  handle_telegram_connect t a user token =
      if is_empty token
      then (a, plain 400 (codes "Missing token"))
      else connect t a user (parse_int token)

  -- `handleDigestNow`, behind the middleware. The digest itself runs on its own.
  unfoldable pub handle_digest_now : Application S → Text → Application S × Reply
  handle_digest_now a user = if is_empty user then (a, plain 401 (codes "Unauthorized")) else (
    record a { digests = user ∷ a.digests },
    plain 202 (codes "Digest creation initiated. You will receive a message on Telegram shortly."),
  )

  -- `requireAuth` before a handler.
  abbrev pub guarded : Application S → Response → (Text → Application S × Reply) → Handled S
  guarded a (redirected false) next = some (a, redirect (codes "/login") none)
  guarded a (redirected true) next = some (a, redirect (codes "/login") (some cleared))
  guarded a (served user) next = some (next user)

  abbrev pub handle : World S → Moment → Application S → Request → Route → Handled S
  handle w t a r login = handle_login w t a
  handle w t a r auth_callback = handle_auth_callback w t a r.code r.state
  handle w t a r logout = some (handle_logout a r.cookie)
  handle w t a r dashboard = guarded a (require_auth t.now a.sessions r.cookie) (handle_dashboard a)
  handle w t a r telegram_connect =
      guarded a (require_auth t.now a.sessions r.cookie)
        (λ user. handle_telegram_connect t a user r.token)
  handle w t a r digest_now =
      guarded a (require_auth t.now a.sessions r.cookie) (handle_digest_now a)

  -- A request for one of the routes.
  unfoldable pub serve : World S → Moment → Application S → Request → Handled S
  serve w t a r = handle w t a r r.route
