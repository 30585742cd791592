-- ===== src/App/Handlers/Nobody.antt =====
-- Nobody can sign in.
use gmaildigest_go.Prelude.{
  ◌≡◌, ◌≢◌, refl, subst, Bool, true, false, ◌||◌, List, [], ◌∷◌, Option, none, some, if◌then◌else◌,
  arith,
}
use gmaildigest_go.Prelude.Text.{Text, is_empty}
use gmaildigest_go.Prelude.Maps.{lookup, delete}
use gmaildigest_go.Prelude.Results.{ok, err}
use gmaildigest_go.Session.Store.{InMemoryStore, get, delete_session}
use gmaildigest_go.Auth.OAuth.{OAuthManager, Outcome, get_auth_url, handle_callback}
use gmaildigest_go.Auth.OAuth.Flow.{
  NoVerifier, left_by, calls, asks_url-NoVerifier, calls_back-NoVerifier, handle_callback_never_ok,
}
use gmaildigest_go.App.Middleware.{Response, redirected, served, require_auth}
use gmaildigest_go.App.Handlers.{
  Application, Reply, Route, Request, Moment, World, Handled, login, auth_callback, logout,
  dashboard, telegram_connect, digest_now, fixed_user, login_reply, callback_reply, guarded, handle,
  handle_login, handle_auth_callback, handle_logout, serve,
}
use gmaildigest_go.App.Handlers.Reached.{is_protected, IsTurnedAway, handle-redirected}

-- Without a session every cookie is refused.
require_auth_nobody :
    (t : Moment) (s : InMemoryStore) (cookie : Option Text)
    → s ≡ []
    → (b : Bool) × (require_auth t.now s cookie ≡ redirected b)
unfolding require_auth get lookup
require_auth_nobody t s none h = (false, refl)
require_auth_nobody t s (some id) h = (true, rw h refl)

module _ {S : Type 0} where
  abbrev then_serve :
      Option (Application S × Reply)
      → (Application S → Option (Application S))
      → Option (Application S)
  then_serve none f = none
  then_serve (some (a, reply)) f = f a

  -- The application after requests, and none where one panicked.
  unfoldable pub serve_all :
      World S → Application S → List (Moment × Request) → Option (Application S)
  serve_all w a [] = some a
  serve_all w a ((t, r) ∷ rs) = then_serve (serve w t a r) (λ b. serve_all w b rs)

  -- Nobody is signed in, and nothing was done for anybody.
  pub record IsIdle (a b : Application S) : Type 0 where
    pub sessions : b.sessions ≡ []
    pub verifiers : b.auth.pkce_store ≡ []
    pub accounts : b.accounts ≡ a.accounts
    pub digests : b.digests ≡ a.digests

  abbrev Idle : Application S → Handled S → Type 0
  Idle a none = Unit {0}
  Idle a (some (b, reply)) = IsIdle a b

  login_reply-Idle :
      (a b : Application S) (o : Outcome S (Text × Text))
      → IsIdle a b
      → NoVerifier (left_by o)
      → Idle a (login_reply b o)
  login_reply-Idle a b none h k = tt
  login_reply-Idle a b (some (m, err e)) h k = record {
    sessions = h.sessions;
    verifiers = k;
    accounts = h.accounts;
    digests = h.digests;
  }
  login_reply-Idle a b (some (m, ok u)) h k = record {
    sessions = h.sessions;
    verifiers = k;
    accounts = h.accounts;
    digests = h.digests;
  }

  callback_reply-Idle :
      (w : World S) (t : Moment) (a b : Application S) (o : Outcome S (Unit {0}))
      → IsIdle a b
      → NoVerifier (left_by o)
      → ((m : OAuthManager S) → o ≢ some (m, ok tt))
      → Idle a (callback_reply w t b o)
  callback_reply-Idle w t a b none h k l = tt
  callback_reply-Idle w t a b (some (m, err e)) h k l = record {
    sessions = h.sessions;
    verifiers = k;
    accounts = h.accounts;
    digests = h.digests;
  }
  callback_reply-Idle w t a b (some (m, ok u)) h k l = absurd (l m refl)

  if_Idle :
      (a : Application S) (c : Bool) (x y : Handled S)
      → Idle a x
      → Idle a y
      → Idle a (if c then x else y)
  if_Idle a true x y h k = h
  if_Idle a false x y h k = k

  handle_auth_callback-Idle :
      (w : World S) (t : Moment) (a b : Application S) (code state : Text)
      → IsIdle a b
      → Idle a (handle_auth_callback w t b code state)
  unfolding handle_auth_callback calls
  handle_auth_callback-Idle w t a b code state h =
      if_Idle a (is_empty code || is_empty state) _ _ h (
        callback_reply-Idle w t a b
          (handle_callback w.storage w.provider b.auth code state fixed_user) h
          (calls_back-NoVerifier w.storage w.provider b.auth code state fixed_user h.verifiers)
          (λ m.
            handle_callback_never_ok w.crypto w.storage w.provider b.auth b.auth m [] code state
              fixed_user h.verifiers refl))

  guarded-Idle :
      (a b : Application S) (x : Response) (next : Text → Application S × Reply)
      → IsIdle a b
      → (c : Bool) × (x ≡ redirected c)
      → Idle a (guarded b x next)
  guarded-Idle a b (redirected true) next h k = h
  guarded-Idle a b (redirected false) next h k = h
  guarded-Idle a b (served user) next h (c, e) = absurd (cc)

  handle_logout-Idle :
      (a b : Application S) (cookie : Option Text)
      → IsIdle a b
      → IsIdle a (handle_logout b cookie).0
  unfolding handle_logout delete_session delete
  handle_logout-Idle a b none h = h
  handle_logout-Idle a b (some id) h = record {
    sessions = rw h.sessions refl;
    verifiers = h.verifiers;
    accounts = h.accounts;
    digests = h.digests;
  }

  handle-Idle :
      (w : World S) (t : Moment) (a b : Application S) (r : Request) (x : Route)
      → IsIdle a b
      → Idle a (handle w t b r x)
  unfolding handle_login
  handle-Idle w t a b r login h =
      login_reply-Idle a b (get_auth_url w.crypto w.provider t.verifier_bytes b.auth fixed_user) h
        (asks_url-NoVerifier w.crypto w.provider t.verifier_bytes b.auth fixed_user h.verifiers)
  handle-Idle w t a b r auth_callback h = handle_auth_callback-Idle w t a b r.code r.state h
  handle-Idle w t a b r logout h = handle_logout-Idle a b r.cookie h
  handle-Idle w t a b r dashboard h =
      guarded-Idle a b _ _ h (require_auth_nobody t b.sessions r.cookie h.sessions)
  handle-Idle w t a b r telegram_connect h =
      guarded-Idle a b _ _ h (require_auth_nobody t b.sessions r.cookie h.sessions)
  handle-Idle w t a b r digest_now h =
      guarded-Idle a b _ _ h (require_auth_nobody t b.sessions r.cookie h.sessions)

  then_serve-Idle :
      (a : Application S) (x : Handled S) (f : Application S → Option (Application S))
      {b : Application S}
      → Idle a x
      → ((c : Application S) → IsIdle a c → f c ≡ some b → IsIdle a b)
      → then_serve x f ≡ some b
      → IsIdle a b
  then_serve-Idle a none f h k e = absurd (cc)
  then_serve-Idle a (some (c, reply)) f h k e = k c h e

  serve_all-IsIdle :
      (w : World S) (a b c : Application S) (rs : List (Moment × Request))
      → IsIdle a b
      → serve_all w b rs ≡ some c
      → IsIdle a c
  unfolding serve_all serve
  serve_all-IsIdle w a b c [] h e = let same : b ≡ c = ground arith in subst (IsIdle a) same h
  serve_all-IsIdle w a b c ((t, r) ∷ rs) h e =
      then_serve-Idle a (handle w t b r r.route) (λ d. serve_all w d rs)
        (handle-Idle w t a b r r.route h) (λ d k. serve_all-IsIdle w a d c rs k) e

  -- The bug: nobody can sign in. After any requests to an application that starts with no session and
  -- no verifier, every request for a page behind the login is turned away, and no Telegram account
  -- was connected and no digest started.
  pub serve_all-IsTurnedAway :
      (w : World S) (a b : Application S) (rs : List (Moment × Request)) (t : Moment) (r : Request)
      → a.sessions ≡ []
      → a.auth.pkce_store ≡ []
      → serve_all w a rs ≡ some b
      → is_protected r.route ≡ true
      → IsTurnedAway w t b r × (b.accounts ≡ a.accounts) × (b.digests ≡ a.digests)
  unfolding serve
  serve_all-IsTurnedAway w a b rs t r h k e p =
      let idle =
        serve_all-IsIdle w a a b rs
          (record { sessions = h; verifiers = k; accounts = refl; digests = refl }) e in
      let (c, away) = require_auth_nobody t b.sessions r.cookie idle.sessions in
      (handle-redirected w t b r r.route c away p, idle.accounts, idle.digests)
