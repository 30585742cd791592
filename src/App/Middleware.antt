-- ===== src/App/Middleware.antt =====
-- The middleware that lets only signed-in users through: `internal/app/middleware.go`.
use gmaildigest_go.Prelude.{
  ◌≡◌, ◌≤◌, ◌↔◌, refl, Bool, true, false, List, Option, some, none, arith, ltb, Bool-cases, inl,
  inr,
}
use gmaildigest_go.Prelude.Text.{Text}
use gmaildigest_go.Prelude.Results.{Result, ok, err}
use gmaildigest_go.Cron.Calendar.{Time}
use gmaildigest_go.Session.Store.{SessionData, InMemoryStore, SessionError, check_expiry, get}
use gmaildigest_go.Session.Granted.{SessionCall, run, granted, get-run}

-- What is done with a request: a redirect to the login page, with the cookie cleared or not, or a call
-- of the next handler for a user.
pub data Response : Type 0 where
  redirected : Bool → Response
  served : Text → Response

abbrev pub answer : Result SessionError Text → Response
answer (ok user) = served user
answer (err e) = redirected true

-- `requireAuth`, from the cookie `session_id` of the request.
unfoldable pub require_auth : Time → InMemoryStore → Option Text → Response
require_auth now s none = redirected false
require_auth now s (some id) = answer (get now s id)

-- The session id of the cookie was granted to the user and has not expired.
pub record SignedIn (base64 : Text → Text) (cs : List SessionCall) (now : Time)
    (cookie : Option Text) (user : Text) : Type 0 where
  pub id : Text
  pub session : SessionData
  pub sent : cookie ≡ some id
  pub grant : granted base64 cs id ≡ some session
  pub owner : session.user_id ≡ user
  pub alive : now ≤ session.expires

answer-served :
    (now : Time) (o : Option SessionData) (user : Text)
    → answer (check_expiry now o) ≡ served user
    → (d : SessionData) × (o ≡ some d) × (d.user_id ≡ user) × (now ≤ d.expires)
answer-served now none user h = absurd (cc)
answer-served now (some d) user h = elim (Bool-cases (ltb d.expires now)) [
  | inl late ↦ absurd (ground arith)
  | inr alive ↦ (d, refl, ground arith, ground arith)
]

-- Whatever sessions were created and deleted before: the next handler is called for a user exactly
-- when the cookie holds a session id whose latest creation was for that user, is not deleted since,
-- and has not expired.
pub require_auth_lem :
    (base64 : Text → Text) (cs : List SessionCall) (now : Time) (cookie : Option Text) (user : Text)
    → (require_auth now (run base64 cs) cookie ≡ served user) ↔ SignedIn base64 cs now cookie user
unfolding require_auth
require_auth_lem base64 cs now cookie user = (only cookie, λ a. all' cookie a)
  where
    only :
        (c : Option Text)
        → require_auth now (run base64 cs) c ≡ served user
        → SignedIn base64 cs now c user
    only none h = absurd (cc)
    only (some id) h =
        let (d, g, o, alive) =
          answer-served now (granted base64 cs id) user (rw (get-run base64 cs now id) at h) in
        record { id = id; session = d; sent = refl; grant = g; owner = o; alive = alive }

    all' :
        (c : Option Text)
        → SignedIn base64 cs now c user
        → require_auth now (run base64 cs) c ≡ served user
    all' c a = rw (a.sent, get-run base64 cs now a.id, a.grant) (ground (arith, a.alive, a.owner))
