-- ===== src/App/Handlers/Reached.antt =====
-- Requests that are turned away.
use gmaildigest_go.Prelude.{◌≡◌, refl, Bool, true, false, Option, none, some, arith}
use gmaildigest_go.Prelude.Text.{Text, codes}
use gmaildigest_go.Prelude.Maps.{lookup-delete}
use gmaildigest_go.Session.Store.{InMemoryStore, get, delete_session}
use gmaildigest_go.App.Middleware.{redirected, answer, require_auth}
use gmaildigest_go.App.Handlers.{
  Application, Reply, Cookie, Route, Request, Moment, World, login, auth_callback, logout,
  dashboard, telegram_connect, digest_now, redirect, cleared, guarded, handle, handle_logout, serve,
}

-- The routes behind `requireAuth`.
abbrev pub is_protected : Route → Bool
is_protected login = false
is_protected auth_callback = false
is_protected logout = false
is_protected dashboard = true
is_protected telegram_connect = true
is_protected digest_now = true

get-delete_session :
    (t : Moment) (s : InMemoryStore) (id : Text)
    → answer (get t.now (delete_session s id) id) ≡ redirected true
unfolding get delete_session
get-delete_session t s id = rw (lookup-delete id id s) (ground arith)

module _ {S : Type 0} where
  -- A request that is turned away: a redirect to the login page, and nothing changes.
  abbrev pub IsTurnedAway : World S → Moment → Application S → Request → Type 0
  IsTurnedAway w t a r =
      (c : Option Cookie) × (serve w t a r ≡ some (a, redirect (codes "/login") c))

  guarded-redirected :
      (a : Application S) (b : Bool) (next : Text → Application S × Reply)
      → (c : Option Cookie) × (guarded a (redirected b) next
          ≡ some (a, redirect (codes "/login") c))
  guarded-redirected a true next = (some cleared, refl)
  guarded-redirected a false next = (none, refl)

  pub handle-redirected :
      (w : World S) (t : Moment) (a : Application S) (r : Request) (x : Route) (b : Bool)
      → require_auth t.now a.sessions r.cookie ≡ redirected b
      → is_protected x ≡ true
      → (c : Option Cookie) × (handle w t a r x ≡ some (a, redirect (codes "/login") c))
  handle-redirected w t a r login b h k = absurd (cc)
  handle-redirected w t a r auth_callback b h k = absurd (cc)
  handle-redirected w t a r logout b h k = absurd (cc)
  handle-redirected w t a r dashboard b h k = rw h (guarded-redirected a b _)
  handle-redirected w t a r telegram_connect b h k = rw h (guarded-redirected a b _)
  handle-redirected w t a r digest_now b h k = rw h (guarded-redirected a b _)

  -- After a logout, every request with the same cookie for a page behind the login is turned away, at
  -- any time.
  pub serve-handle_logout :
      (w : World S) (t : Moment) (a : Application S) (r : Request)
      → is_protected r.route ≡ true
      → IsTurnedAway w t (handle_logout a r.cookie).0 r
  unfolding serve handle_logout require_auth
  serve-handle_logout w t a r h = from r.cookie refl
    where
      from :
          (o : Option Text)
          → r.cookie ≡ o
          → (c : Option Cookie) × (handle w t (handle_logout a o).0 r r.route
              ≡ some ((handle_logout a o).0, redirect (codes "/login") c))
      from none k = handle-redirected w t a r r.route false (rw k refl) h
      from (some id) k =
          handle-redirected w t (record a { sessions = delete_session a.sessions id }) r r.route
            true (rw k (get-delete_session t a.sessions id)) h
