-- ===== src/Tests/App.antt =====
-- Requests to an application.
use gmaildigest_go.Prelude.{any, true, false, ◌++◌, ◌≡◌, refl, false, List, [], ◌∷◌, none, some}
use gmaildigest_go.Prelude.Int.{pos}
use gmaildigest_go.Prelude.Text.{codes, text_dec}
use gmaildigest_go.Prelude.Maps.{Map, lookup, insert, delete}
use gmaildigest_go.Cron.Words.{digits_value}
use gmaildigest_go.Session.Store.{get}
use gmaildigest_go.Auth.Stores.{
  generate_code_verifier, store_state, validate_state, delete_state, get_verifier,
}
use gmaildigest_go.Auth.OAuth.{Token, get_auth_url, handle_callback, generate_random_state}
use gmaildigest_go.Storage.Accounts.{Account, has_id, is_taken, update_user_telegram_details}
use gmaildigest_go.Settings.Numbers.{parse_int, show_int, show_number, show_loop}
use gmaildigest_go.App.Middleware.{require_auth, served}
use gmaildigest_go.App.Handlers.{
  Application, Request, Moment, Reply, World, Route, login, auth_callback, dashboard,
  telegram_connect, plain, route, serve, handle_logout, handle_login, handle_auth_callback,
  handle_telegram_connect, handle_dashboard,
}
use gmaildigest_go.App.Handlers.Link.{HasChat, serve-link_token}
use gmaildigest_go.Digest.Telegram.{
  Incoming, welcome, link_token, handle_start_command, start_polling,
}
use gmaildigest_go.App.Handlers.Reached.{IsTurnedAway, serve-handle_logout}
use gmaildigest_go.App.Handlers.Nobody.{serve_all, serve_all-IsTurnedAway}
use gmaildigest_go.Tests.Auth.{plain_crypto, in_memory, generous, fresh, random}

abbrev world : World (Map Token)
world = record { crypto = plain_crypto; storage = in_memory; provider = generous; base64 = λ b. b }

abbrev moment : Moment
moment = record {
  now = 10;
  verifier_bytes = random;
  session_bytes = some (codes "id");
  call = record { now = 1; fails = false };
}

abbrev ann : Account
ann = record {
  id = codes "ann";
  email = codes "ann@x";
  telegram_user_id = none;
  telegram_chat_id = none;
  created_at = 0;
  updated_at = 0;
}

abbrev new_app : Application (Map Token)
new_app = record { auth = fresh; sessions = []; accounts = ann ∷ []; digests = [] }

-- Ann is signed in.
abbrev with_session : Application (Map Token)
with_session = record new_app {
  sessions = (codes "k", record { user_id = codes "ann"; expires = 90 }) ∷ [];
}

abbrev request : Route → Request
request r = record {
  route = r;
  cookie = some (codes "k");
  code = codes "c";
  state = generate_random_state;
  token = codes "42";
}

anywhere : route (codes "GET") (codes "/x") ≡ some dashboard
unfolding route text_dec
anywhere = refl

no_get_for_logout : route (codes "GET") (codes "/logout") ≡ some dashboard
unfolding route text_dec
no_get_for_logout = refl

welcomed :
    serve world moment with_session (request dashboard)
    ≡ some (with_session, plain 200 (codes "Welcome, ann!"))
unfolding serve require_auth get lookup text_dec handle_dashboard
welcomed = refl

connected :
    serve world moment with_session (request telegram_connect)
    ≡ some (
      record with_session {
        accounts =
            record ann {
              telegram_user_id = some (pos 42);
              telegram_chat_id = some (pos 42);
              updated_at = 1;
            }
            ∷ [];
      },
      plain 200 (codes "Telegram account successfully connected! You can now close this window."),
    )
unfolding serve require_auth get lookup text_dec handle_telegram_connect parse_int digits_value
    update_user_telegram_details
connected = refl

serve-handle_logout_example :
    IsTurnedAway world moment (handle_logout with_session (some (codes "k"))).0 (request dashboard)
serve-handle_logout_example = serve-handle_logout world moment with_session (request dashboard) refl

abbrev flow : List (Moment × Request)
flow = (moment, request login) ∷ (moment, request auth_callback) ∷ []

abbrev after_flow : Application (Map Token)
after_flow = new_app

-- The callback has used up the state, and found no verifier.
flow_served : serve_all world new_app flow ≡ some after_flow
unfolding serve_all serve handle_login handle_auth_callback get_auth_url handle_callback
    generate_code_verifier store_state validate_state delete_state get_verifier lookup insert delete
    text_dec
flow_served = refl

serve_all-IsTurnedAway_example :
    IsTurnedAway world moment after_flow (request dashboard)
    × (after_flow.accounts ≡ new_app.accounts)
    × (after_flow.digests ≡ new_app.digests)
serve_all-IsTurnedAway_example =
    serve_all-IsTurnedAway world new_app after_flow flow moment (request dashboard) refl refl
      flow_served refl

abbrev incoming : Incoming
incoming = record { from_id = pos 42; chat_id = pos 43; command = some (codes "start") }

answered :
    start_polling (pos 80) (none ∷ some incoming ∷ [])
    ≡ (pos 43, welcome ++ codes "http://localhost:80/telegram/connect?token=42") ∷ []
unfolding start_polling handle_start_command show_int show_number show_loop text_dec
answered = refl

link_followed : codes "42" ≡ link_token incoming
unfolding show_int show_number show_loop
link_followed = refl

ann_signed_in : require_auth 10 with_session.sessions (some (codes "k")) ≡ served (codes "ann")
unfolding require_auth get lookup text_dec
ann_signed_in = refl

ann_known : any (has_id (codes "ann")) with_session.accounts ≡ true
unfolding text_dec
ann_known = refl

nobody_else : any (is_taken (codes "ann") (pos 42)) with_session.accounts ≡ false
unfolding text_dec
nobody_else = refl

serve-link_token_example :
    (us : List Account) × (reply : Reply) × (serve world moment with_session
        (request telegram_connect)
      ≡ some (record with_session { accounts = us }, reply))
    × (reply.status ≡ 200)
    × HasChat us (codes "ann") (pos 42)
serve-link_token_example =
    serve-link_token world moment with_session (request telegram_connect) (codes "ann") incoming
      refl link_followed refl ann_signed_in ann_known nobody_else refl
