-- ===== src/Tests/Auth.antt =====
-- A manager over a map of tokens, with a provider that grants every code.
use mathlib.Core.Option.{some-injective}
use gmaildigest_go.Prelude.{
  true, ℕ, zero, suc, ◌+◌, ◌*◌, ◌/◌, ◌%◌, ◌≡◌, ◌≢◌, ◌≤◌, ◌<◌, ◌⊎◌, ◌↔◌, refl, ap, sym, false, List,
  [], ◌∷◌, Option, some, none, arith, length, if_pos,
}
use gmaildigest_go.Prelude.Int.{pos}
use gmaildigest_go.Prelude.Text.{Text, codes, text_dec}
use gmaildigest_go.Prelude.Maps.{Map, lookup, insert, delete, lookup-insert}
use gmaildigest_go.Prelude.Results.{ok, err}
use gmaildigest_go.Cron.Calendar.{Time, hour}
use gmaildigest_go.Cron.Schedule.{CronSchedule, parse_cron, next}
use gmaildigest_go.Jobs.Job.{Job, running}
use gmaildigest_go.Auth.Stores.{
  Crypto, no_verifier, generate_code_verifier, store_state, validate_state, delete_state,
  get_verifier,
}
use gmaildigest_go.Auth.Stores.OneTime.{StateCall, stores, validates, accepted, issued, accepted-le}
use gmaildigest_go.Auth.Stores.Verifier.{generate_code_verifier-length}
use gmaildigest_go.Auth.OAuth.{
  Token, Config, Storage, Provider, OAuthManager, handle_callback, get_auth_url,
  generate_random_state,
}
use gmaildigest_go.Auth.OAuth.Callback.{Authorized, handle_callback-ok}
use gmaildigest_go.Auth.OAuth.Flow.{asks_url, call, calls, handle_callback_never_ok}
use gmaildigest_go.Auth.Renewal.{refresh_token_of, preserve}
use gmaildigest_go.Auth.Refresh.{get_refresh_schedule, refresh_user_token}
use gmaildigest_go.Auth.Refresh.Renewed.{IsLeft, IsKept, IsReplaced, refresh_user_token-ok}
use gmaildigest_go.Auth.Refresh.Hourly.{refresh_schedule-next}
use gmaildigest_go.Scheduler.TokenRefresh.{PayloadJson}

-- A text of a length, in place of what an encoder gives.
abbrev pub repeat : ℕ → Text
repeat zero = []
repeat (suc n) = 65 ∷ repeat n

pub length-repeat : (n : ℕ) → length (repeat n) ≡ n
length-repeat zero = refl
length-repeat (suc n) = omega (arith, length-repeat n)

abbrev pub plain_crypto : Crypto
plain_crypto = record {
  raw_url = λ b. repeat ((length b * 8 + 5) / 6);
  sha256 = λ b. repeat 32;
  length-raw_url = λ b. length-repeat ((length b * 8 + 5) / 6);
}

abbrev pub random : ℕ → Option Text
random n = some (repeat n)

random-length : (k : ℕ) (b : Text) → random k ≡ some b → length b ≡ k
random-length k b e = rw (← some-injective _ _ e) (length-repeat k)

generated : generate_code_verifier plain_crypto random (pos 128) ≡ ok (repeat 171)
unfolding generate_code_verifier
generated = refl

-- `GetAuthURL` asks for 128 and gets 171 characters.
generate_code_verifier-length_example :
    (43 ≤ 128)
    × (128 ≤ 128)
    × (128 < length (repeat 171))
    × ((128 < length (repeat 171)) ↔ (96 < 128))
generate_code_verifier-length_example =
    generate_code_verifier-length plain_crypto random 128 random-length generated

abbrev state_calls : List StateCall
state_calls =
    stores (codes "ann") (codes "s1")
    ∷ validates (codes "ann") (codes "s2")
    ∷ validates (codes "ann") (codes "s1")
    ∷ validates (codes "ann") (codes "s1")
    ∷ []

accepted_once : accepted (codes "ann") [] state_calls ≡ 1
unfolding accepted store_state validate_state lookup insert delete text_dec
accepted_once = refl

accepted-le_example : accepted (codes "ann") [] state_calls ≤ issued (codes "ann") state_calls
accepted-le_example = accepted-le (codes "ann") state_calls

pub lookup-insert_same : (s : Map Token) (u : Text) (t : Token) → lookup u (insert u t s) ≡ some t
lookup-insert_same s u t = rw (lookup-insert u u t s, if_pos (text_dec u u) refl) refl

abbrev pub in_memory : Storage (Map Token)
in_memory = record {
  get_token = λ s u. ok (lookup u s);
  store_token = λ s u t. (insert u t s, none);
  delete_token = λ s u. (delete u s, none);
  get-store_token = λ s u t e. ap ok (lookup-insert_same s u t);
}

abbrev pub old_token : Token
old_token = record { access_token = codes "x"; refresh_token = codes "r"; expiry = 100 }

-- A new token comes without a refresh token.
abbrev pub new_token : Token
new_token = record { access_token = codes "y"; refresh_token = []; expiry = 2 * hour }

pub false_is_true : false ≡ true → ⊥
false_is_true e = cc

abbrev pub generous : Provider
generous = record {
  auth_code_url = λ c state challenge. state;
  exchange = λ c code verifier. some old_token;
  refresh = λ c t. some new_token;
  is_valid = λ t. false;
  refresh-valid = λ c t e. absurd (false_is_true e);
}

abbrev pub client : Config
client = record {
  client_id = codes "id";
  client_secret = codes "secret";
  redirect_url = codes "url";
  scopes = [];
}

-- A manager that knows no user; the second has a state and a verifier for ann.
abbrev pub fresh : OAuthManager (Map Token)
fresh = record {
  config = some client;
  storage = [];
  pkce_store = [];
  state_store = [];
  token_source = none;
}

abbrev asked : OAuthManager (Map Token)
asked = record fresh {
  pkce_store = (codes "s", codes "v") ∷ [];
  state_store = (codes "ann", codes "s") ∷ [];
}

abbrev signed_in : OAuthManager (Map Token)
signed_in = record fresh { storage = (codes "ann", old_token) ∷ [] }

callback :
    handle_callback in_memory generous asked (codes "c") (codes "s") (codes "ann")
    ≡ some (signed_in, ok tt)
unfolding handle_callback validate_state delete_state get_verifier lookup insert delete text_dec
callback = refl

handle_callback-ok_example :
    Authorized in_memory generous (codes "c") (codes "s") (codes "ann") asked signed_in
handle_callback-ok_example =
    handle_callback-ok in_memory generous asked signed_in (codes "c") (codes "s") (codes "ann")
      callback

abbrev after_url : OAuthManager (Map Token)
after_url = record fresh { state_store = (codes "ann", generate_random_state) ∷ [] }

url_asked :
    calls plain_crypto in_memory generous fresh (asks_url random (codes "ann") ∷ [])
    ≡ some after_url
unfolding calls call get_auth_url generate_code_verifier store_state insert
url_asked = refl

-- The callback that answers the URL is refused: the state is right, and there is no verifier.
callback_refused :
    handle_callback in_memory generous after_url (codes "c") generate_random_state (codes "ann")
    ≡ some (fresh, err (no_verifier generate_random_state))
unfolding handle_callback validate_state delete_state get_verifier lookup delete text_dec
callback_refused = refl

handle_callback_never_ok_example :
    handle_callback in_memory generous after_url (codes "c") generate_random_state (codes "ann")
    ≢ some (signed_in, ok tt)
handle_callback_never_ok_example =
    handle_callback_never_ok plain_crypto in_memory generous fresh after_url signed_in
      (asks_url random (codes "ann") ∷ []) (codes "c") generate_random_state (codes "ann") refl
      url_asked

abbrev renewed : OAuthManager (Map Token)
renewed = record fresh {
  storage = (codes "ann", record new_token { refresh_token = codes "r" }) ∷ [];
}

refreshed : refresh_token_of in_memory generous signed_in (codes "ann") ≡ some (renewed, ok tt)
unfolding refresh_token_of preserve lookup insert text_dec
refreshed = refl

due : refresh_user_token in_memory generous 99 signed_in (codes "ann") ≡ some (renewed, ok tt)
unfolding refresh_user_token refresh_token_of preserve lookup insert text_dec
due = refl

refresh_user_token-ok_example :
    (t : Token) × (in_memory.get_token signed_in.storage (codes "ann") ≡ ok (some t))
    × (IsLeft 99 signed_in renewed t
        ⊎ IsKept in_memory generous 99 (codes "ann") signed_in renewed t
        ⊎ IsReplaced in_memory generous 99 (codes "ann") signed_in renewed t)
refresh_user_token-ok_example =
    refresh_user_token-ok in_memory generous 99 signed_in renewed (codes "ann") due

refresh_schedule-next_example :
    (c : CronSchedule) × (parse_cron get_refresh_schedule ≡ ok c)
    × (u : Time) × (next 60 c 1000 ≡ some u)
    × (u % hour ≡ 0)
    × (1000 < u)
    × (u ≤ 1000 + hour)
refresh_schedule-next_example = refresh_schedule-next 1000

abbrev plain_payload : PayloadJson
plain_payload = record {
  marshal_user = λ u. some u;
  unmarshal_user = λ p. some p;
  unmarshal-marshal_user = λ u p e. sym e;
}

abbrev refresh_job : Job
refresh_job = record {
  id = codes "j1";
  user_id = codes "ann";
  job_type = codes "token_refresh";
  schedule = codes "0 * * * *";
  payload = codes "ann";
  status = running;
  retry_count = 0;
  last_error = [];
  next_run = 1500;
  last_run = none;
  created_at = 7;
  updated_at = 7;
}
