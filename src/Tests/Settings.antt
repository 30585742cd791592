-- ===== src/Tests/Settings.antt =====
-- A configuration file, with two variables set.
use gmaildigest_go.Prelude.{
  ℕ, ◌≡◌, ◌≢◌, refl, ◌≤◌, true, [], none, some, arith, length, if◌then◌else◌,
}
use gmaildigest_go.Prelude.Int.{pos, negsuc}
use gmaildigest_go.Prelude.Text.{Text, codes, text_dec, eqt}
use gmaildigest_go.Prelude.Results.{ok, err}
use gmaildigest_go.Cron.Words.{digits_value}
use gmaildigest_go.Cron.Calendar.{hour}
use gmaildigest_go.Settings.Numbers.{parse_int}
use gmaildigest_go.Settings.{
  Config, System, bad_http_port, meets_tags, apply_env_overrides, validate, load,
}
use gmaildigest_go.Settings.Loaded.{IsLoaded, load-IsLoaded}
use gmaildigest_go.Settings.LongKey.{with_key, load-store_token}
use gmaildigest_go.Storage.Tokens.{get_token, store_token}
use gmaildigest_go.Tests.Tokens.{bytes, marking, access_only, sevens, live, empty, with_token, bare}

signed : parse_int (codes "-12") ≡ some (negsuc 11)
unfolding parse_int digits_value
signed = refl

no_number : parse_int (codes "12a") ≡ none
unfolding parse_int digits_value
no_number = refl

-- A key of 32 bytes.
abbrev file : Config
file = record {
  http_port = pos 8080;
  metrics_port = pos 9090;
  log_level = codes "info";
  num_workers = pos 4;
  db_path = codes "a.db";
  encryption_key = bytes 32;
  client_id = codes "id";
  client_secret = codes "s";
  credentials_path = codes "c.json";
  bot_token = codes "t";
  api_key = codes "k";
  default_interval = pos hour;
}

abbrev variables : Text → Text
variables name =
    if eqt name (codes "HTTP_PORT")
    then codes "80"
    else if eqt name (codes "LOG_LEVEL")
    then codes "debug"
    else []

abbrev loaded : Config
loaded = record file { http_port = pos 80; log_level = codes "debug" }

le_refl : (n : ℕ) → n ≤ n
le_refl n = omega arith

abbrev system : System
system = record {
  read_file = λ path. some [];
  unmarshal = λ text. some file;
  getenv = variables;
  parse_duration = λ s. none;
  exists = λ path. true;
  is_file = λ path. true;
  rune_count = λ s. length s;
  rune_count-le = λ s. le_refl (length s);
  validates = meets_tags (λ path. true) (λ s. length s);
  validates-tags = λ c. refl;
}

config_loaded : load system (codes "config.json") ≡ ok loaded
unfolding load apply_env_overrides validate parse_int digits_value text_dec
config_loaded = refl

bad_port :
    load (record system { getenv = λ name. codes "eighty" }) (codes "config.json")
    ≡ err bad_http_port
unfolding load apply_env_overrides parse_int digits_value
bad_port = refl

load-IsLoaded_example : IsLoaded system (codes "config.json") loaded
load-IsLoaded_example = load-IsLoaded system (codes "config.json") loaded config_loaded

long : length (bytes 33) ≢ 32
long e = absurd (omega (arith, e))

enough : 32 ≤ length (bytes 33)
enough = omega arith

load-store_token_example :
    (load (with_key system (bytes 33)) (codes "config.json")
      ≡ ok (record loaded { encryption_key = bytes 33 }))
    × (store_token marking access_only sevens
          (bytes 33)
          live
          empty
          (codes "ann")
          (some (bare (codes "secret")))
        ≢ ok with_token)
    × (get_token marking access_only (bytes 33) live empty (codes "ann")
        ≢ ok (bare (codes "secret")))
load-store_token_example =
    load-store_token system (codes "config.json") loaded (bytes 33) marking access_only sevens live
      empty with_token (codes "ann") (some (bare (codes "secret"))) (bare (codes "secret"))
      config_loaded enough long
