-- ===== src/Settings.antt =====
-- The configuration of the program: internal/config/config.go.
pub mod Numbers
pub mod Durations
pub mod Loaded
pub mod LongKey
use gmaildigest_go.Prelude.{
  ℕ, ◌*◌, ◌≤◌, ◌≡◌, Bool, true, false, not, ◌&&◌, ◌||◌, List, [], ◌∷◌, Option, none, some, any, leb,
  length, if◌then◌else◌,
}
use gmaildigest_go.Prelude.Int.{ℤ, pos, leb_ℤ}
use gmaildigest_go.Prelude.Text.{Text, codes, eqt, is_empty}
use gmaildigest_go.Prelude.Results.{Result, ok, err, ◌>>=◌}
use gmaildigest_go.Cron.Calendar.{second}
use gmaildigest_go.Settings.Numbers.{parse_int}

-- `Config`, its nested structs flat; the interval is in nanoseconds.
pub record Config : Type 0 where
  pub http_port : ℤ
  pub metrics_port : ℤ
  pub log_level : Text
  pub num_workers : ℤ
  pub db_path : Text
  pub encryption_key : Text
  pub client_id : Text
  pub client_secret : Text
  pub credentials_path : Text
  pub bot_token : Text
  pub api_key : Text
  pub default_interval : ℤ

pub data SettingsError : Type 0 where
  unreadable bad_json bad_http_port bad_metrics_port bad_interval invalid no_credentials :
      SettingsError

abbrev pub required : Text → Bool
required s = not (is_empty s)

abbrev pub is_level : Text → Bool
is_level s = any (eqt s) (codes "debug" ∷ codes "info" ∷ codes "warn" ∷ codes "error" ∷ [])

-- The `validate` tags of `Config`.
abbrev pub meets_tags : (Text → Bool) → (Text → ℕ) → Config → Bool
meets_tags is_file rune_count c =
    leb_ℤ (pos 0) c.http_port
    && leb_ℤ (pos 0) c.metrics_port
    && is_level c.log_level
    && leb_ℤ (pos 1) c.num_workers
    && required c.db_path
    && (required c.encryption_key && leb 32 (rune_count c.encryption_key))
    && required c.client_id
    && required c.client_secret
    && (required c.credentials_path && is_file c.credentials_path)
    && required c.bot_token
    && required c.api_key
    && leb_ℤ (pos (60 * second)) c.default_interval

-- What the program finds where it runs: files, variables, `json.Unmarshal` into a `Config`,
-- `time.ParseDuration`, and the validator of structs, with what it makes of paths and strings.
pub record System : Type 0 where
  pub read_file : Text → Option Text
  pub unmarshal : Text → Option Config
  pub getenv : Text → Text
  pub parse_duration : Text → Option ℤ
  pub exists : Text → Bool
  pub is_file : Text → Bool
  pub rune_count : Text → ℕ
  pub rune_count-le : (s : Text) → rune_count s ≤ length s
  pub validates : Config → Bool
  -- The validator follows the tags.
  pub validates-tags : (c : Config) → validates c ≡ meets_tags is_file rune_count c

-- `if v := os.Getenv(name); v != "" { ... }` for a text.
abbrev pub or_env : System → Text → Text → Text
or_env s name old = if is_empty (s.getenv name) then old else s.getenv name

abbrev pub parsed : SettingsError → Option ℤ → Result SettingsError ℤ
parsed e none = err e
parsed e (some n) = ok n

-- The same for what is parsed.
abbrev pub or_parsed :
    System → (Text → Option ℤ) → SettingsError → Text → ℤ → Result SettingsError ℤ
or_parsed s parse e name old =
    if is_empty (s.getenv name) then ok old else parsed e (parse (s.getenv name))

-- `applyEnvOverrides`.
unfoldable pub apply_env_overrides : System → Config → Result SettingsError Config
apply_env_overrides s c = do
  http ← or_parsed s parse_int bad_http_port (codes "HTTP_PORT") c.http_port
  metrics ← or_parsed s parse_int bad_metrics_port (codes "METRICS_PORT") c.metrics_port
  interval ←
      or_parsed s s.parse_duration bad_interval (codes "SCHEDULER_DEFAULT_INTERVAL")
        c.default_interval
  ok (record c {
    bot_token = or_env s (codes "TELEGRAM_BOT_TOKEN") c.bot_token;
    client_id = or_env s (codes "AUTH_CLIENT_ID") c.client_id;
    client_secret = or_env s (codes "AUTH_CLIENT_SECRET") c.client_secret;
    http_port = http;
    metrics_port = metrics;
    log_level = or_env s (codes "LOG_LEVEL") c.log_level;
    db_path = or_env s (codes "DB_PATH") c.db_path;
    encryption_key = or_env s (codes "ENCRYPTION_KEY") c.encryption_key;
    default_interval = interval;
    api_key = or_env s (codes "OPENAI_API_KEY") c.api_key;
  })

-- `validate`.
unfoldable pub validate : System → Config → Result SettingsError (Unit {0})
validate s c =
    if not (s.validates c)
    then err invalid
    else if not (s.exists c.credentials_path)
    then err no_credentials
    else ok tt

abbrev pub or_error {ℓ} : {A : Type ℓ} → SettingsError → Option A → Result SettingsError A
or_error e none = err e
or_error e (some a) = ok a

-- `Load`.
unfoldable pub load : System → Text → Result SettingsError Config
load s path = do
  text ← or_error unreadable (s.read_file path)
  file ← or_error bad_json (s.unmarshal text)
  config ← apply_env_overrides s file
  _ ← validate s config
  ok config
