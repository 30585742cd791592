-- ===== src/Settings/Loaded.antt =====
-- What a loaded configuration satisfies.
use gmaildigest_go.Prelude.{
  ◌≡◌, refl, sym, subst, ◌∙◌, true, Option, none, some, if◌then◌else◌, arith, Bool-cases, inl, inr,
}
use gmaildigest_go.Prelude.Int.{ℤ}
use gmaildigest_go.Prelude.Text.{Text, codes, is_empty}
use gmaildigest_go.Prelude.Results.{Result, ok, >>=-eq-ok}
use gmaildigest_go.Settings.Numbers.{parse_int}
use gmaildigest_go.Settings.{
  Config, System, SettingsError, meets_tags, bad_http_port, bad_metrics_port, bad_interval, or_env,
  or_parsed, parsed, or_error, apply_env_overrides, validate, load, unreadable, bad_json,
}

-- A setting that is a number: what the variable holds if it is set, and the file's otherwise.
abbrev pub IsFrom : System → (Text → Option ℤ) → Text → ℤ → ℤ → Type 0
IsFrom s parse name old new =
    if is_empty (s.getenv name) then new ≡ old else parse (s.getenv name) ≡ some new

-- A configuration that the variables override.
pub record IsOverridden (s : System) (file c : Config) : Type 0 where
  pub bot_token : c.bot_token ≡ or_env s (codes "TELEGRAM_BOT_TOKEN") file.bot_token
  pub client_id : c.client_id ≡ or_env s (codes "AUTH_CLIENT_ID") file.client_id
  pub client_secret : c.client_secret ≡ or_env s (codes "AUTH_CLIENT_SECRET") file.client_secret
  pub log_level : c.log_level ≡ or_env s (codes "LOG_LEVEL") file.log_level
  pub db_path : c.db_path ≡ or_env s (codes "DB_PATH") file.db_path
  pub encryption_key : c.encryption_key ≡ or_env s (codes "ENCRYPTION_KEY") file.encryption_key
  pub api_key : c.api_key ≡ or_env s (codes "OPENAI_API_KEY") file.api_key
  pub http_port : IsFrom s parse_int (codes "HTTP_PORT") file.http_port c.http_port
  pub metrics_port : IsFrom s parse_int (codes "METRICS_PORT") file.metrics_port c.metrics_port
  pub default_interval :
      IsFrom s s.parse_duration
        (codes "SCHEDULER_DEFAULT_INTERVAL")
        file.default_interval
        c.default_interval
  -- No variable overrides these.
  pub num_workers : c.num_workers ≡ file.num_workers
  pub credentials_path : c.credentials_path ≡ file.credentials_path

-- A configuration that was read from a file.
pub record IsLoaded (s : System) (path : Text) (c : Config) : Type 0 where
  pub text : Text
  pub file : Config
  pub read : s.read_file path ≡ some text
  pub decoded : s.unmarshal text ≡ some file
  pub overridden : IsOverridden s file c
  pub tags : meets_tags s.is_file s.rune_count c ≡ true
  pub credentials : s.exists c.credentials_path ≡ true

parsed-eq : (e : SettingsError) (o : Option ℤ) {n : ℤ} → parsed e o ≡ ok n → o ≡ some n
parsed-eq e none h = absurd (cc)
parsed-eq e (some m) h = ground arith

or_parsed-IsFrom :
    (s : System) (parse : Text → Option ℤ) (e : SettingsError) (name : Text) (old : ℤ) {n : ℤ}
    → or_parsed s parse e name old ≡ ok n
    → IsFrom s parse name old n
or_parsed-IsFrom s parse e name old {n} h = elim (Bool-cases (is_empty (s.getenv name))) [
  | inl unset ↦ rw unset (let same : old ≡ n = ground arith in sym same)
  | inr set ↦ rw set (parsed-eq e (parse (s.getenv name)) (rw set at h))
]

pub validate-ok :
    (s : System) (c : Config) {u : Unit {0}}
    → validate s c ≡ ok u
    → (meets_tags s.is_file s.rune_count c ≡ true) × (s.exists c.credentials_path ≡ true)
unfolding validate
validate-ok s c h = (sym (s.validates-tags c) ∙ ground arith, ground arith)

pub or_error-eq {ℓ} :
    {A : Type ℓ} (e : SettingsError) (o : Option A) {a : A} → or_error e o ≡ ok a → o ≡ some a
or_error-eq e none h = absurd (cc)
or_error-eq e (some a) h = ground arith

pub ok-injective : {a b : Config} → ◌≡◌ {A = Result SettingsError Config} (ok a) (ok b) → a ≡ b
ok-injective h = ground arith

apply_env_overrides-IsOverridden :
    (s : System) (file : Config) {c : Config}
    → apply_env_overrides s file ≡ ok c
    → IsOverridden s file c
unfolding apply_env_overrides
apply_env_overrides-IsOverridden s file h =
    let (http, p, h₁) =
      >>=-eq-ok (or_parsed s parse_int bad_http_port (codes "HTTP_PORT") file.http_port) _ h in
    let (metrics, q, h₂) =
      >>=-eq-ok (or_parsed s parse_int bad_metrics_port (codes "METRICS_PORT") file.metrics_port) _
        h₁ in
    let (interval, r, h₃) =
      >>=-eq-ok
        (or_parsed s s.parse_duration bad_interval (codes "SCHEDULER_DEFAULT_INTERVAL")
          file.default_interval)
        _ h₂ in
    subst (IsOverridden s file) (ok-injective h₃) (record {
      bot_token = refl;
      client_id = refl;
      client_secret = refl;
      log_level = refl;
      db_path = refl;
      encryption_key = refl;
      api_key = refl;
      http_port = or_parsed-IsFrom s parse_int _ (codes "HTTP_PORT") file.http_port p;
      metrics_port = or_parsed-IsFrom s parse_int _ (codes "METRICS_PORT") file.metrics_port q;
      default_interval =
          or_parsed-IsFrom s s.parse_duration _ (codes "SCHEDULER_DEFAULT_INTERVAL")
            file.default_interval r;
      num_workers = refl;
      credentials_path = refl;
    })

-- A configuration that `Load` returns meets the tags of `Config`, the file of credentials exists, and
-- each setting with a variable is what the variable holds where that is not empty, and what the file
-- holds otherwise.
pub load-IsLoaded : (s : System) (path : Text) (c : Config) → load s path ≡ ok c → IsLoaded s path c
unfolding load
load-IsLoaded s path c h =
    let (text, a, h₁) = >>=-eq-ok (or_error unreadable (s.read_file path)) _ h in
    let (file, b, h₂) = >>=-eq-ok (or_error bad_json (s.unmarshal text)) _ h₁ in
    let (config, o, h₃) = >>=-eq-ok (apply_env_overrides s file) _ h₂ in
    let (u, v, h₄) = >>=-eq-ok (validate s config) _ h₃ in
    let same : config ≡ c = ok-injective h₄ in
    let (tags, credentials) = validate-ok s c (rw same at v) in
    record {
      text = text;
      file = file;
      read = or_error-eq unreadable (s.read_file path) a;
      decoded = or_error-eq bad_json (s.unmarshal text) b;
      overridden = apply_env_overrides-IsOverridden s file (rw same at o);
      tags = tags;
      credentials = credentials;
    }
