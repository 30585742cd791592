-- ===== src/Settings/LongKey.antt =====
-- A key of the configuration that is too long for AES.
use gmaildigest_go.Prelude.{
  leb, ℕ, ◌≤◌, ◌≡◌, ◌≢◌, refl, ap, Bool, true, false, [], ◌∷◌, ◌&&◌, Option, length, if◌then◌else◌,
  arith,
}
use gmaildigest_go.Prelude.Text.{Text, codes, is_empty, eqt, text_dec}
use gmaildigest_go.Prelude.Results.{Result, ok, >>=-eq-ok}
use gmaildigest_go.Settings.Numbers.{parse_int}
use gmaildigest_go.Settings.{
  required, Config, System, SettingsError, meets_tags, bad_http_port, bad_metrics_port,
  bad_interval, or_parsed, or_error, apply_env_overrides, validate, load, unreadable, bad_json,
}
use gmaildigest_go.Auth.OAuth.{Token}
use gmaildigest_go.Storage.Database.{Database}
use gmaildigest_go.Storage.Sqlite.{Call}
use gmaildigest_go.Storage.Tokens.{Aes, TokenJson, Random, store_token, get_token}
use gmaildigest_go.Storage.Tokens.RoundTrip.{store_token-accepts, get_token-accepts}
use gmaildigest_go.Settings.Loaded.{ok-injective, validate-ok}

-- The system with another value of the variable `ENCRYPTION_KEY`.
abbrev pub with_key : System → Text → System
with_key s k = record s {
  getenv = λ name. if eqt name (codes "ENCRYPTION_KEY") then k else s.getenv name;
}

replaced_test :
    (a k k' b c d e f g : Bool)
    → (a && k && b && c && d && e && f && g) ≡ true
    → k' ≡ true
    → (a && k' && b && c && d && e && f && g) ≡ true
replaced_test a true k' b c d e f g h i = rw i h
replaced_test a false k' b c d e f g h i = absurd (ground arith)

-- The tags ask of the key that it has 32 runes at least.
tags_with_key :
    (is_file : Text → Bool) (rune_count : Text → ℕ) (c : Config) (k : Text)
    → meets_tags is_file rune_count c ≡ true
    → is_empty k ≡ false
    → 32 ≤ rune_count k
    → meets_tags is_file rune_count (record c { encryption_key = k }) ≡ true
tags_with_key is_file rune_count c k h n l =
    replaced_test _ _ (required k && leb 32 (rune_count k)) _ _ _ _ _ _ h (rw n (ground arith))

not_empty : (s : System) (k : Text) → 32 ≤ s.rune_count k → is_empty k ≡ false
not_empty s [] h = let few = s.rune_count-le [] in absurd (omega (arith, h, few))
not_empty s (x ∷ k) h = refl

abbrev with_ok : Config → Text → Result SettingsError Config
with_ok d k = ok (record d { encryption_key = k })

overrides_with_key :
    (s : System) (file c : Config) (k : Text)
    → apply_env_overrides s file ≡ ok c
    → is_empty k ≡ false
    → apply_env_overrides (with_key s k) file ≡ ok (record c { encryption_key = k })
unfolding apply_env_overrides text_dec
overrides_with_key s file c k h n =
    let (http, p, h₁) =
      >>=-eq-ok (or_parsed s parse_int bad_http_port (codes "HTTP_PORT") file.http_port) _ h in
    let (metrics, q, h₂) =
      >>=-eq-ok (or_parsed s parse_int bad_metrics_port (codes "METRICS_PORT") file.metrics_port) _
        h₁ in
    let (interval, r, h₃) =
      >>=-eq-ok
        (or_parsed s s.parse_duration bad_interval (codes "SCHEDULER_DEFAULT_INTERVAL")
          file.default_interval)
        _ h₂ in
    rw (p, q, r, n) (ap (λ d. with_ok d k) (ok-injective h₃))

validate-with_key :
    (s : System) (c : Config) (k : Text) {u : Unit {0}}
    → validate s c ≡ ok u
    → 32 ≤ s.rune_count k
    → validate (with_key s k) (record c { encryption_key = k }) ≡ ok tt
unfolding validate
validate-with_key s c k h l =
    let (tags, credentials) = validate-ok s c h in
    let same = s.validates-tags (record c { encryption_key = k }) in
    let tags' = tags_with_key s.is_file s.rune_count c k tags (not_empty s k l) l in
    rw (same, tags', credentials) refl

-- A configuration that loads also loads with any other key of 32 runes at least.
load-with_key :
    (s : System) (path : Text) (c : Config) (k : Text)
    → load s path ≡ ok c
    → 32 ≤ s.rune_count k
    → load (with_key s k) path ≡ ok (record c { encryption_key = k })
unfolding load
load-with_key s path c k h l =
    let (text, a, h₁) = >>=-eq-ok (or_error unreadable (s.read_file path)) _ h in
    let (file, b, h₂) = >>=-eq-ok (or_error bad_json (s.unmarshal text)) _ h₁ in
    let (config, o, h₃) = >>=-eq-ok (apply_env_overrides s file) _ h₂ in
    let (u, v, h₄) = >>=-eq-ok (validate s config) _ h₃ in
    let same : config ≡ c = ok-injective h₄ in
    rw
      (
        a,
        b,
        overrides_with_key s file c k (rw same at o) (not_empty s k l),
        validate-with_key s c k (rw same at v) l,
      )
      refl

-- A key that the tags and AES both allow.
accepted-32 :
    (s : System) (x : Aes) (k : Text) → 32 ≤ s.rune_count k → x.accepts k ≡ true → length k ≡ 32
accepted-32 s x k runes h = let bytes = s.rune_count-le k in let sizes = x.sizes k in ground arith

-- The bug: where a configuration loads, it loads as well with any key of 32 runes or more in
-- `ENCRYPTION_KEY`; and with such a key no token is ever stored or read, unless it has 32 bytes.
pub load-store_token :
    (s : System) (path : Text) (c : Config) (k : Text) (x : Aes) (j : TokenJson) (r : Random)
    (call : Call) (db db' : Database) (user : Text) (t : Option Token) (t' : Token)
    → load s path ≡ ok c
    → 32 ≤ s.rune_count k
    → length k ≢ 32
    → (load (with_key s k) path ≡ ok (record c { encryption_key = k }))
      × (store_token x j r k call db user t ≢ ok db')
      × (get_token x j k call db user ≢ ok t')
load-store_token s path c k x j r call db db' user t t' h runes n = (
  load-with_key s path c k h runes,
  λ e. n (accepted-32 s x k runes (store_token-accepts x j r k call db user t e)),
  λ e. n (accepted-32 s x k runes (get_token-accepts x j k call db user e)),
)
