-- ===== src/Tests/Tokens.antt =====
-- Tokens under a cipher that writes a mark before the text.
use mathlib.Core.Option.{some-injective}
use gmaildigest_go.Prelude.{
  ℕ, zero, suc, ◌≡◌, refl, sym, ap, ◌∙◌, ◌==◌, ◌||◌, ◌&&◌, Bool, true, false, [], ◌∷◌, Option, none,
  some, arith, length, if◌then◌else◌,
}
use gmaildigest_go.Prelude.Text.{Text, codes, eqt, is_empty, text_dec}
use gmaildigest_go.Prelude.Results.{ok, err}
use gmaildigest_go.Auth.OAuth.{Token}
use gmaildigest_go.Storage.Database.{Database, replace_token}
use gmaildigest_go.Storage.Sqlite
use gmaildigest_go.Storage.Sqlite.{Call, validate_token_input, exec, select_token}
use gmaildigest_go.Storage.Tokens.{
  Bytes, Aes, TokenJson, Random, nil_token, bad_key_size, encrypt_token, get_token, store_token,
}
use gmaildigest_go.Storage.Tokens.Provided.{Surroundings, token_storage}
use gmaildigest_go.Storage.Tokens.RoundTrip.{get_token-store_token_plain}

-- So many bytes.
abbrev pub bytes : ℕ → Bytes
bytes zero = []
bytes (suc n) = 7 ∷ bytes n

pub length-bytes : (n : ℕ) → length (bytes n) ≡ n
length-bytes zero = refl
length-bytes (suc n) = omega (arith, length-bytes n)

abbrev pub behind_mark : Bytes → Option Bytes
behind_mark [] = none
behind_mark (c ∷ s) = some s

abbrev pub marking : Aes
marking = record {
  accepts = λ key. length key == 16 || length key == 24 || length key == 32;
  nonce_size = 12;
  seal = λ key nonce text. 0 ∷ text;
  open_sealed = λ key nonce text. behind_mark text;
  sizes = λ key. refl;
  nonce_size_12 = refl;
  open_sealed-seal = λ key nonce text h. refl;
  seal_full = λ key nonce text. refl;
}

-- The access token alone is written.
abbrev pub bare : Text → Token
bare a = record { access_token = a; refresh_token = []; expiry = 0 }

abbrev pub is_bare : Token → Bool
is_bare t = is_empty t.refresh_token && t.expiry == 0

pub is_bare-eq : (t : Token) → is_bare t ≡ true → bare t.access_token ≡ t
is_bare-eq t h = from t.refresh_token t.expiry h
  where
    from :
        (r : Text) (n : ℕ)
        → (is_empty r && n == 0) ≡ true
        → bare t.access_token
          ≡ record { access_token = t.access_token; refresh_token = r; expiry = n }
    from [] n k = ground arith
    from (c ∷ r) n k = absurd (cc)

abbrev pub access_only : TokenJson
access_only = record {
  marshal = λ t. some t.access_token;
  unmarshal = λ b. some (bare b);
  is_plain = is_bare;
  unmarshal-marshal = λ t b h k. ap some (ap bare (sym (some-injective _ _ k)) ∙ is_bare-eq t h);
}

abbrev pub sevens : Random
sevens = record {
  read = λ n. some (bytes n);
  length-read = λ n b h. rw (← some-injective _ _ h) (length-bytes n);
}

abbrev pub live : Call
live = record { now = 50; fails = false }

abbrev pub empty : Database
empty = record { users = []; tokens = []; emails = []; versions = [] }

abbrev pub with_token : Database
with_token = record empty {
  tokens =
      record {
        user_id = codes "ann";
        encrypted_token = 0 ∷ codes "secret";
        nonce = bytes 12;
        created_at = 50;
        updated_at = 50;
      }
      ∷ [];
}

ann_stored :
    store_token marking access_only sevens
      (bytes 32)
      live
      empty
      (codes "ann")
      (some (bare (codes "secret")))
    ≡ ok with_token
unfolding store_token Sqlite.store_token validate_token_input exec replace_token
ann_stored = refl

none_stored :
    store_token marking access_only sevens (bytes 32) live empty (codes "ann") none ≡ err nil_token
unfolding store_token
none_stored = refl

short_key : encrypt_token marking sevens (bytes 16) (codes "secret") ≡ err bad_key_size
unfolding encrypt_token
short_key = refl

get_token-store_token_plain_example :
    get_token marking access_only (bytes 32) live with_token (codes "ann") ≡ (
      if eqt (codes "ann") (codes "ann")
      then ok (bare (codes "secret"))
      else get_token marking access_only (bytes 32) live empty (codes "ann"))
get_token-store_token_plain_example =
    get_token-store_token_plain marking access_only sevens (bytes 32) live live empty with_token
      (codes "ann") (codes "ann") (bare (codes "secret")) refl ann_stored refl

-- A format that keeps the whole token: the expiry, and the access token with a mark at its end.
abbrev pub before_mark : Text → Text → Text
before_mark [] r = 0 ∷ r
before_mark (c ∷ a) r = suc c ∷ before_mark a r

abbrev pub with_byte : ℕ → Option (Text × Text) → Option (Text × Text)
with_byte c none = none
with_byte c (some (a, r)) = some (c ∷ a, r)

abbrev pub at_mark : Text → Option (Text × Text)
at_mark [] = none
at_mark (zero ∷ r) = some ([], r)
at_mark (suc c ∷ s) = with_byte c (at_mark s)

pub at_mark-before_mark : (a r : Text) → at_mark (before_mark a r) ≡ some (a, r)
at_mark-before_mark [] r = refl
at_mark-before_mark (c ∷ a) r = ap (with_byte c) (at_mark-before_mark a r)

abbrev pub as_token : ℕ → Option (Text × Text) → Option Token
as_token n none = none
as_token n (some (a, r)) = some (record { access_token = a; refresh_token = r; expiry = n })

abbrev pub read_token : Bytes → Option Token
read_token [] = none
read_token (n ∷ s) = as_token n (at_mark s)

abbrev pub whole : TokenJson
whole = record {
  marshal = λ t. some (t.expiry ∷ before_mark t.access_token t.refresh_token);
  unmarshal = read_token;
  is_plain = λ t. true;
  unmarshal-marshal = λ t b h k.
      ap read_token (sym (some-injective _ _ k))
      ∙ ap (as_token t.expiry) (at_mark-before_mark t.access_token t.refresh_token);
}

abbrev surroundings : Surroundings
surroundings = record {
  aes = marking;
  json = whole;
  key = bytes 32;
  call = λ n. live;
  random = λ n. sevens;
  works = λ n. refl;
  plain = λ t. refl;
}

abbrev saved : Token
saved = record { access_token = codes "x"; refresh_token = codes "r"; expiry = 100 }

-- The interface of the OAuth manager, filled: what was stored is read, and nothing else.
read_back :
    (token_storage surroundings).get_token
      ((token_storage surroundings).store_token (empty, 0) (codes "ann") saved).0
      (codes "ann")
    ≡ ok (some saved)
unfolding get_token store_token Sqlite.get_token Sqlite.store_token validate_token_input exec
    replace_token select_token text_dec
read_back = refl
