-- ===== src/Storage/Tokens.antt =====
-- Encrypted OAuth tokens: internal/storage/encryption.go and internal/storage/token_store.go.
pub mod RoundTrip
pub mod Provided
use gmaildigest_go.Prelude.{
  ℕ, ◌≡◌, ◌==◌, Bool, true, false, ◌||◌, not, Option, none, some, length, if◌then◌else◌,
}
use gmaildigest_go.Prelude.Text.{Text, is_empty}
use gmaildigest_go.Prelude.Results.{Result, ok, err, ◌>>=◌, map_err}
use gmaildigest_go.Auth.OAuth.{Token}
use gmaildigest_go.Storage.Database.{Database}
use gmaildigest_go.Storage.Sqlite
use gmaildigest_go.Storage.Sqlite.{StorageError, Call}

-- Keys, nonces and encrypted tokens are sequences of bytes.
abbrev pub Bytes : Type 0
Bytes = Text

-- What the program uses of `crypto/aes` and `crypto/cipher`: the keys that `NewCipher` accepts, and
-- AES-GCM with no additional data.
pub record Aes : Type 0 where
  pub accepts : Bytes → Bool
  pub nonce_size : ℕ
  pub seal : Bytes → Bytes → Bytes → Bytes
  pub open_sealed : Bytes → Bytes → Bytes → Option Bytes
  -- AES-128, AES-192 and AES-256.
  pub sizes :
      (key : Bytes) → accepts key ≡ (length key == 16 || length key == 24 || length key == 32)
  pub nonce_size_12 : nonce_size ≡ 12
  pub open_sealed-seal :
      (key nonce plaintext : Bytes)
      → length nonce ≡ nonce_size
      → open_sealed key nonce (seal key nonce plaintext) ≡ some plaintext
  -- A sealed text ends in a tag.
  pub seal_full : (key nonce plaintext : Bytes) → is_empty (seal key nonce plaintext) ≡ false

-- What the program uses of `encoding/json` for tokens. A token whose strings are UTF-8 is read back.
pub record TokenJson : Type 0 where
  pub marshal : Token → Option Bytes
  pub unmarshal : Bytes → Option Token
  pub is_plain : Token → Bool
  pub unmarshal-marshal :
      (t : Token) (b : Bytes) → is_plain t ≡ true → marshal t ≡ some b → unmarshal b ≡ some t

-- `io.ReadFull(rand.Reader, b)` for `b` of a length: so many bytes, unless the source fails.
pub record Random : Type 0 where
  pub read : ℕ → Option Bytes
  pub length-read : (n : ℕ) (b : Bytes) → read n ≡ some b → length b ≡ n

pub data TokenError : Type 0 where
  bad_key_size bad_cipher no_random bad_nonce not_authentic nil_token bad_json : TokenError
  storage : StorageError → TokenError

-- `KeySize`.
abbrev pub key_size : ℕ
key_size = 32

-- A result, or the error.
abbrev pub or_fail {ℓ} : {A : Type ℓ} → TokenError → Option A → Result TokenError A
or_fail e none = err e
or_fail e (some a) = ok a

abbrev pub require : Bool → TokenError → Result TokenError (Unit {0})
require b e = if b then ok tt else err e

-- `EncryptToken`: the encrypted text and the nonce.
unfoldable pub encrypt_token : Aes → Random → Bytes → Bytes → Result TokenError (Bytes × Bytes)
encrypt_token x r key plaintext = do
  _ ← require (length key == key_size) bad_key_size
  _ ← require (x.accepts key) bad_cipher
  nonce ← or_fail no_random (r.read x.nonce_size)
  ok (x.seal key nonce plaintext, nonce)

-- `DecryptToken`.
unfoldable pub decrypt_token : Aes → Bytes → Bytes → Bytes → Result TokenError Bytes
decrypt_token x key ciphertext nonce = do
  _ ← require (length key == key_size) bad_key_size
  _ ← require (x.accepts key) bad_cipher
  _ ← require (length nonce == x.nonce_size) bad_nonce
  or_fail not_authentic (x.open_sealed key nonce ciphertext)

-- `TokenStore` on the SQLite storage; the key is the one of `NewTokenStore`.
unfoldable pub get_token :
    Aes → TokenJson → Bytes → Call → Database → Text → Result TokenError Token
get_token x j key c db user = do
  (encrypted, nonce) ← map_err storage (Sqlite.get_token c db user)
  _ ← require (x.accepts key) bad_cipher
  decrypted ← or_fail not_authentic (x.open_sealed key nonce encrypted)
  or_fail bad_json (j.unmarshal decrypted)

-- `StoreToken` of a `TokenStore`, with a nonce of twelve bytes.
unfoldable pub store_token :
    Aes
    → TokenJson
    → Random
    → Bytes
    → Call
    → Database
    → Text
    → Option Token
    → Result TokenError Database
store_token x j r key c db user t = do
  token ← or_fail nil_token t
  plaintext ← or_fail bad_json (j.marshal token)
  _ ← require (x.accepts key) bad_cipher
  nonce ← or_fail no_random (r.read 12)
  map_err storage (Sqlite.store_token c db user (x.seal key nonce plaintext) nonce)

-- `DeleteToken` of a `TokenStore`.
unfoldable pub delete_token : Call → Database → Text → Result TokenError Database
delete_token c db user = map_err storage (Sqlite.delete_token c db user)
