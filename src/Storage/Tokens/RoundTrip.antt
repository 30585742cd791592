-- ===== src/Storage/Tokens/RoundTrip.antt =====
-- Tokens are read back as they were stored.
use gmaildigest_go.Prelude.{
  ◌≡◌, refl, sym, ◌∙◌, Bool, true, false, Option, none, some, length, arith, if◌then◌else◌,
  Bool-cases, inl, inr,
}
use gmaildigest_go.Prelude.Text.{Text, eqt}
use gmaildigest_go.Prelude.Results.{ok, map_err, map_err-eq-ok, >>=-eq-ok}
use gmaildigest_go.Auth.OAuth.{Token}
use gmaildigest_go.Storage.Database.{Database}
use gmaildigest_go.Storage.Sqlite
use gmaildigest_go.Storage.Sqlite.{Call}
use gmaildigest_go.Storage.Access.{get_token-store_token}
use gmaildigest_go.Storage.Tokens.{
  Bytes, Aes, TokenJson, Random, TokenError, no_random, bad_cipher, bad_json, or_fail, require,
  encrypt_token, decrypt_token, get_token, store_token, key_size, storage,
}

or_fail-eq {ℓ} :
    {A : Type ℓ} (e : TokenError) (o : Option A) {a : A} → or_fail e o ≡ ok a → o ≡ some a
or_fail-eq e none h = absurd (cc)
or_fail-eq e (some a) h = ground arith

require-eq : (b : Bool) (e : TokenError) {u : Unit {0}} → require b e ≡ ok u → b ≡ true
require-eq true e h = refl
require-eq false e h = absurd (cc)

-- With a key of 32 bytes and a source that gives the twelve bytes of a nonce, a token is encrypted,
-- and what is returned decrypts to the token with the same key.
pub decrypt_token-encrypt_token :
    (x : Aes) (r : Random) (key plaintext nonce : Bytes)
    → length key ≡ key_size
    → r.read 12 ≡ some nonce
    → (encrypt_token x r key plaintext ≡ ok (x.seal key nonce plaintext, nonce))
      × (decrypt_token x key (x.seal key nonce plaintext) nonce ≡ ok plaintext)
unfolding encrypt_token decrypt_token
decrypt_token-encrypt_token x r key plaintext nonce h k =
    let size = r.length-read 12 nonce k in
    (
      rw (x.sizes key, h, x.nonce_size_12, k) refl,
      rw
          (
            x.sizes key,
            h,
            x.nonce_size_12,
            size,
            x.open_sealed-seal key nonce plaintext (size ∙ sym x.nonce_size_12),
          )
          refl,
    )

-- What a store that succeeds has done.
store_token-eq :
    (x : Aes) (j : TokenJson) (r : Random) (key : Bytes) (c : Call) (db : Database) (user : Text)
    (t : Token) {db' : Database}
    → store_token x j r key c db user (some t) ≡ ok db'
    → (plaintext nonce : Bytes) × (j.marshal t ≡ some plaintext)
      × (x.accepts key ≡ true)
      × (length nonce ≡ 12)
      × (Sqlite.store_token c db user (x.seal key nonce plaintext) nonce ≡ ok db')
unfolding store_token
store_token-eq x j r key c db user t h =
    let (plaintext, a, h₁) = >>=-eq-ok (or_fail bad_json (j.marshal t)) _ h in
    let (u, b, h₂) = >>=-eq-ok (require (x.accepts key) bad_cipher) _ h₁ in
    let (nonce, n, h₃) = >>=-eq-ok (or_fail no_random (r.read 12)) _ h₂ in
    (
      plaintext,
      nonce,
      or_fail-eq bad_json (j.marshal t) a,
      require-eq (x.accepts key) bad_cipher b,
      r.length-read 12 nonce (or_fail-eq no_random (r.read 12) n),
      map_err-eq-ok storage _ h₃,
    )

-- After a token was stored, a read for its user returns the token, and a read for any other user
-- what it returned before.
pub get_token-store_token_plain :
    (x : Aes) (j : TokenJson) (r : Random) (key : Bytes) (c c' : Call) (db db' : Database)
    (user other : Text) (t : Token)
    → j.is_plain t ≡ true
    → store_token x j r key c db user (some t) ≡ ok db'
    → c'.fails ≡ false
    → get_token x j key c' db' other
      ≡ (if eqt user other then ok t else get_token x j key c' db other)
unfolding get_token
get_token-store_token_plain x j r key c c' db db' user other t plain h live =
    let (plaintext, nonce, written, usable, size, stored) =
      store_token-eq x j r key c db user t h in
    let read =
      get_token-store_token c c' db db' user (x.seal key nonce plaintext) nonce other stored live in
    elim (Bool-cases (eqt user other)) [
      | inl same ↦
          rw
            (
              read,
              same,
              usable,
              x.open_sealed-seal key nonce plaintext (size ∙ sym x.nonce_size_12),
              j.unmarshal-marshal t plaintext plain written,
            )
            refl
      | inr apart ↦ rw (read, apart) refl
    ]

-- A store and a read that succeed have a key that AES accepts.
pub store_token-accepts :
    (x : Aes) (j : TokenJson) (r : Random) (key : Bytes) (c : Call) (db : Database) (user : Text)
    (t : Option Token) {db' : Database}
    → store_token x j r key c db user t ≡ ok db'
    → x.accepts key ≡ true
unfolding store_token
store_token-accepts x j r key c db user none h = absurd (cc)
store_token-accepts x j r key c db user (some t) h = (store_token-eq x j r key c db user t h).3

pub get_token-accepts :
    (x : Aes) (j : TokenJson) (key : Bytes) (c : Call) (db : Database) (user : Text) {t : Token}
    → get_token x j key c db user ≡ ok t
    → x.accepts key ≡ true
unfolding get_token
get_token-accepts x j key c db user h =
    let (pair, a, h₁) = >>=-eq-ok (map_err storage (Sqlite.get_token c db user)) _ h in
    let (u, b, h₂) = >>=-eq-ok (require (x.accepts key) bad_cipher) _ h₁ in
    require-eq (x.accepts key) bad_cipher b
