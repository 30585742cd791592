-- ===== src/Storage/Tokens/Provided.antt =====
-- The token store as the storage that the OAuth manager asks for.
use gmaildigest_go.Prelude.{ℕ, suc, ◌≡◌, refl, true, false, Option, none, some}
use gmaildigest_go.Prelude.Text.{Text, codes}
use gmaildigest_go.Prelude.Results.{Result, ok, err}
use gmaildigest_go.Auth.OAuth.{Token, Storage}
use gmaildigest_go.Storage.Database.{Database}
use gmaildigest_go.Storage.Sqlite.{Call}
use gmaildigest_go.Storage.Access.{eqt_refl}
use gmaildigest_go.Storage.Tokens.{
  Bytes, Aes, TokenJson, Random, TokenError, get_token, store_token, delete_token,
}
use gmaildigest_go.Storage.Tokens.RoundTrip.{get_token-store_token_plain}

-- A store with the number of calls that were made on it.
abbrev pub Counted : Type 0
Counted = Database × ℕ

abbrev pub as_found : Result TokenError Token → Result Text (Option Token)
as_found (ok t) = ok (some t)
as_found (err e) = err (codes "failed to get token")

abbrev pub as_written : Database → ℕ → Result TokenError Database → Counted × Option Text
as_written db n (ok u) = ((u, suc n), none)
as_written db n (err e) = ((db, suc n), some (codes "failed to write token"))

-- The calls that a store meets: what each finds of the database and of the random source. The
-- database works, and every token is UTF-8.
pub record Surroundings : Type 0 where
  pub aes : Aes
  pub json : TokenJson
  pub key : Bytes
  pub call : ℕ → Call
  pub random : ℕ → Random
  pub works : (n : ℕ) → (call n).fails ≡ false
  pub plain : (t : Token) → json.is_plain t ≡ true

module _ (s : Surroundings) where
  abbrev pub found : Counted → Text → Result TokenError Token
  found (db, n) user = get_token s.aes s.json s.key (s.call n) db user

  abbrev pub written : Counted → Text → Token → Result TokenError Database
  written (db, n) user t = store_token s.aes s.json (s.random n) s.key (s.call n) db user (some t)

  pub written-found :
      (db : Database) (n : ℕ) (user : Text) (t : Token) (r : Result TokenError Database)
      → written (db, n) user t ≡ r
      → (as_written db n r).1 ≡ none
      → as_found (found (as_written db n r).0 user) ≡ ok (some t)
  written-found db n user t (err e) h k = absurd (cc)
  written-found db n user t (ok u) h k =
      rw
        (
          get_token-store_token_plain s.aes s.json (s.random n) s.key (s.call n) (s.call (suc n)) db
              u user user t (s.plain t) h (s.works (suc n)),
          eqt_refl user,
        )
        refl

  -- The storage of an OAuth manager.
  abbrev pub token_storage : Storage Counted
  token_storage = record {
    get_token = λ d user. as_found (found d user);
    store_token = λ d user t. as_written d.0 d.1 (written d user t);
    delete_token = λ d user. as_written d.0 d.1 (delete_token (s.call d.1) d.0 user);
    get-store_token = λ d user t h. written-found d.0 d.1 user t (written d user t) refl h;
  }
