-- ===== src/Auth/Stores.antt =====
-- The in-memory state and PKCE stores: `internal/auth/in_memory_stores.go`.
pub mod OneTime
pub mod Verifier
use gmaildigest_go.Prelude.{
  ℕ, ◌+◌, ◌*◌, ◌/◌, ◌≡◌, Bool, true, false, not, ◌&&◌, ◌||◌, List, [], Option, some, none, ltb,
  if◌then◌else◌, length,
}
use gmaildigest_go.Prelude.Int.{ℤ, pos, ltb_ℤ, pos_part}
use gmaildigest_go.Prelude.Text.{Text, eqt}
use gmaildigest_go.Prelude.Maps.{Map, lookup, insert, delete}
use gmaildigest_go.Prelude.Results.{Result, ok, err}

pub data AuthError : Type 0 where
  empty_user_id empty_code empty_state : AuthError
  no_randomness bad_length invalid_state : AuthError
  no_verifier : Text → AuthError
  storage_failed provider_failed no_token no_refresh_token bad_payload : AuthError

-- What the stores use of `crypto` and `encoding`: `base64.RawURLEncoding` and `sha256`.
pub record Crypto : Type 0 where
  pub raw_url : Text → Text
  pub sha256 : Text → Text
  -- The documented length of unpadded base64.
  pub length-raw_url : (b : Text) → length (raw_url b) ≡ (length b * 8 + 5) / 6

-- `InMemoryStateStore`, the states by user.
abbrev pub InMemoryStateStore : Type 0
InMemoryStateStore = Map Text

-- `StoreState`.
unfoldable pub store_state : InMemoryStateStore → Text → Text → InMemoryStateStore
store_state s user state = insert user state s

abbrev pub is_state : Option Text → Text → Bool
is_state none state = false
is_state (some stored) state = eqt stored state

-- `ValidateState`.
unfoldable pub validate_state : InMemoryStateStore → Text → Text → InMemoryStateStore × Bool
validate_state s user state =
    if is_state (lookup user s) state then (delete user s, true) else (s, false)

-- `DeleteState`.
unfoldable pub delete_state : InMemoryStateStore → Text → InMemoryStateStore
delete_state s user = delete user s

-- `InMemoryPKCEStore`, the verifiers by state.
abbrev pub InMemoryPkceStore : Type 0
InMemoryPkceStore = Map Text

-- `StoreVerifier`.
unfoldable pub store_verifier : InMemoryPkceStore → Text → Text → InMemoryPkceStore
store_verifier s state verifier = insert state verifier s

abbrev pub take_verifier :
    InMemoryPkceStore → Text → Option Text → InMemoryPkceStore × Result AuthError Text
take_verifier s state none = (s, err (no_verifier state))
take_verifier s state (some v) = (delete state s, ok v)

-- `GetVerifier`.
unfoldable pub get_verifier : InMemoryPkceStore → Text → InMemoryPkceStore × Result AuthError Text
get_verifier s state = take_verifier s state (lookup state s)

abbrev pub encode_verifier : Crypto → Option Text → Result AuthError Text
encode_verifier c none = err no_randomness
encode_verifier c (some p) = ok (c.raw_url p)

-- `GenerateCodeVerifier`. The second argument is what `rand.Read` gives for a number of bytes.
unfoldable pub generate_code_verifier : Crypto → (ℕ → Option Text) → ℤ → Result AuthError Text
generate_code_verifier c random n =
    if ltb_ℤ n (pos 43) || ltb_ℤ (pos 128) n
    then err bad_length
    else encode_verifier c (random (pos_part n))

-- `GenerateCodeChallenge`, which returns no error.
unfoldable pub generate_code_challenge : Crypto → Text → Text
generate_code_challenge c verifier = c.raw_url (c.sha256 verifier)

-- `ValidateChallenge`.
unfoldable pub validate_challenge : Crypto → Text → Text → Bool
validate_challenge c challenge verifier = eqt challenge (generate_code_challenge c verifier)
