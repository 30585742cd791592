-- ===== src/Auth/Stores/Verifier.antt =====
-- The length of the PKCE verifiers.
use gmaildigest_go.Prelude.{
  ℕ, ◌+◌, ◌*◌, ◌/◌, ◌≡◌, ◌≤◌, ◌<◌, ◌↔◌, refl, Option, some, none, arith, length,
}
use gmaildigest_go.Prelude.Int.{pos}
use gmaildigest_go.Prelude.Text.{Text}
use gmaildigest_go.Prelude.Results.{ok}
use gmaildigest_go.Auth.Stores.{Crypto, generate_code_verifier, encode_verifier}

encode_verifier-length :
    (c : Crypto) (n : ℕ) (o : Option Text) {v : Text}
    → ((b : Text) → o ≡ some b → length b ≡ n)
    → encode_verifier c o ≡ ok v
    → length v ≡ (n * 8 + 5) / 6
encode_verifier-length c n none full h = absurd (cc)
encode_verifier-length c n (some b) {v} full h =
    rw (← encoded, c.length-raw_url b, full b refl) refl
  where
    encoded : c.raw_url b ≡ v
    encoded = ground arith

-- The bug: the length that `GenerateCodeVerifier` accepts, 43 to 128, is the number of random bytes
-- and not of characters. The verifier is longer, and has more than 128 characters exactly when more
-- than 96 are asked for.
pub generate_code_verifier-length :
    (c : Crypto) (random : ℕ → Option Text) (n : ℕ) {v : Text}
    → ((k : ℕ) (b : Text) → random k ≡ some b → length b ≡ k)
    → generate_code_verifier c random (pos n) ≡ ok v
    → (43 ≤ n) × (n ≤ 128) × (n < length v) × ((128 < length v) ↔ (96 < n))
unfolding generate_code_verifier
generate_code_verifier-length c random n {v} full h =
    let (lo, hi, encoded) = parts in
    let len = encode_verifier-length c n (random n) (full n) encoded in
    (lo, hi, omega (arith, len, lo), omega (arith, len, lo))
  where
    parts : (43 ≤ n) × (n ≤ 128) × (encode_verifier c (random n) ≡ ok v)
    parts = ground arith
