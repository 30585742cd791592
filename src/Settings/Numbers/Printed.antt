-- ===== src/Settings/Numbers/Printed.antt =====
-- Numbers are read back as they are printed.
use gmaildigest_go.Prelude.{
  ℕ, zero, suc, ◌+◌, ◌*◌, ◌/◌, ◌%◌, ◌≤◌, ◌<◌, ◌≡◌, refl, ◌∙◌, ap, Bool, true, false, [], ◌∷◌, some,
  leb, ltb, arith, Bool-cases, inl, inr,
}
use gmaildigest_go.Prelude.Int.{ℤ, pos, negsuc}
use gmaildigest_go.Prelude.Text.{Text}
use gmaildigest_go.Cron.Words.{digits_value, max_int}
use gmaildigest_go.Settings.Numbers.{
  positive, negative, digits_only, parse_int, show_loop, show_number, show_int,
}

digits_value-digit :
    (d k : ℕ) (s : Text) → d < 10 → digits_value ((48 + d) ∷ s) k ≡ digits_value s (k * 10 + d)
unfolding digits_value
digits_value-digit d k s h = ground (arith)

-- With enough fuel, the digits read as the number.
digits_value-show_loop :
    (fuel n : ℕ) (s : Text) → n < fuel → digits_value (show_loop fuel n s) 0 ≡ digits_value s n
unfolding show_loop
digits_value-show_loop zero n s h = absurd (omega arith)
digits_value-show_loop (suc fuel) n s h = elim (Bool-cases (ltb n 10)) [
  | inl small ↦
      rw small (digits_value-digit n 0 s (ground arith) ∙ ap (digits_value s) (omega arith))
  | inr large ↦ rw large (
      digits_value-show_loop fuel (n / 10) ((48 + n % 10) ∷ s) (ground arith)
      ∙ digits_value-digit (n % 10) (n / 10) s (omega arith)
      ∙ ap (digits_value s) (omega arith))
]

-- A text that begins with a digit, and not with a sign.
abbrev Begins : Text → Type 0
Begins [] = false ≡ true
Begins (c ∷ s) = 48 ≤ c

show_loop-Begins : (fuel n : ℕ) (s : Text) → Begins s → Begins (show_loop fuel n s)
unfolding show_loop
show_loop-Begins zero n s h = h
show_loop-Begins (suc fuel) n s h = elim (Bool-cases (ltb n 10)) [
  | inl small ↦ rw small (omega arith)
  | inr large ↦ rw large (show_loop-Begins fuel (n / 10) ((48 + n % 10) ∷ s) (omega arith))
]

show_number-Begins : (n : ℕ) → Begins (show_number n)
unfolding show_number show_loop
show_number-Begins n = elim (Bool-cases (ltb n 10)) [
  | inl small ↦ rw small (omega arith)
  | inr large ↦ rw large (show_loop-Begins n (n / 10) ((48 + n % 10) ∷ []) (omega arith))
]

digits_only-show_number : (n : ℕ) → digits_only (show_number n) ≡ some n
unfolding show_number digits_value
digits_only-show_number n =
    from (show_number n) (show_number-Begins n) (digits_value-show_loop (suc n) n [] (omega arith))
  where
    from : (s : Text) → Begins s → digits_value s 0 ≡ some n → digits_only s ≡ some n
    from [] b h = absurd (cc)
    from (c ∷ s) b h = h

parse_int-Begins : (s : Text) → Begins s → parse_int s ≡ positive (digits_only s)
unfolding parse_int
parse_int-Begins [] b = absurd (cc)
parse_int-Begins (c ∷ s) b = ground (arith, b)

-- A number of 64 bits.
abbrev pub is_int64 : ℤ → Bool
is_int64 (pos n) = leb n max_int
is_int64 (negsuc n) = leb n max_int

-- An integer of 64 bits is read back as it is printed.
pub parse_int-show_int : (n : ℤ) → is_int64 n ≡ true → parse_int (show_int n) ≡ some n
unfolding show_int parse_int
parse_int-show_int (pos n) h =
    parse_int-Begins (show_number n) (show_number-Begins n)
    ∙ ap positive (digits_only-show_number n)
    ∙ rw h refl
parse_int-show_int (negsuc n) h = ap negative (digits_only-show_number (suc n)) ∙ ground (arith, h)
