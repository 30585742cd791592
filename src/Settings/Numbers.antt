-- ===== src/Settings/Numbers.antt =====
-- Decimal numbers with a sign: `strconv.Atoi` and `strconv.ParseInt(s, 10, 64)`, and `%d`.
pub mod Printed
use gmaildigest_go.Prelude.{
  ℕ, zero, suc, ◌+◌, ◌==◌, [], ◌∷◌, Option, none, some, leb, ltb, ◌/◌, ◌%◌, ◌++◌, if◌then◌else◌,
}
use gmaildigest_go.Prelude.Int.{ℤ, pos, negsuc}
use gmaildigest_go.Prelude.Text.{Text, codes}
use gmaildigest_go.Cron.Words.{digits_value, max_int}

abbrev pub positive : Option ℕ → Option ℤ
positive none = none
positive (some n) = if leb n max_int then some (pos n) else none

abbrev pub minus : ℕ → ℤ
minus zero = pos 0
minus (suc n) = negsuc n

abbrev pub negative : Option ℕ → Option ℤ
negative none = none
negative (some n) = if leb n (suc max_int) then some (minus n) else none

-- A text of digits; the empty one is no number.
abbrev pub digits_only : Text → Option ℕ
digits_only [] = none
digits_only (c ∷ s) = digits_value (c ∷ s) 0

-- `parseInt`.
unfoldable pub parse_int : Text → Option ℤ
parse_int [] = none
parse_int (c ∷ s) =
    if c == b'-'
    then negative (digits_only s)
    else if c == b'+'
    then positive (digits_only s)
    else positive (digits_only (c ∷ s))

-- The digits of a number before a text, from the last to the first. The fuel bounds their count.
unfoldable pub show_loop : ℕ → ℕ → Text → Text
show_loop zero n s = s
show_loop (suc fuel) n s =
    let rest = show_loop fuel (n / 10) ((48 + n % 10) ∷ s) in
    if ltb n 10 then (48 + n) ∷ s else rest

unfoldable pub show_number : ℕ → Text
show_number n = show_loop (suc n) n []

-- `%d` of an integer.
unfoldable pub show_int : ℤ → Text
show_int (pos n) = show_number n
show_int (negsuc n) = codes "-" ++ show_number (suc n)
