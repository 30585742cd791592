-- ===== src/Cron/Words.antt =====
-- What cron.go takes from the packages strings and strconv, on ASCII text.
use gmaildigest_go.Prelude.{
  ℕ, ◌+◌, ◌-◌, ◌*◌, ◌^◌, Bool, true, false, ◌||◌, ◌&&◌, List, [], ◌∷◌, ◌++◌, Option, none, some,
  if◌then◌else◌, leb, ◌==◌,
}
use gmaildigest_go.Prelude.Text.{Text}

-- The ASCII white space of `unicode.IsSpace`.
abbrev pub is_space : ℕ → Bool
is_space c = c == 32 || (leb 9 c && leb c 13)

-- Where a word ends: an empty word is no word.
abbrev pub close_word : Text → List Text → List Text
close_word [] words = words
close_word (c ∷ w) words = words ++ (c ∷ w) ∷ []

pub fields_loop : Text → Text → List Text → List Text
fields_loop [] cur words = close_word cur words
fields_loop (c ∷ s) cur words = elim (is_space c) [
  | true ↦ fields_loop s [] (close_word cur words)
  | false ↦ fields_loop s (cur ++ c ∷ []) words
]

-- `strings.Fields(s)`.
unfoldable pub fields : Text → List Text
unfolding fields_loop
fields s = fields_loop s [] []

-- `strings.Split(s, sep)` for a separator of one byte.
unfoldable pub split_loop : ℕ → Text → Text → List Text
split_loop sep [] cur = cur ∷ []
split_loop sep (c ∷ s) cur = elim (c == sep) [
  | true ↦ cur ∷ split_loop sep s []
  | false ↦ split_loop sep s (cur ++ c ∷ [])
]

unfoldable pub split : Text → ℕ → List Text
unfolding split_loop
split s sep = split_loop sep s []

-- `strings.Contains(s, sep)` for a text of one byte.
unfoldable pub contains : Text → ℕ → Bool
contains [] b = false
contains (c ∷ s) b = c == b || contains s b

abbrev pub is_digit : ℕ → Bool
is_digit c = leb b'0' c && leb c b'9'

-- The value of a run of digits after the value read so far.
unfoldable pub digits_value : Text → ℕ → Option ℕ
digits_value [] n = some n
digits_value (c ∷ s) n =
    let rest = digits_value s (n * 10 + (c - b'0')) in if is_digit c then rest else none

abbrev pub max_int : ℕ
max_int = 2 ^ 63 - 1

-- A value that an int does not hold is an error.
abbrev pub in_range : Option ℕ → Option ℕ
in_range none = none
in_range (some n) = if leb n max_int then some n else none

abbrev pub drop_plus : Text → Text
drop_plus [] = []
drop_plus (c ∷ s) = if c == b'+' then s else c ∷ s

abbrev pub unsigned : Text → Option ℕ
unsigned [] = none
unsigned (c ∷ s) = in_range (digits_value (c ∷ s) 0)

-- `strconv.Atoi(s)` for a text with no minus sign; the parser cuts its texts at every minus sign.
unfoldable pub atoi : Text → Option ℕ
unfolding digits_value
atoi s = unsigned (drop_plus s)
