-- ===== src/Cron/Field.antt =====
-- `parseCronField`: a star, or a list of values and ranges.
pub mod Bounds
pub mod Printing
pub mod Members
pub mod RoundTrip
use gmaildigest_go.Prelude.{
  ℕ, zero, suc, ◌-◌, ◌≡◌, refl, Bool, false, ◌||◌, List, [], ◌∷◌, Option, none, some, if◌then◌else◌,
  ltb, ◌==◌,
}
use gmaildigest_go.Prelude.Text.{Text, codes, eqt, text_dec}
use gmaildigest_go.Prelude.Results.{Result, ok, err, ◌>>=◌}
use gmaildigest_go.Cron.Words.{split, contains, atoi}

-- A `map[int]bool` that only ever holds `true`: the list of its keys.
abbrev pub IntSet : Type 0
IntSet = List ℕ

-- `s[x]`: a missing key reads as `false`.
unfoldable pub has : IntSet → ℕ → Bool
has [] x = false
has (y ∷ s) x = x == y || has s x

pub data FieldError : Type 0 where
  invalid_range invalid_value : Text → FieldError

-- `for i := start; i <= end; i++ { result[i] = true }`, by the rounds left.
unfoldable pub fill : ℕ → ℕ → IntSet → IntSet
fill zero i s = s
fill (suc rounds) i s = fill rounds (suc i) (i ∷ s)

abbrev pub fill_range : ℕ → ℕ → IntSet → IntSet
fill_range start end s = fill (suc end - start) start s

-- The bounds test of a range, with the two results of `Atoi`.
abbrev pub check_range : ℕ → ℕ → Text → Option ℕ → Option ℕ → IntSet → Result FieldError IntSet
check_range min max part (some start) (some end) s =
    if ltb end start || ltb start min || ltb max end
    then err (invalid_range part)
    else ok (fill_range start end s)
check_range min max part _ _ s = err (invalid_range part)

abbrev pub parse_range : ℕ → ℕ → Text → List Text → IntSet → Result FieldError IntSet
parse_range min max part (a ∷ b ∷ []) s = check_range min max part (atoi a) (atoi b) s
parse_range min max part _ s = err (invalid_range part)

abbrev pub parse_value : ℕ → ℕ → Text → Option ℕ → IntSet → Result FieldError IntSet
parse_value min max part (some val) s =
    if ltb val min || ltb max val then err (invalid_value part) else ok (val ∷ s)
parse_value min max part none s = err (invalid_value part)

-- The body of the loop over the parts.
unfoldable pub parse_part : ℕ → ℕ → Text → IntSet → Result FieldError IntSet
parse_part min max part s =
    if contains part b'-'
    then parse_range min max part (split part b'-') s
    else parse_value min max part (atoi part) s

unfoldable pub parse_parts : ℕ → ℕ → List Text → IntSet → Result FieldError IntSet
parse_parts min max [] s = ok s
parse_parts min max (part ∷ parts) s = parse_part min max part s >>= parse_parts min max parts

unfoldable pub parse_field : Text → ℕ → ℕ → Result FieldError IntSet
unfolding parse_parts
parse_field field min max =
    if eqt field (codes "*")
    then ok (fill_range min max [])
    else parse_parts min max (split field b',') []
