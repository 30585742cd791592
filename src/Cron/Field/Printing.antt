-- ===== src/Cron/Field/Printing.antt =====
-- The syntax of a cron field: values and ranges, and how they are written.
use gmaildigest_go.Prelude.{
  ℕ, ◌+◌, ◌/◌, ◌%◌, ◌≤◌, ◌<◌, ◌≡◌, ◌≢◌, refl, Bool, true, false, ◌&&◌, List, [], ◌∷◌, ◌++◌, some,
  arith, ltb, leb, ◌==◌, if◌then◌else◌, All, append_assoc, append-nil,
}
use gmaildigest_go.Prelude.Text.{Text}
use gmaildigest_go.Cron.Words.{split_loop, contains, atoi}

-- One entry of a field.
pub data Item : Type 0 where
  value : ℕ → Item
  range : ℕ → ℕ → Item

abbrev pub covers : ℕ → Item → Bool
covers x (value v) = x == v
covers x (range a b) = leb a x && leb x b

-- The entry is in order and lies between the bounds.
abbrev pub Fits : ℕ → ℕ → Item → Type 0
Fits min max (value v) = (min ≤ v) × (v ≤ max)
Fits min max (range a b) = (min ≤ a) × (a ≤ b) × (b ≤ max)

-- Decimal, for numbers of at most two digits.
unfoldable pub print_number : ℕ → Text
print_number n = if ltb n 10 then (48 + n) ∷ [] else (48 + n / 10) ∷ (48 + n % 10) ∷ []

unfoldable pub print_item : Item → Text
print_item (value v) = print_number v
print_item (range a b) = print_number a ++ b'-' ∷ print_number b

unfoldable pub print_field : List Item → Text
print_field [] = []
print_field (i ∷ []) = print_item i
print_field (i ∷ j ∷ rest) = print_item i ++ b',' ∷ print_field (j ∷ rest)

abbrev pub Lacks : ℕ → Text → Type 0
Lacks b = All (λ c. c ≢ b)

pub split_loop-last :
    (sep : ℕ) (p cur : Text) → Lacks sep p → split_loop sep p cur ≡ (cur ++ p) ∷ []
unfolding split_loop
split_loop-last sep [] cur l = rw append-nil
split_loop-last sep (c ∷ p) cur l =
    ground (arith, split_loop-last sep p (cur ++ c ∷ []), append_assoc cur (c ∷ []) p)

pub split_loop-part :
    (sep : ℕ) (p rest cur : Text)
    → Lacks sep p
    → split_loop sep (p ++ sep ∷ rest) cur ≡ (cur ++ p) ∷ split_loop sep rest []
unfolding split_loop
split_loop-part sep [] rest cur l = ground (arith, append-nil cur)
split_loop-part sep (c ∷ p) rest cur l =
    ground (arith, split_loop-part sep p rest (cur ++ c ∷ []), append_assoc cur (c ∷ []) p)

pub contains-Lacks : (b : ℕ) (p : Text) → Lacks b p → contains p b ≡ false
unfolding contains
contains-Lacks b [] l = refl
contains-Lacks b (c ∷ p) l = ground (arith, contains-Lacks b p)

pub contains-middle : (b : ℕ) (p rest : Text) → contains (p ++ b ∷ rest) b ≡ true
unfolding contains
contains-middle b [] rest = ground arith
contains-middle b (c ∷ p) rest = ground (arith, contains-middle b p rest)

pub print_number-Lacks : (b n : ℕ) → b < 48 → Lacks b (print_number n)
unfolding print_number
print_number-Lacks b n h = ground arith

-- Numbers of at most two digits are read back.
pub atoi-print_number : (n : ℕ) → n ≤ 99 → atoi (print_number n) ≡ some n
unfolding atoi print_number
atoi-print_number n h = ground arith
