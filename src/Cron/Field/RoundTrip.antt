-- ===== src/Cron/Field/RoundTrip.antt =====
-- Writing a list of values and ranges in the syntax of a cron field, and parsing it again.
use gmaildigest_go.Prelude.{
  ℕ, suc, ◌-◌, ◌≤◌, ◌<◌, ◌≡◌, ◌≢◌, refl, ap, ◌∙◌, false, ◌||◌, List, [], ◌∷◌, ◌++◌, arith, any, All,
  All-append, map,
}
use gmaildigest_go.Prelude.Text.{Text, codes, eqt}
use gmaildigest_go.Prelude.Results.{ok}
use gmaildigest_go.Cron.Words.{split}
use gmaildigest_go.Cron.Field.{IntSet, has, fill_range, parse_part, parse_parts, parse_field}
use gmaildigest_go.Cron.Field.Printing.{
  Item, value, range, covers, Fits, print_number, print_item, print_field, Lacks, split_loop-last,
  split_loop-part, contains-Lacks, contains-middle, print_number-Lacks, atoi-print_number,
}
use gmaildigest_go.Cron.Field.Bounds.{has_nil, has_cons, has-fill}

print_item-Lacks : (b : ℕ) (i : Item) → b < 45 → Lacks b (print_item i)
unfolding print_item
print_item-Lacks b (value v) h = print_number-Lacks b v (omega arith)
print_item-Lacks b (range a c) h =
    All-append _ (print_number a) (b'-' ∷ print_number c) (print_number-Lacks b a (omega arith))
      (omega arith, print_number-Lacks b c (omega arith))

-- A parsed entry adds what it covers.
parse_part-print_item :
    (min max : ℕ) (i : Item) (s : IntSet)
    → max ≤ 99
    → Fits min max i
    → (t : IntSet) × (parse_part min max (print_item i) s ≡ ok t)
      × ((x : ℕ) → has t x ≡ (covers x i || has s x))
unfolding parse_part print_item
parse_part-print_item min max (value v) s m (lo, hi) = (
  v ∷ s,
  rw
      (
        contains-Lacks b'-' (print_number v) (print_number-Lacks b'-' v (omega arith)),
        atoi-print_number v (omega arith),
      )
      (ground arith),
  λ x. has_cons v s x,
)
parse_part-print_item min max (range a b) s m (lo, le, hi) = (
  fill_range a b s,
  rw
      (
        contains-middle b'-' (print_number a) (print_number b),
        split_range,
        atoi-print_number a (omega arith),
        atoi-print_number b (omega arith),
      )
      (ground arith),
  λ x. ground (arith, has-fill (suc b - a) a s x),
)
  where
    split_range :
        split (print_number a ++ b'-' ∷ print_number b) b'-' ≡ print_number a ∷ print_number b ∷ []
    split_range =
        unfold split in
        split_loop-part b'-' (print_number a) (print_number b) []
          (print_number-Lacks b'-' a (omega arith))
        ∙ ap (λ r. print_number a ∷ r)
            (split_loop-last b'-' (print_number b) [] (print_number-Lacks b'-' b (omega arith)))

parse_parts-print :
    (min max : ℕ) (items : List Item) (s : IntSet)
    → max ≤ 99
    → All (Fits min max) items
    → (t : IntSet) × (parse_parts min max (map print_item items) s ≡ ok t)
      × ((x : ℕ) → has t x ≡ (any (covers x) items || has s x))
unfolding parse_parts
parse_parts-print min max [] s m f = (s, refl, λ x. refl)
parse_parts-print min max (i ∷ items) s m (f, fs) =
    let (t, part, adds) = parse_part-print_item min max i s m f in
    let (u, parts, more) = parse_parts-print min max items t m fs in
    (u, rw part parts, λ x. ground (arith, adds x, more x))

split-print_field :
    (i : Item) (items : List Item)
    → split (print_field (i ∷ items)) b',' ≡ map print_item (i ∷ items)
unfolding split print_field
split-print_field i [] =
    split_loop-last b',' (print_item i) [] (print_item-Lacks b',' i (omega arith))
split-print_field i (j ∷ items) =
    split_loop-part b',' (print_item i) (print_field (j ∷ items)) []
      (print_item-Lacks b',' i (omega arith))
    ∙ ap (λ r. print_item i ∷ r) (split-print_field j items)

-- The text starts with a byte from the digits on.
abbrev StartsHigh : Text → Type 0
StartsHigh [] = ⊥
StartsHigh (c ∷ s) = 48 ≤ c

StartsHigh-append : (p q : Text) → StartsHigh p → StartsHigh (p ++ q)
StartsHigh-append [] q h = absurd h
StartsHigh-append (c ∷ p) q h = h

print_number-StartsHigh : (n : ℕ) → StartsHigh (print_number n)
unfolding print_number
print_number-StartsHigh n = ground arith

print_item-StartsHigh : (i : Item) → StartsHigh (print_item i)
unfolding print_item
print_item-StartsHigh (value v) = print_number-StartsHigh v
print_item-StartsHigh (range a b) =
    StartsHigh-append (print_number a) (b'-' ∷ print_number b) (print_number-StartsHigh a)

print_field-StartsHigh : (i : Item) (items : List Item) → StartsHigh (print_field (i ∷ items))
unfolding print_field
print_field-StartsHigh i [] = print_item-StartsHigh i
print_field-StartsHigh i (j ∷ items) =
    StartsHigh-append (print_item i) (b',' ∷ print_field (j ∷ items)) (print_item-StartsHigh i)

print_field-ne-star : (i : Item) (items : List Item) → print_field (i ∷ items) ≢ codes "*"
print_field-ne-star i items e =
    let high : StartsHigh (codes "*") = rw e at (print_field-StartsHigh i items) in
    absurd (omega arith)

eqt_ne : (a b : Text) → a ≢ b → eqt a b ≡ false
eqt_ne a b h = ground arith

-- Every list of values and ranges that fits the bounds is accepted in its printed form, and selects
-- exactly the numbers that some entry covers.
pub parse_field-print_field :
    (min max : ℕ) (items : List Item)
    → max ≤ 99
    → items ≢ []
    → All (Fits min max) items
    → (s : IntSet) × (parse_field (print_field items) min max ≡ ok s)
      × ((x : ℕ) → has s x ≡ any (covers x) items)
unfolding parse_field
parse_field-print_field min max [] m ne f = absurd (ne refl)
parse_field-print_field min max (i ∷ items) m ne f =
    let (s, parsed, adds) = parse_parts-print min max (i ∷ items) [] m f in
    (
      s,
      rw
          (
            eqt_ne (print_field (i ∷ items)) (codes "*") (print_field-ne-star i items),
            split-print_field i items,
          )
          parsed,
      λ x. ground (arith, adds x, has_nil x),
    )
