-- ===== src/Cron/Field/Bounds.antt =====
-- The sets that the field parser returns.
use gmaildigest_go.Prelude.{
  ℕ, zero, suc, ◌+◌, ◌-◌, ◌≤◌, ◌≡◌, refl, true, false, ◌||◌, ◌&&◌, List, [], ◌∷◌, Option, none,
  some, arith, ltb, leb, ◌==◌, inl, inr, Bool-cases,
}
use gmaildigest_go.Prelude.Text.{Text, codes, eqt, text_dec}
use gmaildigest_go.Prelude.Results.{ok, >>=-eq-ok}
use gmaildigest_go.Cron.Words.{split, contains, atoi}
use gmaildigest_go.Cron.Field.{
  IntSet, has, fill, fill_range, check_range, parse_range, parse_value, parse_part, parse_parts,
  parse_field,
}

pub has_nil : (x : ℕ) → has [] x ≡ false
unfolding has
has_nil x = refl

pub has_cons : (y : ℕ) (t : IntSet) (z : ℕ) → has (y ∷ t) z ≡ (z == y || has t z)
unfolding has
has_cons y t z = refl

-- A filled range adds the numbers from `i` on, one for each round.
pub has-fill :
    (rounds i : ℕ) (s : IntSet) (x : ℕ)
    → has (fill rounds i s) x ≡ (leb i x && ltb x (i + rounds)) || has s x
unfolding fill
has-fill zero i s x = ground arith
has-fill (suc rounds) i s x = ground (arith, has-fill rounds (suc i) (i ∷ s) x, has_cons i s x)

-- Every member lies between the bounds.
abbrev pub Within : ℕ → ℕ → IntSet → Type 0
Within min max s = (x : ℕ) → has s x ≡ true → (min ≤ x) × (x ≤ max)

check_range-Within :
    (min max : ℕ) (part : Text) (a b : Option ℕ) (s : IntSet) {t : IntSet}
    → Within min max s
    → check_range min max part a b s ≡ ok t
    → Within min max t
check_range-Within min max part none b s w h = λ x. absurd (cc)
check_range-Within min max part (some a) none s w h = λ x. absurd (cc)
check_range-Within min max part (some a) (some b) s {t} w h =
    λ x m. ground (arith, has-fill (suc b - a) a s x, w x)

parse_range-Within :
    (min max : ℕ) (part : Text) (ends : List Text) (s : IntSet) {t : IntSet}
    → Within min max s
    → parse_range min max part ends s ≡ ok t
    → Within min max t
parse_range-Within min max part [] s w h = λ x. absurd (cc)
parse_range-Within min max part (a ∷ []) s w h = λ x. absurd (cc)
parse_range-Within min max part (a ∷ b ∷ []) s w h =
    check_range-Within min max part (atoi a) (atoi b) s w h
parse_range-Within min max part (a ∷ b ∷ c ∷ ends) s w h = λ x. absurd (cc)

parse_value-Within :
    (min max : ℕ) (part : Text) (a : Option ℕ) (s : IntSet) {t : IntSet}
    → Within min max s
    → parse_value min max part a s ≡ ok t
    → Within min max t
unfolding has
parse_value-Within min max part none s w h = λ x. absurd (cc)
parse_value-Within min max part (some a) s w h = λ x m. ground (arith, w x)

parse_part-Within :
    (min max : ℕ) (part : Text) (s : IntSet) {t : IntSet}
    → Within min max s
    → parse_part min max part s ≡ ok t
    → Within min max t
unfolding parse_part
parse_part-Within min max part s {t} w h = elim (Bool-cases (contains part b'-')) [
  | inl dash ↦ parse_range-Within min max part (split part b'-') s w (rw dash at h)
  | inr plain ↦ parse_value-Within min max part (atoi part) s w (rw plain at h)
]

parse_parts-Within :
    (min max : ℕ) (parts : List Text) (s : IntSet) {t : IntSet}
    → Within min max s
    → parse_parts min max parts s ≡ ok t
    → Within min max t
unfolding parse_parts
parse_parts-Within min max [] s w h = λ x m. w x (ground arith)
parse_parts-Within min max (part ∷ parts) s w h =
    let (u, first, others) = >>=-eq-ok (parse_part min max part s) (parse_parts min max parts) h in
    parse_parts-Within min max parts u (parse_part-Within min max part s w first) others

-- A star selects exactly the numbers between the bounds.
pub parse_field-star :
    (min max : ℕ)
    → min ≤ max
    → (s : IntSet) × (parse_field (codes "*") min max ≡ ok s)
      × ((x : ℕ) → has s x ≡ (leb min x && leb x max))
unfolding parse_field text_dec
parse_field-star min max le =
    (fill_range min max [], refl, λ x. ground (arith, has-fill (suc max - min) min [] x, has_nil x))

-- A field that the parser accepts selects numbers between its bounds only.
pub parse_field-Within :
    (field : Text) (min max : ℕ) {s : IntSet} → parse_field field min max ≡ ok s → Within min max s
unfolding parse_field
parse_field-Within field min max h = elim (Bool-cases (eqt field (codes "*"))) [
  | inl star ↦ λ x m. ground (arith, has-fill (suc max - min) min [] x, has_nil x)
  | inr listed ↦
      parse_parts-Within min max (split field b',') [] (λ x m. cc (has_nil x)) (rw listed at h)
]
