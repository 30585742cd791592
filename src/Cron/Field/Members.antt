-- ===== src/Cron/Field/Members.antt =====
-- An accepted field selects something: the parser never returns the empty set.
use gmaildigest_go.Prelude.{
  ℕ, suc, ◌-◌, ◌≤◌, ◌≡◌, ◌≢◌, refl, true, List, [], ◌∷◌, ◌++◌, Option, none, some, arith, inl, inr,
  Bool-cases,
}
use gmaildigest_go.Prelude.Text.{Text, codes, eqt}
use gmaildigest_go.Prelude.Results.{ok, >>=-eq-ok}
use gmaildigest_go.Cron.Words.{split, split_loop, contains, atoi}
use gmaildigest_go.Cron.Field.{
  IntSet, has, check_range, parse_range, parse_value, parse_part, parse_parts, parse_field,
}
use gmaildigest_go.Cron.Field.Bounds.{has_cons, has-fill}

-- Some number is in the set.
abbrev pub Inhabited : IntSet → Type 0
Inhabited s = (x : ℕ) × (has s x ≡ true)

check_range-Inhabited :
    (min max : ℕ) (part : Text) (a b : Option ℕ) (s : IntSet) {t : IntSet}
    → check_range min max part a b s ≡ ok t
    → Inhabited t
check_range-Inhabited min max part none b s h = absurd (cc)
check_range-Inhabited min max part (some a) none s h = absurd (cc)
check_range-Inhabited min max part (some a) (some b) s h =
    (a, ground (arith, has-fill (suc b - a) a s a))

parse_range-Inhabited :
    (min max : ℕ) (part : Text) (ends : List Text) (s : IntSet) {t : IntSet}
    → parse_range min max part ends s ≡ ok t
    → Inhabited t
parse_range-Inhabited min max part [] s h = absurd (cc)
parse_range-Inhabited min max part (a ∷ []) s h = absurd (cc)
parse_range-Inhabited min max part (a ∷ b ∷ []) s h =
    check_range-Inhabited min max part (atoi a) (atoi b) s h
parse_range-Inhabited min max part (a ∷ b ∷ c ∷ ends) s h = absurd (cc)

parse_value-Inhabited :
    (min max : ℕ) (part : Text) (a : Option ℕ) (s : IntSet) {t : IntSet}
    → parse_value min max part a s ≡ ok t
    → Inhabited t
parse_value-Inhabited min max part none s h = absurd (cc)
parse_value-Inhabited min max part (some a) s h = (a, ground (arith, has_cons a s a))

parse_part-Inhabited :
    (min max : ℕ) (part : Text) (s : IntSet) {t : IntSet}
    → parse_part min max part s ≡ ok t
    → Inhabited t
unfolding parse_part
parse_part-Inhabited min max part s h = elim (Bool-cases (contains part b'-')) [
  | inl dash ↦ parse_range-Inhabited min max part (split part b'-') s (rw dash at h)
  | inr plain ↦ parse_value-Inhabited min max part (atoi part) s (rw plain at h)
]

-- The loop keeps its set or leaves one with a member.
parse_parts-Inhabited :
    (min max : ℕ) (parts : List Text) (s : IntSet) {t : IntSet}
    → Inhabited s
    → parse_parts min max parts s ≡ ok t
    → Inhabited t
unfolding parse_parts
parse_parts-Inhabited min max [] s (x, m) h = (x, ground arith)
parse_parts-Inhabited min max (part ∷ parts) s i h =
    let (u, first, others) = >>=-eq-ok (parse_part min max part s) (parse_parts min max parts) h in
    parse_parts-Inhabited min max parts u (parse_part-Inhabited min max part s first) others

parse_parts-first :
    (min max : ℕ) (parts : List Text) (s : IntSet) {t : IntSet}
    → parts ≢ []
    → parse_parts min max parts s ≡ ok t
    → Inhabited t
unfolding parse_parts
parse_parts-first min max [] s ne h = absurd (ne refl)
parse_parts-first min max (part ∷ parts) s ne h =
    let (u, first, others) = >>=-eq-ok (parse_part min max part s) (parse_parts min max parts) h in
    parse_parts-Inhabited min max parts u (parse_part-Inhabited min max part s first) others

split_loop-ne-nil : (sep : ℕ) (s cur : Text) → split_loop sep s cur ≢ []
unfolding split_loop
split_loop-ne-nil sep [] cur e = cc
split_loop-ne-nil sep (c ∷ s) cur e = ground (arith, split_loop-ne-nil sep s (cur ++ c ∷ []))

split-ne-nil : (s : Text) (sep : ℕ) → split s sep ≢ []
unfolding split
split-ne-nil s sep = split_loop-ne-nil sep s []

-- A field that the parser accepts selects at least one number.
pub parse_field-Inhabited :
    (field : Text) (min max : ℕ) {s : IntSet}
    → min ≤ max
    → parse_field field min max ≡ ok s
    → Inhabited s
unfolding parse_field
parse_field-Inhabited field min max le h = elim (Bool-cases (eqt field (codes "*"))) [
  | inl star ↦ (min, ground (arith, has-fill (suc max - min) min [] min))
  | inr listed ↦
      parse_parts-first min max (split field b',') [] (split-ne-nil field b',') (rw listed at h)
]
