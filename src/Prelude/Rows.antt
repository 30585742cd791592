-- ===== src/Prelude/Rows.antt =====
-- Tables of rows: what a `WHERE` clause keeps and counts, and unique keys.
use Prim.Native.Nat.{ℕ, suc, ◌+◌, ◌≤◌}
use mathlib.Core.Path.{◌≡◌, refl}
use mathlib.Core.Bool.{Bool, false, not, ◌||◌}
use mathlib.Core.Option.{Option, none, some}
use mathlib.Core.List.{List, [], ◌∷◌, ◌++◌}
use native.Mathlib.Omega.{arith}
use mathlib.Core.Path.{◌∙◌}
use mathlib.Core.Logic.{inl, inr}
use gmaildigest_go.Prelude.Tests.{if◌then◌else◌, Bool-cases}
use gmaildigest_go.Prelude.Lists.{length, any}

module _ {ℓ} {A : Type ℓ} where
  -- The rows that satisfy the condition.
  abbrev pub keep : (A → Bool) → List A → List A
  keep p [] = []
  keep p (x ∷ xs) = if p x then x ∷ keep p xs else keep p xs

  abbrev pub count_where : (A → Bool) → List A → ℕ
  count_where p [] = 0
  count_where p (x ∷ xs) = if p x then suc (count_where p xs) else count_where p xs

  -- The first row that satisfies the condition.
  abbrev pub first : (A → Bool) → List A → Option A
  first p [] = none
  first p (x ∷ xs) = if p x then some x else first p xs

  -- `UPDATE`: the rows that satisfy the condition are changed in place.
  abbrev pub change : (A → Bool) → (A → A) → List A → List A
  change p f [] = []
  change p f (x ∷ xs) = (if p x then f x else x) ∷ change p f xs

  pub count_where-le : (p : A → Bool) (xs : List A) → count_where p xs ≤ length xs
  count_where-le p [] = omega arith
  count_where-le p (x ∷ xs) = ground (arith, count_where-le p xs)

  pub length-keep : (p : A → Bool) (xs : List A) → length (keep p xs) ≡ count_where p xs
  length-keep p [] = refl
  length-keep p (x ∷ xs) = ground (arith, length-keep p xs)

  -- What is kept and what is not make up the table.
  pub count_where-not :
      (p : A → Bool) (xs : List A) → count_where p xs + count_where (λ x. not (p x)) xs ≡ length xs
  count_where-not p [] = omega arith
  count_where-not p (x ∷ xs) = ground (arith, count_where-not p xs)

  pub any-keep : (q p : A → Bool) (xs : List A) → any q xs ≡ false → any q (keep p xs) ≡ false
  any-keep q p [] h = refl
  any-keep q p (x ∷ xs) h = ground (arith, any-keep q p xs)

  pub any-append : (q : A → Bool) (xs ys : List A) → any q (xs ++ ys) ≡ (any q xs || any q ys)
  any-append q [] ys = refl
  any-append q (x ∷ xs) ys = ground (arith, any-append q xs ys)

  -- No two rows clash.
  abbrev pub Distinct : (A → A → Bool) → List A → Type ℓ
  Distinct clash [] = Unit
  Distinct clash (x ∷ xs) = (any (clash x) xs ≡ false) × Distinct clash xs

  pub Distinct-keep :
      (clash : A → A → Bool) (p : A → Bool) (xs : List A)
      → Distinct clash xs
      → Distinct clash (keep p xs)
  Distinct-keep clash p [] d = tt
  Distinct-keep clash p (x ∷ xs) (a, d) =
      ground (arith, any-keep (clash x) p xs a, Distinct-keep clash p xs d)

  pub Distinct-append :
      (clash : A → A → Bool) (xs : List A) (y : A)
      → ((a b : A) → clash a b ≡ clash b a)
      → Distinct clash xs
      → any (clash y) xs ≡ false
      → Distinct clash (xs ++ y ∷ [])
  Distinct-append clash [] y s d h = (refl, tt)
  Distinct-append clash (x ∷ xs) y s (a, d) h = (
    ground (arith, any-append (clash x) xs (y ∷ []), s x y),
    Distinct-append clash xs y s d (ground arith),
  )

  -- A change that leaves the keys alone.
  pub any-change :
      (clash : A → A → Bool) (p : A → Bool) (f : A → A) (a a' : A) (xs : List A)
      → ((b : A) → clash a' b ≡ clash a b)
      → ((b c : A) → clash b (f c) ≡ clash b c)
      → any (clash a') (change p f xs) ≡ any (clash a) xs
  any-change clash p f a a' [] h k = refl
  any-change clash p f a a' (x ∷ xs) h k =
      ground (arith, h x, h (f x), k a x, any-change clash p f a a' xs h k)

  pub Distinct-change :
      (clash : A → A → Bool) (p : A → Bool) (f : A → A) (xs : List A)
      → ((b c : A) → clash (f b) c ≡ clash b c)
      → ((b c : A) → clash b (f c) ≡ clash b c)
      → Distinct clash xs
      → Distinct clash (change p f xs)
  Distinct-change clash p f [] h k d = tt
  Distinct-change clash p f (x ∷ xs) h k (a, d) = elim (Bool-cases (p x)) [
    | inl e ↦ rw e (any-change clash p f x (f x) xs (h x) k ∙ a, Distinct-change clash p f xs h k d)
    | inr n ↦
        rw n (any-change clash p f x x xs (λ b. refl) k ∙ a, Distinct-change clash p f xs h k d)
  ]
