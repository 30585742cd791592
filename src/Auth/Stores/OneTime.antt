-- ===== src/Auth/Stores/OneTime.antt =====
-- A stored state or verifier is given out once.
use gmaildigest_go.Prelude.{
  ℕ, ◌+◌, ◌*◌, ◌≡◌, ◌≤◌, Bool, true, false, List, [], ◌∷◌, Option, some, none, ite, arith,
  Option-cases, inl, inr, if_pos, if_neg,
}
use gmaildigest_go.Prelude.Text.{Text, text_dec}
use gmaildigest_go.Prelude.Maps.{Map, lookup, insert, delete, lookup-insert, lookup-delete}
use gmaildigest_go.Auth.Stores.{InMemoryStateStore, store_state, validate_state, delete_state}

pub data StateCall : Type 0 where
  stores : Text → Text → StateCall
  validates : Text → Text → StateCall
  deletes : Text → StateCall

abbrev pub apply_state : InMemoryStateStore → StateCall → InMemoryStateStore
apply_state s (stores u x) = store_state s u x
apply_state s (validates u x) = (validate_state s u x).0
apply_state s (deletes u) = delete_state s u

abbrev pub one_if : Bool → ℕ
one_if true = 1
one_if false = 0

abbrev pub one_for : Text → Text → ℕ
one_for a b = ite (text_dec a b) 1 0

-- The validations of the user that succeed, and the states stored for the user.
unfoldable pub accepted : Text → InMemoryStateStore → List StateCall → ℕ
accepted user s [] = 0
accepted user s (stores u x ∷ cs) = accepted user (apply_state s (stores u x)) cs
accepted user s (validates u x ∷ cs) =
    one_for u user * one_if (validate_state s u x).1
    + accepted user (apply_state s (validates u x)) cs
accepted user s (deletes u ∷ cs) = accepted user (apply_state s (deletes u)) cs

unfoldable pub issued : Text → List StateCall → ℕ
issued user [] = 0
issued user (stores u x ∷ cs) = one_for u user + issued user cs
issued user (validates u x ∷ cs) = issued user cs
issued user (deletes u ∷ cs) = issued user cs

abbrev pub held {ℓ} : {V : Type ℓ} → Option V → ℕ
held none = 0
held (some v) = 1

held-ite-some :
    {A : Type 0} (d : Dec A) (v : Text) (o : Option Text)
    → held (ite d (some v) o) ≤ held o + ite d 1 0
held-ite-some (yes e) v o = omega arith
held-ite-some (no n) v o = omega arith

held-ite-none : {A : Type 0} (d : Dec A) (o : Option Text) → held (ite d none o) ≤ held o
held-ite-none (yes e) o = omega arith
held-ite-none (no n) o = omega arith

held-insert :
    (k j : Text) (v : Text) (m : Map Text)
    → held (lookup j (insert k v m)) ≤ held (lookup j m) + one_for k j
held-insert k j v m = rw (lookup-insert k j v m) (held-ite-some (text_dec k j) v (lookup j m))

held-delete : (k j : Text) (m : Map Text) → held (lookup j (delete k m)) ≤ held (lookup j m)
held-delete k j m = rw (lookup-delete k j m) (held-ite-none (text_dec k j) (lookup j m))

one-held :
    {A : Type 0} (d : Dec A) (o : Option Text) (v : Text)
    → (A → o ≡ some v)
    → ite d 1 0 * 1 + held (ite d none o) ≤ held o
one-held (yes e) o v h = rw (h e) (omega arith)
one-held (no n) o v h = omega arith

-- A validation uses up the state it accepts.
held-validate :
    (u x user : Text) (s : InMemoryStateStore)
    → one_for u user * one_if (validate_state s u x).1 + held (lookup user (validate_state s u x).0)
      ≤ held (lookup user s)
unfolding validate_state
held-validate u x user s = elim (Option-cases (lookup u s)) [
  | inl absent ↦ rw absent (omega arith)
  | inr (stored, present) ↦ elim (text_dec stored x) [
    | yes same ↦
        rw (present, if_pos _ same, lookup-delete u user s)
          (one-held (text_dec u user) (lookup user s) stored (λ e. rw (← e) present))
    | no other ↦ rw (present, if_neg _ other) (omega arith)
  ]
]

accepted-le_from :
    (user : Text) (s : InMemoryStateStore) (cs : List StateCall)
    → accepted user s cs ≤ held (lookup user s) + issued user cs
unfolding accepted issued store_state delete_state
accepted-le_from user s [] = omega arith
accepted-le_from user s (stores u x ∷ cs) =
    omega (arith, accepted-le_from user (insert u x s) cs, held-insert u user x s)
accepted-le_from user s (validates u x ∷ cs) =
    omega (arith, accepted-le_from user (validate_state s u x).0 cs, held-validate u x user s)
accepted-le_from user s (deletes u ∷ cs) =
    omega (arith, accepted-le_from user (delete u s) cs, held-delete u user s)

-- No replay: in every sequence of calls on a new store, no more validations succeed for a user than
-- states were stored for the user.
pub accepted-le : (user : Text) (cs : List StateCall) → accepted user [] cs ≤ issued user cs
unfolding lookup
accepted-le user cs = omega (arith, accepted-le_from user [] cs)
