-- ===== src/Storage/Connection/Open.antt =====
-- Scripts in a transaction, which stays open.
use gmaildigest_go.Prelude.{
  if◌then◌else◌, ◌≡◌, refl, ◌++◌, Bool, true, false, List, [], ◌∷◌, Option, none, some, arith,
  Bool-cases, inl, inr,
}
use gmaildigest_go.Prelude.Text.{Text}
use gmaildigest_go.Prelude.Maps.{lookup}
use gmaildigest_go.Storage.Connection.{
  Connection, Statement, TableName, tables_at, has_table, attach_file, save_table, restore_table,
  attaches, drops, saves, restores, indexes, detaches, exec_statement, exec_script,
}

-- A connection that is left is in a transaction.
abbrev StaysOpen : Option Connection → Type 0
StaysOpen none = Unit
StaysOpen (some c) = c.in_transaction ≡ true

if_StaysOpen :
    (b : Bool) (x y : Option Connection)
    → StaysOpen x
    → StaysOpen y
    → StaysOpen (if b then x else y)
if_StaysOpen true x y h k = h
if_StaysOpen false x y h k = k

module _ (c : Connection) (t : c.in_transaction ≡ true) where
  attach_file-StaysOpen : (path : Text) (o : Option Text) → StaysOpen (attach_file path c o)
  attach_file-StaysOpen path none = t
  attach_file-StaysOpen path (some other) = tt

  save_table-StaysOpen : (n : TableName) (o : Option Text) → StaysOpen (save_table n c o)
  save_table-StaysOpen n none = tt
  save_table-StaysOpen n (some path) =
      if_StaysOpen (has_table n (tables_at (lookup path c.files))) none _ tt
        (if_StaysOpen (has_table n c.main) (some _) none t tt)

  restore_table-StaysOpen : (n : TableName) (o : Option Text) → StaysOpen (restore_table n c o)
  restore_table-StaysOpen n none = tt
  restore_table-StaysOpen n (some path) =
      if_StaysOpen (has_table n c.main) none _ tt
        (if_StaysOpen (has_table n (tables_at (lookup path c.files))) (some _) none t tt)

  exec_statement-StaysOpen : (s : Statement) → StaysOpen (exec_statement c s)
  unfolding exec_statement
  exec_statement-StaysOpen (attaches path) = attach_file-StaysOpen path c.attached
  exec_statement-StaysOpen (drops n) = t
  exec_statement-StaysOpen (saves n) = save_table-StaysOpen n c.attached
  exec_statement-StaysOpen (restores n) = restore_table-StaysOpen n c.attached
  exec_statement-StaysOpen (indexes n) = t
  exec_statement-StaysOpen detaches = rw t tt

-- After a statement in a transaction: a property of the stop and of what follows.
after_statement :
    (P : Connection × Bool → Type 0) (c : Connection) (f : Connection → Connection × Bool)
    (o : Option Connection)
    → StaysOpen o
    → P (c, false)
    → ((d : Connection) → d.in_transaction ≡ true → P (f d))
    → P (elim o [ none ↦ (c, false) | some d ↦ f d ])
after_statement P c f none k stopped next = stopped
after_statement P c f (some d) k stopped next = next d k

-- In a transaction a script that ends in `DETACH` fails.
pub exec_script-detaches :
    (refuses : Statement → Bool) (c : Connection) (ss : List Statement)
    → c.in_transaction ≡ true
    → (exec_script refuses c (ss ++ detaches ∷ [])).1 ≡ false
unfolding exec_script exec_statement
exec_script-detaches refuses c [] t = ground arith
exec_script-detaches refuses c (s ∷ ss) t = elim (Bool-cases (refuses s)) [
  | inl stop ↦ rw stop refl
  | inr go ↦ rw go (
      after_statement (λ r. r.1 ≡ false) c _ (exec_statement c s) (exec_statement-StaysOpen c t s)
        refl (λ d k. exec_script-detaches refuses d ss k))
]

pub exec_script-StaysOpen :
    (refuses : Statement → Bool) (c : Connection) (ss : List Statement)
    → c.in_transaction ≡ true
    → (exec_script refuses c ss).0.in_transaction ≡ true
unfolding exec_script
exec_script-StaysOpen refuses c [] t = t
exec_script-StaysOpen refuses c (s ∷ ss) t = elim (Bool-cases (refuses s)) [
  | inl stop ↦ rw stop t
  | inr go ↦ rw go (
      after_statement (λ r. r.0.in_transaction ≡ true) c _ (exec_statement c s)
        (exec_statement-StaysOpen c t s) t (λ d k. exec_script-StaysOpen refuses d ss k))
]
