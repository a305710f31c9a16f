-- ===== src/Utils/Migration.antt =====
-- utils/migration: a chain of migrations and its execution against a store that holds the id of the
-- last one applied. `inmemIDStore` and `KvdbIDStore` are the field `id`; the database's errors end
-- the process and are left out.
pub mod Resume
pub mod Failing
use go_mini_opera.Prelude.{
  ℕ, zero, suc, Bool, true, false, ◌&&◌, Option, none, some, List, [], ◌∷◌, ◌==◌, if◌then◌else◌,
  ◌++◌,
}

-- A Go string.
abbrev pub Str : Type 0
Str = List ℕ

-- `==` on strings.
unfoldable pub str_eq : Str → Str → Bool
str_eq [] [] = true
str_eq [] (y ∷ ys) = false
str_eq (x ∷ xs) [] = false
str_eq (x ∷ xs) (y ∷ ys) = let rest = str_eq xs ys in (x == y) && rest

pub data ExecError : Type 0 where
  unknown_version exec_failed : ExecError

-- A named migration function over the data `S`; `false` is an error that it returns.
pub record Step {ℓ} (S : Type ℓ) : Type ℓ where
  pub name : Str
  pub exec : S → Bool × S

-- `Migration`: what Begin makes has neither `exec` nor `prev`, what Next makes has both.
pub data Migration {ℓ} (S : Type ℓ) : Type ℓ where
  begin : Str → Migration S
  next : Migration S → Step S → Migration S

-- `Next`: it panics on an empty name and on a nil function.
unfoldable pub next_migration {ℓ} :
    {S : Type ℓ} → Migration S → Str → Option (S → Bool × S) → Option (Migration S)
next_migration m [] exec = none
next_migration m (c ∷ cs) none = none
next_migration m (c ∷ cs) (some exec) = some (next m (record { name = c ∷ cs; exec = exec }))

-- The data and the id store.
pub record Store {ℓ} (S : Type ℓ) : Type ℓ where
  pub id : Str
  pub content : S

-- What follows a call whose error is returned.
unfoldable pub and_then {ℓ} :
    {S : Type ℓ}
    → Option ExecError × Store S
    → (Store S → Option ExecError × Store S)
    → Option ExecError × Store S
and_then (some err, curr) rest = (some err, curr)
and_then (none, curr) rest = rest curr

-- The Keccak-256 sum of the name, in hexadecimal.
module _ {ℓ} {S : Type ℓ} (digest : Str → Str) where
  -- `ID`.
  unfoldable pub migration_id : Migration S → Str
  migration_id (begin name) = digest name
  migration_id (next prev step) = digest step.name

  -- `IDs`.
  unfoldable pub migration_ids : Migration S → List Str
  migration_ids (begin name) = digest name ∷ []
  migration_ids (next prev step) = migration_ids prev ++ (digest step.name ∷ [])

  -- The end of Exec: the step itself, and SetID after it.
  unfoldable pub apply_step : Step S → Store S → Option ExecError × Store S
  apply_step step curr =
      let (done, content) = step.exec curr.content in
      if done
      then (none, record { id = digest step.name; content = content })
      else (some exec_failed, record curr { content = content })

  -- `Exec`.
  unfoldable pub exec_migrations : Migration S → Store S → Option ExecError × Store S
  exec_migrations (begin name) curr =
      if str_eq curr.id [] then (none, curr) else (some unknown_version, curr)
  exec_migrations (next prev step) curr =
      let before = exec_migrations prev curr in
      if str_eq curr.id (digest step.name) then (none, curr) else and_then before (apply_step step)
