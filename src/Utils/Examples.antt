-- ===== src/Utils/Examples.antt =====
-- A chain of three migrations over a number, whose second one fails at first.
use go_mini_opera.Prelude.{ℕ, ◌+◌, ◌≡◌, ◌≢◌, refl, ap, arith, true, false, List, [], ◌∷◌}
use go_mini_opera.Utils.Migration.{
  Str, str_eq, Step, begin, Store, apply_step, and_then, exec_migrations,
}
use go_mini_opera.Utils.Migration.Resume.{
  apply_steps, extend, IsAt, oldest_first, exec_migrations-extend,
}
use go_mini_opera.Utils.Migration.Failing.{StopsAt, exec_migrations-failed}

abbrev digest : Str → Str
digest name = 7 ∷ name

abbrev add_one : Step ℕ
add_one = record { name = 1 ∷ []; exec = λ n. (true, n + 1) }

abbrev add_two : Step ℕ
add_two = record { name = 2 ∷ []; exec = λ n. (true, n + 2) }

abbrev broken : Step ℕ
broken = record { name = 3 ∷ []; exec = λ n. (false, n + 3) }

abbrev at_one : Store ℕ
at_one = record { id = 7 ∷ 1 ∷ []; content = 10 }

abbrev unknown : Store ℕ
unknown = record { id = 8 ∷ []; content = 10 }

abbrev second : List ℕ → ℕ
second [] = 0
second (x ∷ []) = 0
second (x ∷ y ∷ zs) = y

abbrev first : List ℕ → ℕ
first [] = 0
first (x ∷ xs) = x

differ_second : {a b : List ℕ} → second a ≢ second b → a ≢ b
differ_second h same = h (ap second same)

differ_first : {a b : List ℕ} → first a ≢ first b → a ≢ b
differ_first h same = h (ap first same)

exec_migrations-extend_example :
    exec_migrations digest
      (extend digest (extend digest (begin []) (add_one ∷ [])) (broken ∷ add_two ∷ []))
      at_one
    ≡ apply_steps digest (oldest_first digest (broken ∷ add_two ∷ [])) at_one
unfolding extend IsAt
exec_migrations-extend_example =
    exec_migrations-extend digest (extend digest (begin []) (add_one ∷ [])) (broken ∷ add_two ∷ [])
      at_one refl (differ_second (omega arith), (differ_second (omega arith), tt))

exec_migrations-failed_example :
    StopsAt digest (add_two ∷ broken ∷ []) at_one (record { id = 7 ∷ 2 ∷ []; content = 15 })
unfolding exec_migrations extend apply_step and_then str_eq IsAt
exec_migrations-failed_example =
    exec_migrations-failed digest (extend digest (begin []) (add_one ∷ [])) (broken ∷ add_two ∷ [])
      at_one (record { id = 7 ∷ 2 ∷ []; content = 15 }) refl
      (differ_second (omega arith), (differ_second (omega arith), tt)) refl
