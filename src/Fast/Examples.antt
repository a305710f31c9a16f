-- ===== src/Fast/Examples.antt =====
-- Runs of utils/fast on concrete input.
use go_mini_opera.Prelude.{◌≡◌, refl, some, [], ◌∷◌, inl, inr, arith}
use go_mini_opera.Fast.BitArray.RoundTrip.{write_then_read, pop_each-push_each}

pop_each-push_each_example :
    write_then_read 2 (3 ∷ 0 ∷ 1 ∷ 2 ∷ 2 ∷ []) ≡ some (3 ∷ 0 ∷ 1 ∷ 2 ∷ 2 ∷ [])
pop_each-push_each_example =
    pop_each-push_each 2 (3 ∷ 0 ∷ 1 ∷ 2 ∷ 2 ∷ []) (inr (inl refl)) (omega arith) (omega arith)
      (omega arith, (omega arith, (omega arith, (omega arith, (omega arith, tt)))))
