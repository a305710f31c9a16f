-- ===== src/Prelude/Int.antt =====
-- Go's signed integers. `negsuc n` is -(n + 1).
use Prim.Native.Nat.{ℕ, zero, suc, ◌+◌, ◌-◌, compare, Ordering}
use mathlib.Core.Bool.{Bool, true}
use go_mini_opera.Prelude.Tests.{ltb}

pub data ℤ : Type 0 where
  pos : ℕ → ℤ
  negsuc : ℕ → ℤ

-- n - 1 for a Go int that is not negative.
abbrev pub pred_ℤ : ℕ → ℤ
pred_ℤ zero = negsuc 0
pred_ℤ (suc n) = pos n

abbrev pub inc_ℤ : ℤ → ℤ
inc_ℤ (pos n) = pos (suc n)
inc_ℤ (negsuc zero) = pos 0
inc_ℤ (negsuc (suc n)) = negsuc n

abbrev pub dec_ℤ : ℤ → ℤ
dec_ℤ (pos n) = pred_ℤ n
dec_ℤ (negsuc n) = negsuc (suc n)

-- a - b of two numbers.
abbrev pub diff_ℤ : ℕ → ℕ → ℤ
diff_ℤ a b = elim (compare a b) [ Ordering.lt ↦ negsuc (b - a - 1) | _ ↦ pos (a - b) ]

infixl 60 ◌+ℤ◌
abbrev pub ◌+ℤ◌ : ℤ → ℤ → ℤ
pos a +ℤ pos b = pos (a + b)
pos a +ℤ negsuc b = diff_ℤ a (b + 1)
negsuc a +ℤ pos b = diff_ℤ b (a + 1)
negsuc a +ℤ negsuc b = negsuc (a + b + 1)

-- The test `a < n` with a number.
abbrev pub below_ℤ : ℤ → ℕ → Bool
below_ℤ (pos a) n = ltb a n
below_ℤ (negsuc a) n = true
