-- ===== src/Prelude/Powers.antt =====
-- Powers of two, and the digits of a number in base 2 ^ w.
use Prim.Native.Nat.{ℕ, zero, suc, ◌+◌, ◌-◌, ◌*◌, ◌/◌, ◌%◌, ◌^◌, ◌<◌, ◌≤◌}
use mathlib.Core.Path.{◌≡◌, ap}
use native.Mathlib.Omega.{arith}
use native.Mathlib.Nat.{
  pow-suc, add-mul-div_left, add-mul-div_right, add-mul-mod_self_left, div-eq_of_lt, mod-eq_of_lt,
}
use Prim.Native.Nat.add

pub two-pow-suc : (n : ℕ) → 2 ^ suc n ≡ 2 * 2 ^ n
two-pow-suc n = omega (arith, pow-suc 2 n)

pub two-pow-add : (m n : ℕ) → 2 ^ (m + n) ≡ 2 ^ m * 2 ^ n
two-pow-add zero n = rw add.zero (omega arith)
two-pow-add (suc m) n =
    rw add.suc (
      omega
        (arith, two-pow-suc (m + n), ap (λ (t : ℕ). t * 2 ^ n) (two-pow-suc m), two-pow-add m n))

pub two-pow_pos : (n : ℕ) → 0 < 2 ^ n
two-pow_pos zero = omega arith
two-pow_pos (suc n) = omega (arith, two-pow-suc n, two-pow_pos n)

-- `w` bits added above `p` bits make `p + w` bits.
pub add-shift-lt : (p w b v : ℕ) → b < 2 ^ p → v < 2 ^ w → b + v * 2 ^ p < 2 ^ (p + w)
add-shift-lt p w b v hb hv = rw two-pow-add (grind arith)

-- The digit just above the `p` bits of `b`.
pub digit_above : (p w b v : ℕ) → b < 2 ^ p → v < 2 ^ w → (b + v * 2 ^ p) / 2 ^ p % 2 ^ w ≡ v
digit_above p w b v hb hv =
    rw (add-mul-div_right b v (two-pow_pos p), div-eq_of_lt hb) (rw add.zero (mod-eq_of_lt hv))

digit_below_add : (q w d b v : ℕ) → (b + v * 2 ^ (q + (w + d))) / 2 ^ q % 2 ^ w ≡ b / 2 ^ q % 2 ^ w
digit_below_add q w d b v =
    rw (regroup, add-mul-div_left b (2 ^ w * (2 ^ d * v)) (two-pow_pos q))
      (add-mul-mod_self_left (b / 2 ^ q) (2 ^ w) (2 ^ d * v))
  where
    regroup : b + v * 2 ^ (q + (w + d)) ≡ b + 2 ^ q * (2 ^ w * (2 ^ d * v))
    regroup = rw (two-pow-add q (w + d), two-pow-add w d) (omega arith)

-- A digit below bit `p` does not see what stands from bit `p` on.
pub digit_below : (p q w b v : ℕ) → q + w ≤ p → (b + v * 2 ^ p) / 2 ^ q % 2 ^ w ≡ b / 2 ^ q % 2 ^ w
digit_below p q w b v h =
    let e : q + (w + (p - (q + w))) ≡ p = omega arith in
    rw e at (digit_below_add q w (p - (q + w)) b v)
