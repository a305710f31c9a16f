-- ===== src/Fast/BitArray/Digits.antt =====
-- One push and one pop: the array as a sequence of digits of `bits` bits, lowest first in each byte.
use go_mini_opera.Prelude.{
  ℕ, suc, ◌+◌, ◌-◌, ◌*◌, ◌/◌, ◌%◌, ◌^◌, ◌<◌, ◌≤◌, ◌≡◌, ◌≢◌, ◌∙◌, ◌⊎◌, inl, inr, arith, bit_or, List,
  length, get_or, set, get_or-set_self, get_or-set_ne,
}
use go_mini_opera.Prelude.Powers.{two-pow_pos, add-shift-lt, digit_above, digit_below}
use go_mini_opera.Fast.BitArray.Masks.{IsWidth, bit_or_shift}
use native.Mathlib.Decide.{ℕ_discrete}
use native.Mathlib.Nat.{mod-eq_of_lt, pow-le-pow_right}

abbrev pub IsByte : ℕ → Type 0
IsByte b = b < 256

-- The byte, and the bit in it, where digit `j` starts.
abbrev pub at_byte : ℕ → ℕ → ℕ
at_byte bits j = j * bits / 8

abbrev pub at_bit : ℕ → ℕ → ℕ
at_bit bits j = j * bits % 8

abbrev pub digit : ℕ → List ℕ → ℕ → ℕ
digit bits raw j = get_or raw (at_byte bits j) 0 / 2 ^ at_bit bits j % 2 ^ bits

-- A digit does not cross a byte.
pub at_bit_room : (bits j : ℕ) → IsWidth bits → at_bit bits j + bits ≤ 8
at_bit_room bits j (inl e) = rw e (omega arith)
at_bit_room bits j (inr (inl e)) = rw e (omega arith)
at_bit_room bits j (inr (inr e)) = rw e (omega arith)

-- The next digit starts `bits` bits on, or at the next byte.
pub at_next :
    (bits j : ℕ)
    → IsWidth bits
    → ((at_bit bits j + bits < 8)
        × (at_byte bits (suc j) ≡ at_byte bits j)
        × (at_bit bits (suc j) ≡ at_bit bits j + bits))
      ⊎ ((at_bit bits j + bits ≡ 8)
          × (at_byte bits (suc j) ≡ at_byte bits j + 1)
          × (at_bit bits (suc j) ≡ 0))
at_next bits j (inl e) = rw e (ground arith)
at_next bits j (inr (inl e)) = rw e (ground arith)
at_next bits j (inr (inr e)) = rw e (ground arith)

-- An earlier digit stands in an earlier byte, or lower in the same one.
pub at_before :
    (bits j i : ℕ)
    → IsWidth bits
    → j < i
    → (at_byte bits j < at_byte bits i)
      ⊎ ((at_byte bits j ≡ at_byte bits i) × (at_bit bits j + bits ≤ at_bit bits i))
at_before bits j i (inl e) h = rw e (ground arith)
at_before bits j i (inr (inl e)) h = rw e (ground arith)
at_before bits j i (inr (inr e)) h = rw e (ground arith)

-- `i` digits are written: the bits from there on are clear.
pub record Blank (bits i : ℕ) (raw : List ℕ) : Type 0 where
  pub low : get_or raw (at_byte bits i) 0 < 2 ^ at_bit bits i
  pub clear : (k : ℕ) → at_byte bits i < k → get_or raw k 0 ≡ 0

-- The slice after digit `i` is set to `v`.
abbrev pub put_digit : ℕ → List ℕ → ℕ → ℕ → List ℕ
put_digit bits raw i v =
    set raw (at_byte bits i) (get_or raw (at_byte bits i) 0 + v * 2 ^ at_bit bits i)

module _ (bits i v : ℕ) (raw : List ℕ) (width : IsWidth bits) (small : v < 2 ^ bits)
    (room : at_byte bits i < length raw) (blank : Blank bits i raw) where
  v_room : v < 2 ^ (8 - at_bit bits i)
  v_room = omega (
    arith,
    pow-le-pow_right {n = 2} (omega arith) {i = bits} {j = 8 - at_bit bits i}
        (omega (arith, at_bit_room bits i width)),
  )

  shifted_small : v * 2 ^ at_bit bits i < 256
  shifted_small =
      let e : at_bit bits i + (8 - at_bit bits i) ≡ 8 = omega arith in
      let bound : 0 + v * 2 ^ at_bit bits i < 2 ^ (at_bit bits i + (8 - at_bit bits i)) =
        add-shift-lt (at_bit bits i) (8 - at_bit bits i) 0 v (two-pow_pos (at_bit bits i)) v_room in
      omega (arith, rw e at bound)

  -- In a byte that has room, the shifted number passes the conversion to a byte, and `|` adds.
  pub push_byte :
      bit_or (get_or raw (at_byte bits i) 0) (v * 2 ^ at_bit bits i % 256)
      ≡ get_or raw (at_byte bits i) 0 + v * 2 ^ at_bit bits i
  push_byte =
      rw (mod-eq_of_lt shifted_small)
        (bit_or_shift (at_bit bits i) _ v (omega arith) blank.low v_room)

  self :
      get_or (put_digit bits raw i v) (at_byte bits i) 0
      ≡ get_or raw (at_byte bits i) 0 + v * 2 ^ at_bit bits i
  self = get_or-set_self raw (at_byte bits i) _ 0 room

  other : (k : ℕ) → at_byte bits i ≢ k → get_or (put_digit bits raw i v) k 0 ≡ get_or raw k 0
  other k h = get_or-set_ne raw (at_byte bits i) k _ 0 h

  pub put_digit-Blank : Blank bits (suc i) (put_digit bits raw i v)
  put_digit-Blank = elim (at_next bits i width) [
    | inl (inside, same, up) ↦ record {
      low = rw (same, up, self) (add-shift-lt (at_bit bits i) bits _ v blank.low small);
      clear = λ k h. other k (omega arith) ∙ blank.clear k (omega arith);
    }
    | inr (full, next, start) ↦ record {
      low =
          rw (next, start)
            (omega (
              arith,
              other (at_byte bits i + 1) (omega arith),
              blank.clear (at_byte bits i + 1) (omega arith),
            ));
      clear = λ k h. other k (omega arith) ∙ blank.clear k (omega arith);
    }
  ]

  pub digit-put_digit_self : digit bits (put_digit bits raw i v) i ≡ v
  digit-put_digit_self = rw self (digit_above (at_bit bits i) bits _ v blank.low small)

  pub digit-put_digit_before :
      (j : ℕ) → j < i → digit bits (put_digit bits raw i v) j ≡ digit bits raw j
  digit-put_digit_before j h = elim (at_before bits j i width h) [
    | inl before ↦ rw (other (at_byte bits j) (omega arith))
    | inr (same, lower) ↦
        rw (same, self) (digit_below (at_bit bits i) (at_bit bits j) bits _ v lower)
  ]

  -- Every element stays a byte.
  pub put_digit_bytes :
      ((k : ℕ) → get_or raw k 0 < 256) → (k : ℕ) → get_or (put_digit bits raw i v) k 0 < 256
  put_digit_bytes bytes k = elim (ℕ_discrete (at_byte bits i) k) [
    | yes e ↦ rw (← e, self) (omega (arith, shifted_sum))
    | no ne ↦ rw (other k ne) (bytes k)
  ]
    where
      shifted_sum : get_or raw (at_byte bits i) 0 + v * 2 ^ at_bit bits i < 256
      shifted_sum = omega (
        arith,
        add-shift-lt (at_bit bits i) bits _ v blank.low small,
        pow-le-pow_right {n = 2} (omega arith) {i = at_bit bits i + bits} {j = 8}
            (at_bit_room bits i width),
      )
