-- ===== src/Fast/BitArray/Masks.antt =====
-- The masks and shifts of one byte as arithmetic: tables over all bytes.
use go_mini_opera.Prelude.{
  ℕ, ◌+◌, ◌-◌, ◌*◌, ◌%◌, ◌^◌, ◌<◌, ◌≡◌, refl, bit_and, bit_or, ◌⊎◌, inl, inr, ◌==◌, ==_iff, true,
}
use go_mini_opera.Prelude.Tables.{holds_below, holds_below_sound}

-- The widths that the array accepts.
abbrev pub IsWidth : ℕ → Type 0
IsWidth bits = (bits ≡ 1) ⊎ (bits ≡ 2) ⊎ (bits ≡ 4)

-- Setting bits above `p` adds, where those bits were clear.
or_table :
    holds_below 8 (λ p.
      holds_below
        (2 ^ p)
        (λ b. holds_below (2 ^ (8 - p)) (λ v. bit_or b (v * 2 ^ p) == b + v * 2 ^ p)))
    ≡ true
unfolding holds_below
or_table = refl

pub bit_or_shift :
    (p b v : ℕ) → p < 8 → b < 2 ^ p → v < 2 ^ (8 - p) → bit_or b (v * 2 ^ p) ≡ b + v * 2 ^ p
bit_or_shift p b v hp hb hv = (==_iff _ _).0 (
    holds_below_sound (2 ^ (8 - p)) _ v
      (holds_below_sound (2 ^ p) _ b (holds_below_sound 8 _ p or_table hp) hb) hv)

mask_table :
    (holds_below 256 (λ x. bit_and x 1 == x % 2) ≡ true)
    × (holds_below 256 (λ x. bit_and x 3 == x % 4) ≡ true)
    × (holds_below 256 (λ x. bit_and x 15 == x % 16) ≡ true)
unfolding holds_below
mask_table = (refl, refl, refl)

-- The mask of `bits` ones keeps the lowest digit.
pub mask_digit :
    (bits x : ℕ) → IsWidth bits → x < 256 → bit_and x ((2 ^ bits - 1) % 256) ≡ x % 2 ^ bits
mask_digit bits x (inl e) h = rw e ((==_iff _ _).0 (holds_below_sound 256 _ x mask_table.0 h))
mask_digit bits x (inr (inl e)) h = rw e ((==_iff _ _).0 (holds_below_sound 256 _ x mask_table.1 h))
mask_digit bits x (inr (inr e)) h = rw e ((==_iff _ _).0 (holds_below_sound 256 _ x mask_table.2 h))
