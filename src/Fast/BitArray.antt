-- ===== src/Fast/BitArray.antt =====
-- utils/fast/bits.go. A Go panic is `none`; a uint is a number below 2 ^ 64, whose sums and
-- products wrap. `raw` is the slice that the writer fills in place, or that the reader walks.
pub mod Masks
pub mod Digits
pub mod RoundTrip
use go_mini_opera.Prelude.{
  ℕ, ◌+◌, ◌-◌, ◌*◌, ◌/◌, ◌%◌, ◌^◌, bit_and, bit_or, Option, none, some, List, ◌||◌, ltb, leb, ◌==◌,
  if◌then◌else◌, length, get_elem?, set, ◌>>=◌,
}
use go_mini_opera.Prelude.Int.{ℤ, pos, negsuc}

pub record BitArray : Type 0 where
  pub bits : ℕ
  pub count : ℕ
  pub offset : ℕ
  pub size : ℕ

pub record BitArrayWriter : Type 0 where
  pub array : BitArray
  pub raw : List ℕ

pub record BitArrayReader : Type 0 where
  pub array : BitArray
  pub raw : List ℕ

unfoldable pub calc_size : ℕ → ℕ → ℕ
calc_size bits count =
    let total = bits * count % 2 ^ 64 in let s = total / 8 in if ltb 0 (total % 8) then s + 1 else s

unfoldable pub new_bit_array : ℕ → ℕ → Option BitArray
new_bit_array bits count =
    if bits == 1 || (bits == 2 || bits == 4)
    then some (record { bits = bits; count = count; offset = 0; size = calc_size bits count })
    else none

unfoldable pub writer : BitArray → List ℕ → Option BitArrayWriter
writer a w = if length w == a.size then some (record { array = a; raw = w }) else none

unfoldable pub reader : BitArray → List ℕ → Option BitArrayReader
reader a r = if length r == a.size then some (record { array = a; raw = r }) else none

-- The byte and the bit in it where the next number goes, and the array past that number.
unfoldable pub next_part : BitArray → ℕ × ℕ × BitArray
next_part a =
    let bits_offset = a.offset * a.bits % 2 ^ 64 in
    (bits_offset / 8, bits_offset % 8, record a { offset = (a.offset + 1) % 2 ^ 64 })

unfoldable pub push : BitArrayWriter → ℤ → Option BitArrayWriter
push w (negsuc n) = none
push w (pos v) = if leb (2 ^ w.array.bits) v then none else (do
  let part = next_part w.array
  old ← get_elem? w.raw part.0
  some (record { array = part.2; raw = set w.raw part.0 (bit_or old (v * 2 ^ part.1 % 256)) }))

unfoldable pub pop : BitArrayReader → Option (ℕ × BitArrayReader)
pop r = do
  let part = next_part r.array
  let mask = (2 ^ r.array.bits - 1) % 256
  byte ← get_elem? r.raw part.0
  some (bit_and (byte / 2 ^ part.1) mask, record { array = part.2; raw = r.raw })
