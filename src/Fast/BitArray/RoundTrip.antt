-- ===== src/Fast/BitArray/RoundTrip.antt =====
-- What is pushed is popped again, in order.
use go_mini_opera.Prelude.{
  ℕ, zero, suc, ◌+◌, ◌*◌, ◌/◌, ◌^◌, ◌<◌, ◌≤◌, ◌≡◌, refl, ◌∙◌, inl, inr, arith, Option, some, List,
  [], ◌∷◌, length, get_elem?, get_or, replicate, All, ◌>>=◌, get_elem?-get_or, get_or-replicate,
  length-set, length-replicate,
}
use go_mini_opera.Prelude.Int.{pos}
use go_mini_opera.Fast.BitArray.{
  BitArray, BitArrayWriter, BitArrayReader, calc_size, new_bit_array, writer, reader, next_part,
  push, pop,
}
use go_mini_opera.Fast.BitArray.Masks.{IsWidth, mask_digit}
use go_mini_opera.Fast.BitArray.Digits.{
  at_byte, at_bit, digit, Blank, put_digit, push_byte, put_digit-Blank, digit-put_digit_self,
  digit-put_digit_before, put_digit_bytes,
}
use go_mini_opera.Prelude.Powers.{two-pow_pos}
use native.Mathlib.Nat.{mod-eq_of_lt, div-le_self, mul-le-mul_right, add-zero}

abbrev pub at_offset : ℕ → ℕ → ℕ → BitArray
at_offset bits count i = record {
  bits = bits;
  count = count;
  offset = i;
  size = calc_size bits count;
}

-- Byte `i * bits / 8` lies in the slice, for a number in range.
pub at_byte-lt-calc_size :
    (bits count i : ℕ)
    → IsWidth bits
    → count * bits < 2 ^ 64
    → i < count
    → at_byte bits i < calc_size bits count
unfolding calc_size
at_byte-lt-calc_size bits count i (inl e) fits h = rw e (ground arith)
at_byte-lt-calc_size bits count i (inr (inl e)) fits h = rw e (ground arith)
at_byte-lt-calc_size bits count i (inr (inr e)) fits h = rw e (ground arith)

module _ (bits count i : ℕ) (raw : List ℕ) (width : IsWidth bits) (fits : i * bits < 2 ^ 64)
    (below : i + 1 < 2 ^ 64) (room : at_byte bits i < length raw) where
  part :
      next_part (at_offset bits count i)
      ≡ (at_byte bits i, at_bit bits i, at_offset bits count (suc i))
  unfolding next_part
  part = rw (mod-eq_of_lt fits, mod-eq_of_lt below) (ground arith)

  read : get_elem? raw (at_byte bits i) ≡ some (get_or raw (at_byte bits i) 0)
  read = get_elem?-get_or raw (at_byte bits i) 0 room

  -- A push into the clear bits of the next digit sets that digit.
  pub push_digit :
      (v : ℕ)
      → v < 2 ^ bits
      → Blank bits i raw
      → push (record { array = at_offset bits count i; raw = raw }) (pos v)
        ≡ some (record { array = at_offset bits count (suc i); raw = put_digit bits raw i v })
  unfolding push
  push_digit v small blank =
      rw (part, read, push_byte bits i v raw width small room blank) (ground arith)

  -- A pop reads the next digit.
  pub pop-digit :
      get_or raw (at_byte bits i) 0 < 256
      → pop (record { array = at_offset bits count i; raw = raw })
        ≡ some (digit bits raw i, record { array = at_offset bits count (suc i); raw = raw })
  unfolding pop
  pop-digit byte =
      rw (part, read)
        (rw (
          mask_digit bits (get_or raw (at_byte bits i) 0 / 2 ^ at_bit bits i) width
            (omega (arith, div-le_self (get_or raw (at_byte bits i) 0) (2 ^ at_bit bits i)))))

unfoldable pub push_each : BitArrayWriter → List ℕ → Option BitArrayWriter
push_each w [] = some w
push_each w (v ∷ vs) = do w' ← push w (pos v); push_each w' vs

unfoldable pub pop_each : ℕ → BitArrayReader → Option (List ℕ × BitArrayReader)
pop_each zero r = some ([], r)
pop_each (suc n) r = do (v, r') ← pop r; (vs, r'') ← pop_each n r'; some (v ∷ vs, r'')

-- The digits from `i` on are `vs`.
abbrev pub Holds : ℕ → List ℕ → ℕ → List ℕ → Type 0
Holds bits raw i [] = Unit {0}
Holds bits raw i (v ∷ vs) = (digit bits raw i ≡ v) × Holds bits raw (suc i) vs

-- What pushing `vs` from digit `i` on makes of the slice `raw`.
pub record Pushed (bits i : ℕ) (vs raw raw' : List ℕ) : Type 0 where
  pub kept : (j : ℕ) → j < i → digit bits raw' j ≡ digit bits raw j
  pub holds : Holds bits raw' i vs
  pub bytes : (k : ℕ) → get_or raw' k 0 < 256
  pub same : length raw' ≡ length raw

abbrev pub IsDigit : ℕ → ℕ → Type 0
IsDigit bits v = v < 2 ^ bits

module _ (bits count : ℕ) (width : IsWidth bits) (fits : count * bits < 2 ^ 64)
    (below : count < 2 ^ 64) where
  shift : (i n : ℕ) → i + suc n ≡ suc i + n
  shift i n = omega arith

  fits_at : (i : ℕ) → i < count → i * bits < 2 ^ 64
  fits_at i h = omega (arith, mul-le-mul_right {m = i} {n = count} bits (omega arith))

  room_at :
      (raw : List ℕ)
      → length raw ≡ calc_size bits count
      → (i : ℕ) → i < count
      → at_byte bits i < length raw
  room_at raw e i h = rw e (at_byte-lt-calc_size bits count i width fits h)

  pub push_each-Pushed :
      (i : ℕ) (vs raw : List ℕ)
      → i + length vs ≤ count
      → length raw ≡ calc_size bits count
      → All (IsDigit bits) vs
      → Blank bits i raw
      → ((k : ℕ) → get_or raw k 0 < 256)
      → (raw' : List ℕ) × (push_each (record { array = at_offset bits count i; raw = raw }) vs
          ≡ some (record { array = at_offset bits count (i + length vs); raw = raw' }))
        × Pushed bits i vs raw raw'
  unfolding push_each
  push_each-Pushed i [] raw le size small blank bytes =
      (raw, rw add-zero, record { kept = λ j h. refl; holds = tt; bytes = bytes; same = refl })
  push_each-Pushed i (v ∷ vs) raw le size (hv, small) blank bytes =
      let room = room_at raw size i (omega arith) in
      let raw₁ = put_digit bits raw i v in
      let (raw', run, rest) =
        push_each-Pushed (suc i) vs raw₁ (omega arith) (length-set raw _ _ ∙ size) small
          (put_digit-Blank bits i v raw width hv room blank)
          (put_digit_bytes bits i v raw width hv room blank bytes) in
      (
        raw',
        rw
            (
              push_digit bits count i raw width (fits_at i (omega arith)) (omega arith) room v hv
                  blank,
              shift i (length vs),
            )
            run,
        record {
          kept = λ j h.
              rest.kept j (omega arith)
              ∙ digit-put_digit_before bits i v raw width hv room blank j h;
          holds = (
            rest.kept i (omega arith) ∙ digit-put_digit_self bits i v raw width hv room blank,
            rest.holds,
          );
          bytes = rest.bytes;
          same = rest.same ∙ length-set raw _ _;
        },
      )

  pub pop_each-Holds :
      (i : ℕ) (vs raw : List ℕ)
      → i + length vs ≤ count
      → length raw ≡ calc_size bits count
      → ((k : ℕ) → get_or raw k 0 < 256)
      → Holds bits raw i vs
      → pop_each (length vs) (record { array = at_offset bits count i; raw = raw })
        ≡ some (vs, record { array = at_offset bits count (i + length vs); raw = raw })
  unfolding pop_each
  pop_each-Holds i [] raw le size bytes holds = rw add-zero
  pop_each-Holds i (v ∷ vs) raw le size bytes (e, holds) =
      let room = room_at raw size i (omega arith) in
      rw (
        pop-digit bits count i raw width (fits_at i (omega arith)) (omega arith) room (bytes _),
        pop_each-Holds (suc i) vs raw (omega arith) size bytes holds,
        e,
        shift i (length vs),
      )

pub Blank-zeros : (bits n : ℕ) → Blank bits 0 (replicate n 0)
Blank-zeros bits n = record {
  low = rw get_or-replicate (two-pow_pos (at_bit bits 0));
  clear = λ k h. get_or-replicate n k 0;
}

pub zeros_bytes : (n k : ℕ) → get_or (replicate n 0) k 0 < 256
zeros_bytes n k = rw get_or-replicate (omega arith)

pub new_bit_array_lem :
    (bits count : ℕ) → IsWidth bits → new_bit_array bits count ≡ some (at_offset bits count 0)
unfolding new_bit_array
new_bit_array_lem bits count (inl e) = rw e
new_bit_array_lem bits count (inr (inl e)) = rw e
new_bit_array_lem bits count (inr (inr e)) = rw e

pub writer_lem :
    (bits count : ℕ) (raw : List ℕ)
    → length raw ≡ calc_size bits count
    → writer (at_offset bits count 0) raw
      ≡ some (record { array = at_offset bits count 0; raw = raw })
unfolding writer
writer_lem bits count raw e = ground arith

pub reader_lem :
    (bits count : ℕ) (raw : List ℕ)
    → length raw ≡ calc_size bits count
    → reader (at_offset bits count 0) raw
      ≡ some (record { array = at_offset bits count 0; raw = raw })
unfolding reader
reader_lem bits count raw e = ground arith

-- An array of zeros filled with `vs` and read from the start.
unfoldable pub write_then_read : ℕ → List ℕ → Option (List ℕ)
write_then_read bits vs = do
  a ← new_bit_array bits (length vs)
  w ← writer a (replicate a.size 0)
  w' ← push_each w vs
  r ← reader a w'.raw
  out ← pop_each (length vs) r
  some out.0

-- Numbers of 1, 2 or 4 bits pushed into a zeroed array of exactly their count, as long as that many
-- bits are counted by a uint, are popped again, all of them and in order, with no panic.
pub pop_each-push_each :
    (bits : ℕ) (vs : List ℕ)
    → IsWidth bits
    → length vs * bits < 2 ^ 64
    → length vs < 2 ^ 64
    → All (IsDigit bits) vs
    → write_then_read bits vs ≡ some vs
unfolding write_then_read
pop_each-push_each bits vs width fits below small =
    let n = length vs in
    let size : length (replicate {A = ℕ} (calc_size bits n) 0) ≡ calc_size bits n =
      length-replicate (calc_size bits n) 0 in
    let (raw, pushed, after) =
      push_each-Pushed bits n width fits below 0 vs (replicate (calc_size bits n) 0) (omega arith)
        size small (Blank-zeros bits _) (zeros_bytes _) in
    rw (
      new_bit_array_lem bits n width,
      writer_lem bits n _ size,
      pushed,
      reader_lem bits n raw (after.same ∙ size),
      pop_each-Holds bits n width fits below 0 vs raw (omega arith) (after.same ∙ size) after.bytes
          after.holds,
    )
