-- ===== src/Fast/Buffer.antt =====
-- utils/fast/buffer.go. `buf` is the slice up to its length, `spare` what its array holds behind it,
-- up to the capacity: a Go slice expression may reach into that. A panic is `none`.
pub mod Laws
use go_mini_opera.Prelude.{
  ℕ, ◌+◌, ◌-◌, Option, none, some, List, [], ◌∷◌, ◌++◌, leb, ltb, ◌==◌, if◌then◌else◌, length, take,
  drop, set, min,
}

pub record Buffer : Type 0 where
  pub buf : List ℕ
  pub spare : List ℕ
  pub offset : ℕ

unfoldable pub new_buffer : List ℕ → List ℕ → Buffer
new_buffer bb spare = record { buf = bb; spare = spare; offset = 0 }

unfoldable pub write_byte : Buffer → ℕ → Option Buffer
write_byte b v =
    if ltb b.offset (length b.buf)
    then some (record b { buf = set b.buf b.offset v; offset = b.offset + 1 })
    else none

-- Go's `copy(dst, src)`: what becomes of `dst`, and how many elements were copied.
unfoldable pub copy : List ℕ → List ℕ → List ℕ × ℕ
copy dst src = let n = min (length dst) (length src) in (take n src ++ drop n dst, n)

unfoldable pub write : Buffer → List ℕ → Option Buffer
write b v =
    if ltb (length b.buf) b.offset
    then none
    else let (tail, n) = copy (drop b.offset b.buf) v in
      (if n == length v
        then some (record b { buf = take b.offset b.buf ++ tail; offset = b.offset + n })
        else none)

-- `buf[offset : offset+n]` is bounded by the capacity, not by the length.
unfoldable pub read : Buffer → ℕ → Option (List ℕ × Buffer)
read b n =
    if leb (b.offset + n) (length b.buf + length b.spare)
    then some (take n (drop b.offset (b.buf ++ b.spare)), record b { offset = b.offset + n })
    else none

unfoldable pub position : Buffer → ℕ
position b = b.offset
