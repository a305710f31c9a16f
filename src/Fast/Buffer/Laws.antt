-- ===== src/Fast/Buffer/Laws.antt =====
-- What the writes leave in the buffer, and what the reads find there.
use go_mini_opera.Prelude.{
  ℕ, ◌+◌, ◌<◌, ◌≡◌, refl, sym, ap, arith, none, some, List, [], ◌∷◌, ◌++◌, length, take, drop, set,
  min, length-append, take-append, drop-append, append-nil, append_assoc,
}
use go_mini_opera.Fast.Buffer.{Buffer, write_byte, copy, write, read}

-- The buffer after `w` is written, with `rest` behind the cursor.
abbrev pub written : List ℕ → List ℕ → List ℕ → Buffer
written w rest spare = record { buf = w ++ rest; spare = spare; offset = length w }

set-append : (w rest : List ℕ) (x v : ℕ) → set (w ++ (x ∷ rest)) (length w) v ≡ w ++ (v ∷ rest)
set-append [] rest x v = refl
set-append (y ∷ w) rest x v = ap (◌∷◌ y) (set-append w rest x v)

pub write_byte_lem :
    (w rest spare : List ℕ) (x v : ℕ)
    → write_byte (written w (x ∷ rest) spare) v ≡ some (written (w ++ (v ∷ [])) rest spare)
unfolding write_byte
write_byte_lem w rest spare x v = ground (
  arith,
  set-append w rest x v,
  length-append w (x ∷ rest),
  length-append w (v ∷ []),
  append_assoc w (v ∷ []) rest,
)

take_all : (v : List ℕ) → take (length v) v ≡ v
take_all [] = refl
take_all (x ∷ v) = ap (◌∷◌ x) (take_all v)

pub take_exact : (n : ℕ) (xs ys : List ℕ) → n ≡ length xs → take n (xs ++ ys) ≡ xs
take_exact n xs ys e = rw e (take-append xs ys)

pub drop_exact : (n : ℕ) (xs ys : List ℕ) → n ≡ length xs → drop n (xs ++ ys) ≡ ys
drop_exact n xs ys e = rw e (drop-append xs ys)

copy_fits :
    (old rest v : List ℕ) → length old ≡ length v → copy (old ++ rest) v ≡ (v ++ rest, length v)
unfolding copy
copy_fits old rest v e =
    let m : min (length (old ++ rest)) (length v) ≡ length v =
      omega (arith, length-append old rest) in
    rw (m, take_all, drop_exact (length v) old rest (sym e))

-- A copy over a slice of the same length.
pub copy_full : (old v : List ℕ) → length old ≡ length v → (copy old v).0 ≡ v
copy_full old v e =
    let whole : copy (old ++ []) v ≡ (v ++ [], length v) = copy_fits old [] v e in
    let whole' : copy old v ≡ (v, length v) = rw (append-nil, append-nil) at whole in
    ap (λ (r : List ℕ × ℕ). r.0) whole'

copy_short : (dst v : List ℕ) → length dst < length v → (copy dst v).1 < length v
unfolding copy
copy_short dst v h = omega arith

-- With room for `v`, a write replaces as many bytes as `v` has and moves the cursor past them.
pub write_lem :
    (w v old rest spare : List ℕ)
    → length old ≡ length v
    → write (written w (old ++ rest) spare) v ≡ some (written (w ++ v) rest spare)
unfolding write
write_lem w v old rest spare e =
    rw (drop-append w (old ++ rest), take-append w (old ++ rest), copy_fits old rest v e)
      (ground (arith, length-append w (old ++ rest), length-append w v, append_assoc w v rest))

-- Without room it panics.
pub write_overflow :
    (w v rest spare : List ℕ) → length rest < length v → write (written w rest spare) v ≡ none
unfolding write
write_overflow w v rest spare h =
    rw (drop-append w rest) (ground (arith, length-append w rest, copy_short rest v h))

-- A read returns the next bytes.
pub read_lem :
    (w v rest spare : List ℕ)
    → read (written w (v ++ rest) spare) (length v)
      ≡ some (v, record { buf = w ++ (v ++ rest); spare = spare; offset = length w + length v })
unfolding read
read_lem w v rest spare =
    rw
      (
        append_assoc w (v ++ rest) spare,
        drop-append w ((v ++ rest) ++ spare),
        append_assoc v rest spare,
        take-append v (rest ++ spare),
      )
      (ground (arith, length-append w (v ++ rest), length-append v rest))
