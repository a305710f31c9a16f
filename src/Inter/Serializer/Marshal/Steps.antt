-- ===== src/Inter/Serializer/Marshal/Steps.antt =====
-- What each loop of MarshalBinary adds to the buffer and pushes into its header.
use go_mini_opera.Prelude.{
  ℕ, zero, suc, ◌+◌, ◌-◌, ◌<◌, ◌≤◌, ◌≡◌, refl, ap, ◌∙◌, arith, some, List, [], ◌∷◌, ◌++◌, Bool,
  length, take, drop, ◌>>=◌, >>=_congr, >>=_assoc, >>=-eq-some, length-append, length-take,
  length-drop, take-append-drop, append-nil, append_assoc,
}
use go_mini_opera.Prelude.Int.{pos, pred_ℤ}
use go_mini_opera.Fast.BitArray.{BitArrayWriter, push}
use go_mini_opera.Fast.BitArray.RoundTrip.{push_each}
use go_mini_opera.Fast.Buffer.{Buffer, write}
use go_mini_opera.Fast.Buffer.Laws.{written, write_lem}
use go_mini_opera.Inter.Serializer.Compact.Laws.{
  compact, length-compact_pos, write_uint_compact-compact,
}
use go_mini_opera.Inter.Serializer.Marshal.{write_fields, push_flags, write_parents}
use go_mini_opera.Inter.Serializer.Marshal.Layout.{compacts, sizes, flags, tails}
use native.Mathlib.Numerals.{unary_clauses}
use native.Mathlib.Nat.{add-zero}
use Prim.Native.Nat.add

-- The buffer `written w rest spare` after `c` more bytes.
abbrev pub after : List ℕ → List ℕ → List ℕ → List ℕ → Buffer
after w c rest spare = written (w ++ c) (drop (length c) rest) spare

drop-drop : (m n : ℕ) (xs : List ℕ) → drop m (drop n xs) ≡ drop (n + m) xs
drop-drop m zero xs = ap (λ (k : ℕ). drop k xs) (omega arith)
drop-drop zero (suc n) [] = rw add-zero
drop-drop (suc m) (suc n) [] = simp unary_clauses
drop-drop m (suc n) (x ∷ xs) = rw add.suc (drop-drop m n xs)

pub after-after :
    (w c d rest spare : List ℕ)
    → after (w ++ c) d (drop (length c) rest) spare ≡ after w (c ++ d) rest spare
after-after w c d rest spare = ground (
  arith,
  drop-drop (length d) (length c) rest,
  length-append c d,
  length-append (w ++ c) d,
  length-append w (c ++ d),
  append_assoc w c d,
)

pub write-after :
    (w v rest spare : List ℕ)
    → length v ≤ length rest
    → write (written w rest spare) v ≡ some (after w v rest spare)
write-after w v rest spare h =
    rw (take-append-drop (length v) rest) at
      (write_lem w v (take (length v) rest) (drop (length v) rest) spare (length-take _ rest h))

pred_pos : (n : ℕ) → 0 < n → pred_ℤ n ≡ pos (n - 1)
pred_pos zero h = absurd (omega arith)
pred_pos (suc n) h = ap pos (omega arith)

pub write_fields_lem :
    (size : ℕ) (vs w rest spare : List ℕ) (header : BitArrayWriter)
    → 0 < size
    → length (compacts size vs) ≤ length rest
    → write_fields size vs (written w rest spare) header
      ≡ (push_each header (sizes size vs) >>= λ h. some (after w (compacts size vs) rest spare, h))
unfolding write_fields push_each sizes compacts
write_fields_lem size [] w rest spare header pos' fits = rw append-nil
write_fields_lem size (v ∷ vs) w rest spare header pos' fits =
    let c : List ℕ = compact size v in
    let room : length c + length (compacts size vs) ≤ length rest =
      omega (arith, length-append c (compacts size vs)) in
    rw
      (
        write_uint_compact-compact size v w rest spare (omega arith),
        pred_pos (length c) (length-compact_pos size v pos'),
        >>=_assoc,
      )
      (>>=_congr (push header (pos (length c - 1))) _ _ λ h.
        write_fields_lem size vs (w ++ c) (drop (length c) rest) spare h pos'
          (omega (arith, length-drop (length c) rest))
        ∙ rw after-after)

pub push_flags_lem :
    (fs : List Bool) (header : BitArrayWriter) → push_flags fs header ≡ push_each header (flags fs)
unfolding push_flags push_each flags
push_flags_lem [] header = refl
push_flags_lem (f ∷ fs) header = >>=_congr (push header _) _ _ (push_flags_lem fs)

pub write_parents_lem :
    (ps : List (List ℕ)) (w rest spare : List ℕ)
    → length (tails ps) ≤ length rest
    → write_parents ps (written w rest spare) ≡ some (after w (tails ps) rest spare)
unfolding write_parents tails
write_parents_lem [] w rest spare fits = rw append-nil
write_parents_lem (p ∷ ps) w rest spare fits =
    let d : List ℕ = drop 4 p in
    let room : length d + length (tails ps) ≤ length rest =
      omega (arith, length-append d (tails ps)) in
    rw (write-after w d rest spare (omega arith)) (
      write_parents_lem ps (w ++ d) (drop (length d) rest) spare
        (omega (arith, length-drop (length d) rest))
      ∙ ap some (after-after w d (tails ps) rest spare))

-- A run of pushes splits where its list does.
pub push_each-append :
    (header : BitArrayWriter) (xs ys : List ℕ) {header'' : BitArrayWriter}
    → push_each header (xs ++ ys) ≡ some header''
    → (header' : BitArrayWriter) × (push_each header xs ≡ some header')
      × (push_each header' ys ≡ some header'')
unfolding push_each
push_each-append header [] ys e = (header, refl, e)
push_each-append header (x ∷ xs) ys e =
    let (next, first, others) = >>=-eq-some (push header (pos x)) _ e in
    let (header', run, last) = push_each-append next xs ys others in (header', rw first run, last)

pub push_each-cons :
    (header : BitArrayWriter) (x : ℕ) (xs : List ℕ) {header'' : BitArrayWriter}
    → push_each header (x ∷ xs) ≡ some header''
    → (header' : BitArrayWriter) × (push header (pos x) ≡ some header')
      × (push_each header' xs ≡ some header'')
unfolding push_each
push_each-cons header x xs e = >>=-eq-some (push header (pos x)) _ e
