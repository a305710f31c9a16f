-- ===== src/Inter/Serializer/Unmarshal/Slices.antt =====
-- The slices that UnmarshalBinary cuts from its input, and its conversions.
use go_mini_opera.Prelude.{
  ℕ, suc, ◌+◌, ◌%◌, ◌^◌, ◌<◌, ◌≡◌, sym, arith, some, List, [], ◌∷◌, ◌++◌, length, length-append,
  append_assoc, replicate,
}
use go_mini_opera.Fast.BitArray.RoundTrip.{Holds}
use go_mini_opera.Fast.Buffer.Laws.{take_exact, drop_exact, copy_full}
use go_mini_opera.Inter.Event.{bytes_to_signature}
use go_mini_opera.Inter.Serializer.Unmarshal.{slice, slice_from}
use native.Mathlib.Nat.{mod-eq_of_lt, add-zero}

pub Holds-append :
    (bits : ℕ) (raw : List ℕ) (i : ℕ) (xs ys : List ℕ)
    → Holds bits raw i (xs ++ ys)
    → Holds bits raw i xs × Holds bits raw (i + length xs) ys
Holds-append bits raw i [] ys h = (tt, rw add-zero h)
Holds-append bits raw i (x ∷ xs) ys (e, h) =
    let (front, back) = Holds-append bits raw (suc i) xs ys h in
    let shift : suc i + length xs ≡ i + suc (length xs) = omega arith in
    ((e, front), rw shift at back)

module _ (h3 h2 b spare : List ℕ) (len3 : length h3 ≡ 1) (len2 : length h2 ≡ 2) where
  pub slice_header3 : slice (h3 ++ (h2 ++ b)) spare 0 1 ≡ some h3
  unfolding slice
  slice_header3 =
      rw (append_assoc h3 (h2 ++ b) spare, take_exact 1 h3 ((h2 ++ b) ++ spare) (sym len3))
        (ground (arith, length-append h3 (h2 ++ b)))

  pub slice_header2 : slice (h3 ++ (h2 ++ b)) spare 1 3 ≡ some h2
  unfolding slice
  slice_header2 =
      rw
        (
          append_assoc h3 (h2 ++ b) spare,
          drop_exact 1 h3 ((h2 ++ b) ++ spare) (sym len3),
          append_assoc h2 b spare,
          take_exact 2 h2 (b ++ spare) (sym len2),
        )
        (ground (arith, length-append h3 (h2 ++ b), length-append h2 b))

  pub slice_body : slice_from (h3 ++ (h2 ++ b)) 3 ≡ some b
  unfolding slice_from
  slice_body =
      rw (← append_assoc h3 h2 b, drop_exact 3 (h3 ++ h2) b (omega (arith, length-append h3 h2)))
        (ground (arith, length-append h3 h2, length-append (h3 ++ h2) b))

pub fit : (v : ℕ) → v < 2 ^ 32 → (v < 256 ^ 4) × (v % 2 ^ 32 ≡ v)
fit v h = (h, mod-eq_of_lt h)

pub bytes_to_signature_lem : (s : List ℕ) → length s ≡ 64 → bytes_to_signature s ≡ some s
unfolding bytes_to_signature
bytes_to_signature_lem s h = rw (copy_full (replicate 64 0) s (sym h)) (ground arith)
