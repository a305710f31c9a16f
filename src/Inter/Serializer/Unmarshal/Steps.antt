-- ===== src/Inter/Serializer/Unmarshal/Steps.antt =====
-- What each loop of UnmarshalBinary takes back from the layout.
use go_mini_opera.Prelude.{
  ℕ, suc, ◌+◌, ◌*◌, ◌^◌, ◌<◌, ◌≤◌, ◌≡◌, sym, arith, some, List, [], ◌∷◌, ◌++◌, Bool, if◌then◌else◌,
  length, get_or, take, drop, All, length-append, append_assoc, append-nil, length-drop,
  take-append-drop, replicate,
}
use go_mini_opera.Fast.BitArray.{BitArrayReader, calc_size, pop}
use go_mini_opera.Fast.BitArray.Masks.{IsWidth}
use go_mini_opera.Fast.BitArray.Digits.{digit}
use go_mini_opera.Fast.BitArray.RoundTrip.{at_offset, pop-digit, Holds, at_byte-lt-calc_size}
use go_mini_opera.Fast.Buffer.{read}
use go_mini_opera.Fast.Buffer.Laws.{written, read_lem, copy_full}
use go_mini_opera.Inter.Result.{ok}
use go_mini_opera.Inter.Serializer.Compact.Laws.{
  compact, length-compact_pos, read_uint_compact-compact,
}
use go_mini_opera.Inter.Serializer.Marshal.Layout.{compacts, sizes, tails}
use go_mini_opera.Inter.Serializer.Unmarshal.{read_fields, read_flag, parent_id, read_parents}
use native.Mathlib.Nat.{mul-le-mul_right, add-zero}

-- The cursor after `c`, in either form.
pub advance :
    (w c rest spare : List ℕ)
    → written (w ++ c) rest spare
      ≡ record { buf = w ++ (c ++ rest); spare = spare; offset = length w + length c }
advance w c rest spare = ground (arith, append_assoc w c rest, length-append w c)

pub read-written :
    (w c rest spare : List ℕ)
    → read (written w (c ++ rest) spare) (length c) ≡ some (c, written (w ++ c) rest spare)
read-written w c rest spare = rw advance (read_lem w c rest spare)

-- A header of `count` digits, as the slice that the reader walks.
pub record IsHeader (bits count : ℕ) (raw : List ℕ) : Type 0 where
  pub width : IsWidth bits
  pub fits : count * bits < 2 ^ 63
  pub few : count < 2 ^ 63
  pub size : length raw ≡ calc_size bits count
  pub bytes : (k : ℕ) → get_or raw k 0 < 256

abbrev pub header_at : ℕ → ℕ → List ℕ → ℕ → BitArrayReader
header_at bits count raw i = record { array = at_offset bits count i; raw = raw }

pub pop_header :
    {bits count : ℕ} (raw : List ℕ)
    → IsHeader bits count raw
    → (i : ℕ) → i < count
    → pop (header_at bits count raw i) ≡ some (digit bits raw i, header_at bits count raw (suc i))
pop_header {bits} {count} raw h i lt =
    pop-digit bits count i raw h.width
      (omega (arith, h.fits, mul-le-mul_right {m = i} {n = count} bits (omega arith)))
      (omega (arith, h.few))
      (rw h.size (at_byte-lt-calc_size bits count i h.width (omega (arith, h.fits)) lt)) (h.bytes _)

module _ (conv : ℕ → ℕ) (size bits count : ℕ) (raw spare : List ℕ)
    (header : IsHeader bits count raw) (nonzero : 0 < size) (le : size ≤ 8) where
  -- The loop over the numbers reads back what the layout holds.
  pub read_fields_lem :
      (i : ℕ) (vs w rest : List ℕ)
      → i + length vs ≤ count
      → Holds bits raw i (sizes size vs)
      → All (λ v. (v < 256 ^ size) × (conv v ≡ v)) vs
      → read_fields conv
          (length vs)
          (header_at bits count raw i)
          (written w (compacts size vs ++ rest) spare)
        ≡ ok (
          vs,
          header_at bits count raw (i + length vs),
          written (w ++ compacts size vs) rest spare,
        )
  unfolding read_fields compacts sizes
  read_fields_lem i [] w rest room holds small = rw (append-nil, add-zero)
  read_fields_lem i (v ∷ vs) w rest room (e, holds) (hv, small) =
      let c : List ℕ = compact size v in
      let digit_lem : digit bits raw i + 1 ≡ length c =
        omega (arith, length-compact_pos size v nonzero) in
      rw
        (
          pop_header raw header i (omega arith),
          digit_lem,
          append_assoc c (compacts size vs) rest,
          read_uint_compact-compact size v w (compacts size vs ++ rest) spare nonzero le hv.0,
          ← advance w c (compacts size vs ++ rest) spare,
          read_fields_lem (suc i) vs (w ++ c) rest (omega arith) holds small,
        )
        (ground (arith, append_assoc w c (compacts size vs)))

pub read_flag_lem :
    {bits count : ℕ} (raw : List ℕ)
    → IsHeader bits count raw
    → (i : ℕ) (b : Bool) → i < count
    → digit bits raw i ≡ (if b then 1 else 0)
    → read_flag (header_at bits count raw i) ≡ ok (b, header_at bits count raw (suc i))
unfolding read_flag
read_flag_lem raw h i b lt e = rw (pop_header raw h i lt, e) (ground arith)

-- A parent's id comes back from its tail and the epoch.
pub parent_id_lem :
    (E h : List ℕ) → length E ≡ 4 → length h ≡ 32 → take 4 h ≡ E → parent_id E (drop 4 h) ≡ h
unfolding parent_id
parent_id_lem E h lenE lenh e =
    rw
      (
        copy_full (replicate 4 0) E (sym lenE),
        copy_full (replicate 28 0) (drop 4 h) (omega (arith, length-drop 4 h)),
        ← e,
      )
      (take-append-drop 4 h)

pub read_parents_lem :
    (E : List ℕ) (ps : List (List ℕ)) (w rest spare : List ℕ)
    → length E ≡ 4
    → All (λ h. (length h ≡ 32) × (take 4 h ≡ E)) ps
    → read_parents E (length ps) (written w (tails ps ++ rest) spare)
      ≡ ok (ps, written (w ++ tails ps) rest spare)
unfolding read_parents tails
read_parents_lem E [] w rest spare lenE h = rw append-nil
read_parents_lem E (p ∷ ps) w rest spare lenE ((len, e), hs) =
    let d : List ℕ = drop 4 p in
    let length-d : length d ≡ 28 = omega (arith, length-drop 4 p) in
    rw (
      append_assoc d (tails ps) rest,
      ← length-d,
      read-written w d (tails ps ++ rest) spare,
      read_parents_lem E ps (w ++ d) rest spare lenE hs,
      parent_id_lem E p lenE len e,
      append_assoc w d (tails ps),
    )
