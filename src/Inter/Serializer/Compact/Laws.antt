-- ===== src/Inter/Serializer/Compact/Laws.antt =====
-- The compact form of a number: what the writer leaves is what the reader takes back.
use go_mini_opera.Prelude.{
  ◌⊎◌, ℕ, zero, suc, ◌+◌, ◌*◌, ◌/◌, ◌%◌, ◌^◌, ◌<◌, ◌≤◌, ◌≡◌, ◌≢◌, ap, ◌∙◌, arith, some, List, [],
  ◌∷◌, ◌++◌, length, drop, ltb, ◌==◌, ◌&&◌, if◌then◌else◌, inl, inr, false, append-nil,
  append_assoc,
}
use go_mini_opera.Prelude.Powers.{two-pow-add}
use go_mini_opera.Fast.Buffer.Laws.{written, write_byte_lem, read_lem}
use go_mini_opera.Inter.Result.{ok}
use go_mini_opera.Inter.Serializer.Compact.{write_uint_compact, sum_bytes, read_uint_compact}
use native.Mathlib.Nat.{mod-eq_of_lt, pow-le-pow_right, pow-suc, div-add-mod}

-- The base-256 digits of `v`, lowest first and at most `size` of them, without leading zeros.
unfoldable pub compact : ℕ → ℕ → List ℕ
compact zero v = []
compact (suc size) v = (v % 256) ∷ (if v / 256 == 0 then [] else compact size (v / 256))

pub length-compact : (size v : ℕ) → length (compact size v) ≤ size
unfolding compact
length-compact zero v = omega arith
length-compact (suc size) v = ground (arith, length-compact size (v / 256))

pub length-compact_pos : (size v : ℕ) → 0 < size → 0 < length (compact size v)
unfolding compact
length-compact_pos zero v h = absurd (omega arith)
length-compact_pos (suc size) v h = omega arith

pub compact_cases :
    (size v : ℕ)
    → ((v < 256) × (compact (suc size) v ≡ v ∷ []))
      ⊎ ((256 ≤ v) × (compact (suc size) v ≡ (v % 256) ∷ compact size (v / 256)))
unfolding compact
compact_cases size v = ground arith

-- The writer appends the compact form and counts its bytes.
pub write_uint_compact-compact :
    (size v : ℕ) (w rest spare : List ℕ)
    → length (compact size v) ≤ length rest
    → write_uint_compact size (written w rest spare) v
      ≡ some (
        written (w ++ compact size v) (drop (length (compact size v)) rest) spare,
        length (compact size v),
      )
unfolding write_uint_compact
write_uint_compact-compact zero v w rest spare h = unfold compact in rw append-nil
write_uint_compact-compact (suc size) v w [] spare h =
    absurd (omega (arith, length-compact_pos (suc size) v (omega arith)))
write_uint_compact-compact (suc size) v w (x ∷ rest) spare h = elim (compact_cases size v) [
  | inl (low, e) ↦ rw (e, write_byte_lem w rest spare x (v % 256)) (ground arith)
  | inr (high, e) ↦
      let fits : length (compact size (v / 256)) ≤ length rest = omega (arith, ap length e) in
      rw
        (
          e,
          write_byte_lem w rest spare x (v % 256),
          write_uint_compact-compact size (v / 256) (w ++ ((v % 256) ∷ [])) rest spare fits,
        )
        (ground (arith, append_assoc w ((v % 256) ∷ []) (compact size (v / 256))))
]

next_weight : (i : ℕ) → 2 ^ (8 * (i + 1)) ≡ 256 * 2 ^ (8 * i)
next_weight i = let e : 8 * (i + 1) ≡ 8 + 8 * i = omega arith in rw e (two-pow-add 8 (8 * i))

split_byte : (v i : ℕ) → v * 2 ^ (8 * i) ≡ v % 256 * 2 ^ (8 * i) + v / 256 * 2 ^ (8 * (i + 1))
split_byte v i = rw next_weight (omega (arith, ap (λ (t : ℕ). t * 2 ^ (8 * i)) (div-add-mod v 256)))

smaller : (size v : ℕ) → v < 256 ^ suc size → v / 256 < 256 ^ size
smaller size v h = omega (arith, pow-suc 256 size)

-- The sum of one round does not wrap, since the whole number fits.
acc_step :
    (i acc v : ℕ)
    → acc + v * 2 ^ (8 * i) < 2 ^ 64
    → (acc + v % 256 * 2 ^ (8 * i) % 2 ^ 64) % 2 ^ 64 ≡ acc + v % 256 * 2 ^ (8 * i)
acc_step i acc v fits =
    let inner : v % 256 * 2 ^ (8 * i) % 2 ^ 64 ≡ v % 256 * 2 ^ (8 * i) =
      mod-eq_of_lt (omega (arith, split_byte v i)) in
    rw inner (mod-eq_of_lt (omega (arith, split_byte v i)))

pub sum_bytes-compact :
    (size i acc last v : ℕ)
    → v < 256 ^ size
    → acc + v * 2 ^ (8 * i) < 2 ^ 64
    → (sum_bytes i acc last (compact size v)).0 ≡ acc + v * 2 ^ (8 * i)
unfolding sum_bytes
sum_bytes-compact zero i acc last v small fits =
    unfold compact in (let e : v ≡ 0 = omega arith in rw e (omega arith))
sum_bytes-compact (suc size) i acc last v small fits = elim (compact_cases size v) [
  | inl (low, e) ↦
      let same : v % 256 ≡ v = omega arith in rw (e, sum_bytes) (rw same at (acc_step i acc v fits))
  | inr (high, e) ↦
      rw (e, sum_bytes)
        (rw (acc_step i acc v fits) (
          sum_bytes-compact size (i + 1) (acc + v % 256 * 2 ^ (8 * i)) (v % 256) (v / 256)
            (smaller size v small) (omega (arith, split_byte v i))
          ∙ omega (arith, split_byte v i)))
]

-- The last byte of a positive number is not 0.
sum_bytes_last :
    (size i acc last v : ℕ) → v < 256 ^ size → 0 < v → (sum_bytes i acc last (compact size v)).1 ≢ 0
unfolding sum_bytes
sum_bytes_last zero i acc last v small pos = absurd (omega arith)
sum_bytes_last (suc size) i acc last v small pos = elim (compact_cases size v) [
  | inl (low, e) ↦ rw e (omega arith)
  | inr (high, e) ↦
      rw e (sum_bytes_last size (i + 1) _ (v % 256) (v / 256) (smaller size v small) (omega arith))
]

compact_canonical :
    (size v : ℕ)
    → 0 < size
    → v < 256 ^ size
    → (ltb 1 (length (compact size v)) && (sum_bytes 0 0 0 (compact size v)).1 == 0) ≡ false
compact_canonical zero v pos small = absurd (omega arith)
compact_canonical (suc size) v pos small = elim (compact_cases size v) [
  | inl (low, e) ↦ rw e
  | inr (high, e) ↦ ground (arith, sum_bytes_last (suc size) 0 0 0 v small (omega arith))
]

-- The minimal little-endian bytes of a number of at most one to eight bytes are read back as that
-- number, with the cursor behind them.
pub read_uint_compact-compact :
    (size v : ℕ) (w rest spare : List ℕ)
    → 0 < size
    → size ≤ 8
    → v < 256 ^ size
    → read_uint_compact (written w (compact size v ++ rest) spare) (length (compact size v))
      ≡ ok (
        v,
        record {
          buf = w ++ (compact size v ++ rest);
          spare = spare;
          offset = length w + length (compact size v);
        },
      )
unfolding read_uint_compact
read_uint_compact-compact size v w rest spare pos le small =
    rw (read_lem, compact_canonical size v pos small, sum_bytes-compact size 0 0 0 v small fits)
      (ground arith)
  where
    fits : 0 + v * 2 ^ (8 * 0) < 2 ^ 64
    fits = omega (arith, pow-le-pow_right {n = 256} (omega arith) {i = size} {j = 8} le)
