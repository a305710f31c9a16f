-- ===== src/Inter/Serializer/Malleable.antt =====
-- Encodings that UnmarshalBinary accepts besides the one that MarshalBinary writes.
use go_mini_opera.Prelude.{
  ℕ, zero, suc, ◌+◌, ◌-◌, ◌*◌, ◌/◌, ◌%◌, ◌^◌, ◌<◌, ◌≤◌, ◌≡◌, ◌≢◌, refl, ap, ◌∙◌, arith, some, List,
  [], ◌∷◌, ◌++◌, true, length, get_or, inl, inr,
}
use go_mini_opera.Fast.Buffer.Laws.{written}
use go_mini_opera.Inter.Result.{ok}
use go_mini_opera.Inter.Event.{Platform, Event, IsEvent}
use go_mini_opera.Inter.Serializer.Compact.{sum_bytes, read_uint_compact}
use go_mini_opera.Inter.Serializer.Compact.Laws.{
  compact, compact_cases, sum_bytes-compact, length-compact, length-compact_pos,
}
use go_mini_opera.Prelude.Powers.{two-pow-add}
use native.Mathlib.Nat.{add-zero, pow-suc, one-le-pow, mul-mod_right}
use go_mini_opera.Inter.Serializer.Marshal.{marshal_binary}
use go_mini_opera.Inter.Serializer.Marshal.Layout.{sizes, body}
use go_mini_opera.Inter.Serializer.Marshal.Encoding.{marshal-layout}
use go_mini_opera.Inter.Serializer.Unmarshal.{unmarshal_binary}
use go_mini_opera.Inter.Serializer.Unmarshal.Layout.{Reads, decoded, unmarshal-layout}
use go_mini_opera.Inter.Serializer.Unmarshal.RoundTrip.{Headers-Reads}
use go_mini_opera.Inter.Serializer.Unmarshal.Steps.{read-written}

-- The second header byte with other digits in its two upper places.
abbrev pub with_upper : ℕ → ℕ → ℕ → ℕ
with_upper y flag pad = y % 16 + 16 * flag + 64 * pad

two_bytes : (h2 : List ℕ) → length h2 ≡ 2 → (x : ℕ) × (y : ℕ) × (h2 ≡ x ∷ y ∷ [])
two_bytes [] e = absurd (omega arith)
two_bytes (x ∷ []) e = absurd (omega arith)
two_bytes (x ∷ y ∷ []) e = (x, y, refl)
two_bytes (x ∷ y ∷ z ∷ r) e = absurd (omega arith)

-- Digits 0 to 5 do not see the change, and digit 6 is `flag`.
Reads-with_upper :
    (e : Event) (h3 : List ℕ) (x y flag pad : ℕ)
    → e.is_root ≡ true
    → 0 < flag
    → flag < 4
    → pad < 4
    → Reads e h3 (x ∷ y ∷ [])
    → Reads e h3 (x ∷ with_upper y flag pad ∷ [])
unfolding sizes
Reads-with_upper e h3 x y flag pad is_root nonzero flag_lt pad_lt headers = record {
  length3 = headers.length3;
  length2 = refl;
  bytes3 = headers.bytes3;
  bytes2 = bytes;
  version_zero = headers.version_zero;
  holds3 = headers.holds3;
  holds2 = omega (arith, headers.holds2);
  root = ground arith;
}
  where
    bytes : (k : ℕ) → get_or (x ∷ with_upper y flag pad ∷ []) k 0 < 256
    bytes zero = headers.bytes2 0
    bytes (suc zero) = omega arith
    bytes (suc (suc k)) = omega arith

module _ (p : Platform) (length-epoch_bytes : (n : ℕ) → length (p.epoch_bytes n) ≡ 4)
    (e receiver : Event) (spare : List ℕ) (valid : IsEvent p e) (version_zero : e.version ≡ 0)
    (is_root : e.is_root ≡ true) where
  -- The encoding of a root event of version 0, within the ranges of its Go types and whose parents'
  -- ids start with the four bytes of its epoch, carries two digits that can be changed with the
  -- decoded fields kept: the root flag to any of 1, 2 and 3, and the unused last digit to any
  -- value; no error is returned.
  pub unmarshal_binary-with_upper :
      (flag pad : ℕ)
      → 0 < flag
      → flag < 4
      → pad < 4
      → (h3 : List ℕ) × (x : ℕ) × (y : ℕ) × (marshal_binary e ≡ some (h3 ++ (x ∷ y ∷ body e)))
        × (unmarshal_binary p receiver (h3 ++ (x ∷ with_upper y flag pad ∷ body e)) spare
            ≡ ok (decoded p receiver e (h3 ++ (x ∷ with_upper y flag pad ∷ body e))))
  unfolding unmarshal_binary
  unmarshal_binary-with_upper flag pad nonzero flag_lt pad_lt =
      let (h3, h2, run, headers) = marshal-layout p e valid (omega arith) in
      let (x, y, two) = two_bytes h2 headers.length2 in
      let reads : Reads e h3 (x ∷ y ∷ []) =
        rw two at (Headers-Reads e h3 h2 version_zero headers) in
      (
        h3,
        x,
        y,
        rw two at run,
        rw (
            unmarshal-layout p length-epoch_bytes e receiver spare valid h3
              (x ∷ with_upper y flag pad ∷ [])
              (Reads-with_upper e h3 x y flag pad is_root nonzero flag_lt pad_lt reads)),
      )

length-compact_full : (k v : ℕ) → 256 ^ k ≤ v → length (compact (suc k) v) ≡ suc k
length-compact_full zero v h =
    omega (arith, length-compact 1 v, length-compact_pos 1 v (omega arith))
length-compact_full (suc k) v h = elim (compact_cases (suc k) v) [
  | inl (low, e) ↦ absurd (omega (arith, pow-suc 256 k, one-le-pow k 256 (omega arith)))
  | inr (high, e) ↦ rw e (ap suc (length-compact_full k (v / 256) (omega (arith, pow-suc 256 k))))
]

sum_bytes-append :
    (i v last : ℕ) (xs ys : List ℕ)
    → sum_bytes i v last (xs ++ ys)
      ≡ sum_bytes (i + length xs) (sum_bytes i v last xs).0 (sum_bytes i v last xs).1 ys
unfolding sum_bytes
sum_bytes-append i v last [] ys = rw add-zero
sum_bytes-append i v last (x ∷ xs) ys =
    let shift : i + 1 + length xs ≡ i + suc (length xs) = omega arith in
    rw (sum_bytes-append (i + 1) _ x xs ys, shift)

-- A byte from the ninth on is shifted out, whatever it is.
shifted_out : (i b : ℕ) → 8 ≤ i → b * 2 ^ (8 * i) % 2 ^ 64 ≡ 0
shifted_out i b h =
    let split : 8 * i ≡ 64 + 8 * (i - 8) = omega arith in
    rw (split, two-pow-add 64 (8 * (i - 8)))
      (let regroup : b * (2 ^ 64 * 2 ^ (8 * (i - 8))) ≡ 2 ^ 64 * (b * 2 ^ (8 * (i - 8))) =
          omega arith in
        rw regroup (mul-mod_right (2 ^ 64) (b * 2 ^ (8 * (i - 8)))))

sum_bytes_beyond :
    (i v last z : ℕ) (front : List ℕ)
    → 8 ≤ i
    → v < 2 ^ 64
    → sum_bytes i v last (front ++ (z ∷ [])) ≡ (v, z)
unfolding sum_bytes
sum_bytes_beyond i v last z [] h fits = rw (shifted_out i z h) (ground arith)
sum_bytes_beyond i v last z (x ∷ front) h fits =
    let same : (v + x * 2 ^ (8 * i) % 2 ^ 64) % 2 ^ 64 ≡ v = rw (shifted_out i x h) (omega arith) in
    ap (λ (t : ℕ). sum_bytes (i + 1) t x (front ++ (z ∷ []))) same
    ∙ sum_bytes_beyond (i + 1) v x z front (omega arith) fits

-- When the eight bytes of a number from 2 ^ 56 up are followed by one to eight further bytes, the
-- last of which is not 0, readUintCompact reads the whole as the same number and returns no error.
pub read_uint_compact_long :
    (v z : ℕ) (front w rest spare : List ℕ)
    → 2 ^ 56 ≤ v
    → v < 2 ^ 64
    → z ≢ 0
    → length front < 8
    → read_uint_compact
        (written w ((compact 8 v ++ (front ++ (z ∷ []))) ++ rest) spare)
        (length (compact 8 v ++ (front ++ (z ∷ []))))
      ≡ ok (v, written (w ++ (compact 8 v ++ (front ++ (z ∷ [])))) rest spare)
unfolding read_uint_compact
read_uint_compact_long v z front w rest spare high fits nonzero few =
    rw (read-written w (compact 8 v ++ (front ++ (z ∷ []))) rest spare, whole) (ground arith)
  where
    whole : sum_bytes 0 0 0 (compact 8 v ++ (front ++ (z ∷ []))) ≡ (v, z)
    whole =
        rw
          (
            sum_bytes-append 0 0 0 (compact 8 v) (front ++ (z ∷ [])),
            length-compact_full 7 v high,
            sum_bytes-compact 8 0 0 0 v fits (omega arith),
          )
          (ap (λ (t : ℕ). sum_bytes 8 t (sum_bytes 0 0 0 (compact 8 v)).1 (front ++ (z ∷ [])))
              (omega arith)
            ∙ sum_bytes_beyond 8 v _ z front (omega arith) fits)
