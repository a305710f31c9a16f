-- ===== src/Inter/Serializer/Marshal/Encoding.antt =====
-- MarshalBinary writes the layout, on every event that the Go types allow.
use go_mini_opera.Prelude.{
  ℕ, ◌+◌, ◌-◌, ◌*◌, ◌<◌, ◌≤◌, ◌≡◌, refl, ap, ◌∙◌, arith, some, List, [], ◌∷◌, ◌++◌, inl, inr, Bool,
  true, length, take, drop, replicate, leb, le→leb, if◌then◌else◌, ◌>>=◌, >>=_congr, length-append,
  append_assoc, length-drop, length-replicate, take-replicate, drop-replicate,
}
use go_mini_opera.Prelude.Int.{pos}
use go_mini_opera.Fast.BitArray.{BitArrayWriter, calc_size, push}
use go_mini_opera.Fast.BitArray.RoundTrip.{
  Pushed, at_offset, push_each, push_each-Pushed, new_bit_array_lem, writer_lem, Blank-zeros,
  zeros_bytes,
}
use go_mini_opera.Fast.Buffer.{Buffer, new_buffer, write, position}
use go_mini_opera.Fast.Buffer.Laws.{take_exact}
use go_mini_opera.Inter.Event.{Event, Platform, IsEvent}
use go_mini_opera.Inter.Serializer.Compact.Laws.{compact, length-compact}
use go_mini_opera.Inter.Serializer.Marshal.{
  fields64, fields32, fields_bool, write_fields, write_parents, marshal_binary,
}
use go_mini_opera.Inter.Serializer.Marshal.Layout.{
  compacts, sizes, flags, tails, length-compacts, sizes_small, length-tails, body, Headers,
}
use go_mini_opera.Inter.Serializer.Marshal.Steps.{
  after, after-after, write-after, write_fields_lem, push_flags_lem, write_parents_lem,
  push_each-append, push_each-cons,
}

-- A buffer made with the slice `rest`, of which `c` is written.
abbrev filled : List ℕ → List ℕ → Buffer
filled c rest = after [] c rest []

module _ (c rest : List ℕ) where
  write_fields-filled :
      (size : ℕ) (vs : List ℕ) (header : BitArrayWriter)
      → 0 < size
      → length c + length (compacts size vs) ≤ length rest
      → write_fields size vs (filled c rest) header
        ≡ (push_each header (sizes size vs) >>= λ h. some (filled (c ++ compacts size vs) rest, h))
  write_fields-filled size vs header nonzero fits =
      write_fields_lem size vs c (drop (length c) rest) [] header nonzero
        (omega (arith, length-drop (length c) rest))
      ∙ >>=_congr (push_each header (sizes size vs)) _ _
          λ h. ap (λ (b : Buffer). some (b, h)) (after-after [] c (compacts size vs) rest [])

  write_parents-filled :
      (ps : List (List ℕ))
      → length c + length (tails ps) ≤ length rest
      → write_parents ps (filled c rest) ≡ some (filled (c ++ tails ps) rest)
  write_parents-filled ps fits =
      write_parents_lem ps c (drop (length c) rest) [] (omega (arith, length-drop (length c) rest))
      ∙ ap some (after-after [] c (tails ps) rest [])

  write-filled :
      (v : List ℕ)
      → length c + length v ≤ length rest
      → write (filled c rest) v ≡ some (filled (c ++ v) rest)
  write-filled v fits =
      write-after c v (drop (length c) rest) [] (omega (arith, length-drop (length c) rest))
      ∙ ap some (after-after [] c v rest [])

digit2 : (v : ℕ) → length (compact 4 v) - 1 < 4
digit2 v = omega (arith, length-compact 4 v)

flag_small : (b : Bool) → (if b then 1 else 0) < 4
flag_small b = ground arith

-- The size of the array that MarshalBinary makes.
max_bytes : Event → ℕ
max_bytes e = 1 + 2 + 1 * 8 + 6 * 4 + length e.parents * 28 + length e.sig + length e.payload

take_headers :
    (h3 h2 b tail : List ℕ)
    → length h3 ≡ 1
    → length h2 ≡ 2
    → take (1 + 2 + length b) (h3 ++ (h2 ++ (b ++ tail))) ≡ h3 ++ (h2 ++ b)
take_headers h3 h2 b tail len3 len2 =
    rw (← append_assoc h2 b tail, ← append_assoc h3 (h2 ++ b) tail)
      (take_exact _ (h3 ++ (h2 ++ b)) tail
        (omega (arith, length-append h3 (h2 ++ b), length-append h2 b)))

module _ (p : Platform) (e : Event) (valid : IsEvent p e) (version_fits : e.version < 16) where
  rest : List ℕ
  unfolding max_bytes
  rest = replicate (max_bytes e - 3) 0

  -- The body fits into the array.
  body_fits :
      length (compacts 8 (fields64 e))
        + length (compacts 4 (fields32 e))
        + length (tails e.parents)
        + length e.payload
        + length e.sig
      ≤ length rest
  unfolding rest max_bytes
  body_fits = omega (
    arith,
    length-compacts 8 (fields64 e),
    length-compacts 4 (fields32 e),
    length-tails e.parents (p.epoch_bytes e.epoch) valid.parents_ids,
    length-replicate (max_bytes e - 3) (let z : ℕ = 0 in z),
  )

  header3_run :
      (h3 : List ℕ) × (push_each
          (record { array = at_offset 4 2 0; raw = replicate 1 0 })
          (e.version ∷ sizes 8 (fields64 e))
        ≡ some (record { array = at_offset 4 2 2; raw = h3 }))
      × Pushed 4 0 (e.version ∷ sizes 8 (fields64 e)) (replicate 1 0) h3
  unfolding calc_size sizes
  header3_run =
      push_each-Pushed 4 2 (inr (inr refl)) (omega arith) (omega arith) 0
        (e.version ∷ sizes 8 (fields64 e)) (replicate 1 0) (omega arith) refl
        (version_fits, sizes_small 8 4 (fields64 e) (omega arith) (omega arith)) (Blank-zeros 4 1)
        (zeros_bytes 1)

  header2_run :
      (h2 : List ℕ) × (push_each
          (record { array = at_offset 2 7 0; raw = replicate 2 0 })
          (sizes 4 (fields32 e) ++ flags (fields_bool e))
        ≡ some (record { array = at_offset 2 7 7; raw = h2 }))
      × Pushed 2 0 (sizes 4 (fields32 e) ++ flags (fields_bool e)) (replicate 2 0) h2
  unfolding calc_size sizes flags
  header2_run =
      push_each-Pushed 2 7 (inr (inl refl)) (omega arith) (omega arith) 0
        (sizes 4 (fields32 e) ++ flags (fields_bool e)) (replicate 2 0) (omega arith) refl
        (
          digit2 _,
          (digit2 _, (digit2 _, (digit2 _, (digit2 _, (digit2 _, (flag_small e.is_root, tt)))))),
        )
        (Blank-zeros 2 2) (zeros_bytes 2)

  written_body : List ℕ
  written_body =
      compacts 8 (fields64 e) ++ compacts 4 (fields32 e) ++ tails e.parents ++ e.payload ++ e.sig

  written_body_lem : written_body ≡ body e
  unfolding written_body body
  written_body_lem = simp append_assoc

  -- The run, with the states of the two headers between the loops.
  marshal_run :
      (h3 h2 : List ℕ) (w3 w2 : BitArrayWriter)
      → length h3 ≡ 1
      → length h2 ≡ 2
      → push (record { array = at_offset 4 2 0; raw = replicate 1 0 }) (pos e.version) ≡ some w3
      → push_each w3 (sizes 8 (fields64 e)) ≡ some (record { array = at_offset 4 2 2; raw = h3 })
      → push_each (record { array = at_offset 2 7 0; raw = replicate 2 0 }) (sizes 4 (fields32 e))
        ≡ some w2
      → push_each w2 (flags (fields_bool e)) ≡ some (record { array = at_offset 2 7 7; raw = h2 })
      → marshal_binary e ≡ some (h3 ++ (h2 ++ body e))
  unfolding marshal_binary calc_size new_buffer position max_bytes rest written_body
  marshal_run h3 h2 w3 w2 len3 len2 version_run sizes_run numbers_run flags_run =
      rw
        (
          new_bit_array_lem 4 2 (inr (inr refl)),
          new_bit_array_lem 2 7 (inr (inl refl)),
          take-replicate {A = ℕ} 1 (max_bytes e) 0 (omega arith),
          writer_lem 4 2 (replicate 1 0) refl,
          drop-replicate {A = ℕ} 1 (max_bytes e) 0,
          take-replicate {A = ℕ} 2 (max_bytes e - 1) 0 (omega arith),
          writer_lem 2 7 (replicate 2 0) refl,
          version_run,
          drop-replicate {A = ℕ} 3 (max_bytes e) 0,
          write_fields-filled [] rest 8 (fields64 e) w3 (omega arith) (omega (arith, body_fits)),
          sizes_run,
          write_fields-filled c64 rest 4 (fields32 e) _ (omega arith) (omega (arith, body_fits)),
          numbers_run,
          push_flags_lem,
          flags_run,
          write_parents-filled c32 rest e.parents (omega (arith, body_fits, length-c32)),
          write-filled cp rest e.payload (omega (arith, body_fits, length-cp)),
          write-filled (cp ++ e.payload) rest e.sig
              (omega (arith, body_fits, length-cp, length-append cp e.payload)),
          within,
          take_headers h3 h2 written_body _ len3 len2,
        )
        (ap (λ (b : List ℕ). some (h3 ++ (h2 ++ b))) written_body_lem)
    where
      c64 : List ℕ
      c64 = compacts 8 (fields64 e)

      c32 : List ℕ
      c32 = c64 ++ compacts 4 (fields32 e)

      cp : List ℕ
      cp = c32 ++ tails e.parents

      length-c32 : length c32 ≡ length c64 + length (compacts 4 (fields32 e))
      length-c32 = length-append c64 (compacts 4 (fields32 e))

      length-cp :
          length cp ≡ length c64 + length (compacts 4 (fields32 e)) + length (tails e.parents)
      length-cp = omega (arith, length-c32, length-append c32 (tails e.parents))

      within : leb (1 + 2 + length written_body) (max_bytes e) ≡ true
      within = le→leb _ _ (
          omega (
            arith,
            body_fits,
            length-cp,
            length-append cp e.payload,
            length-append (cp ++ e.payload) e.sig,
            length-replicate {A = ℕ} (max_bytes e - 3) 0,
          ))

  -- The encoding of an event within the ranges of its Go types, of a version below 16, exists and
  -- is two headers of one and two bytes, which hold the version, the sizes of the numbers and the
  -- root flag, followed by the minimal little-endian bytes of the numbers, the parents' ids without
  -- their epoch, the payload and the signature.
  pub marshal-layout :
      (h3 : List ℕ) × (h2 : List ℕ) × (marshal_binary e ≡ some (h3 ++ (h2 ++ body e)))
      × Headers e h3 h2
  marshal-layout =
      let (h3, run3, fill3) = header3_run in
      let (h2, run2, fill2) = header2_run in
      let (w3, version_run, sizes_run) = push_each-cons _ e.version _ run3 in
      let (w2, numbers_run, flags_run) = push_each-append _ (sizes 4 (fields32 e)) _ run2 in
      (
        h3,
        h2,
        marshal_run h3 h2 w3 w2 fill3.same fill2.same version_run sizes_run numbers_run flags_run,
        record {
          length3 = fill3.same;
          length2 = fill2.same;
          bytes3 = fill3.bytes;
          bytes2 = fill2.bytes;
          holds3 = fill3.holds;
          holds2 = fill2.holds;
          run3 = run3;
          run2 = run2;
        },
      )
