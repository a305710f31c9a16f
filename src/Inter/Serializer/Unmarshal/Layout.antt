-- ===== src/Inter/Serializer/Unmarshal/Layout.antt =====
-- UnmarshalBinary on the layout that MarshalBinary writes.
use go_mini_opera.Prelude.{
  ℕ, ◌+◌, ◌-◌, ◌%◌, ◌^◌, ◌<◌, ◌≡◌, refl, arith, some, List, [], ◌++◌, false, inl, inr, length,
  get_or, take, All, length-append, append-nil, ltb, not, ◌==◌,
}
use go_mini_opera.Fast.BitArray.{calc_size}
use go_mini_opera.Fast.BitArray.Digits.{digit}
use go_mini_opera.Fast.BitArray.RoundTrip.{Holds, new_bit_array_lem, reader_lem}
use go_mini_opera.Fast.Buffer.{Buffer, new_buffer, read, position}
use go_mini_opera.Fast.Buffer.Laws.{written}
use go_mini_opera.Inter.Result.{ok}
use go_mini_opera.Inter.Event.{Platform, Event, IsEvent, fill_caches_lem}
use go_mini_opera.Inter.Serializer.Marshal.{fields64, fields32}
use go_mini_opera.Inter.Serializer.Marshal.Layout.{compacts, sizes, tails, body}
use go_mini_opera.Inter.Serializer.Unmarshal.{read_fields, read_flag, read_parents, unmarshal}
use go_mini_opera.Inter.Serializer.Unmarshal.Steps.{
  read-written, IsHeader, header_at, pop_header, read_fields_lem, read_parents_lem,
}
use go_mini_opera.Inter.Serializer.Unmarshal.Slices.{
  slice_header3, slice_header2, slice_body, fit, bytes_to_signature_lem,
}
use native.Mathlib.Nat.{mod-eq_of_lt, mod-lt}

-- The headers as the decoder reads them: the spare digit is not read, and a flag is any digit but 0.
pub record Reads (e : Event) (h3 h2 : List ℕ) : Type 0 where
  pub length3 : length h3 ≡ 1
  pub length2 : length h2 ≡ 2
  pub bytes3 : (k : ℕ) → get_or h3 k 0 < 256
  pub bytes2 : (k : ℕ) → get_or h2 k 0 < 256
  pub version_zero : digit 4 h3 0 ≡ 0
  pub holds3 : Holds 4 h3 1 (sizes 8 (fields64 e))
  pub holds2 : Holds 2 h2 0 (sizes 4 (fields32 e))
  pub root : not (digit 2 h2 6 == 0) ≡ e.is_root

-- The event that the receiver becomes: the fields of `e`, with the caches of its encoding.
abbrev pub decoded : Platform → Event → Event → List ℕ → Event
decoded p receiver e raw = record {
  base = record e.base { id = receiver.id };
  version = 0;
  payload = e.payload;
  sig = e.sig;
  size = length raw;
  hash_to_sign = some (p.sha256 (take (length raw - 64) raw));
}

module _ (p : Platform) (length-epoch_bytes : (n : ℕ) → length (p.epoch_bytes n) ≡ 4)
    (e receiver : Event) (spare : List ℕ) (valid : IsEvent p e) where
  header3 : (h3 h2 : List ℕ) → Reads e h3 h2 → IsHeader 4 2 h3
  unfolding calc_size
  header3 h3 h2 headers = record {
    width = inr (inr refl);
    fits = omega arith;
    few = omega arith;
    size = headers.length3;
    bytes = headers.bytes3;
  }

  header2 : (h3 h2 : List ℕ) → Reads e h3 h2 → IsHeader 2 7 h2
  unfolding calc_size
  header2 h3 h2 headers = record {
    width = inr (inl refl);
    fits = omega arith;
    few = omega arith;
    size = headers.length2;
    bytes = headers.bytes2;
  }

  behind64 : List ℕ
  behind64 = compacts 4 (fields32 e) ++ (tails e.parents ++ (e.payload ++ e.sig))

  behind_parents : List ℕ
  behind_parents = compacts 8 (fields64 e) ++ compacts 4 (fields32 e) ++ tails e.parents

  read64 :
      (h3 h2 : List ℕ)
      → Reads e h3 h2
      → read_fields (λ x. x) 1 (header_at 4 2 h3 1) (new_buffer (body e) spare)
        ≡ ok (fields64 e, header_at 4 2 h3 2, written (compacts 8 (fields64 e)) behind64 spare)
  unfolding new_buffer body behind64
  read64 h3 h2 headers =
      read_fields_lem (λ x. x) 8 4 2 h3 spare (header3 h3 h2 headers) (omega arith) (omega arith) 1
        (fields64 e) [] behind64 (omega arith) headers.holds3 ((valid.raw_time_lt, refl), tt)

  fits32 : All (λ v. (v < 256 ^ 4) × (v % 2 ^ 32 ≡ v)) (fields32 e)
  fits32 = (
    fit _ valid.epoch_lt,
    (
      fit _ valid.seq_lt,
      (
        fit _ valid.frame_lt,
        (
          fit _ valid.creator_lt,
          (fit _ valid.lamport_lt, (fit _ (mod-lt (length e.parents) (omega arith)), tt)),
        ),
      ),
    ),
  )

  read32 :
      (h3 h2 : List ℕ)
      → Reads e h3 h2
      → read_fields
          (λ x. x % 2 ^ 32)
          6
          (header_at 2 7 h2 0)
          (written (compacts 8 (fields64 e)) behind64 spare)
        ≡ ok (
          fields32 e,
          header_at 2 7 h2 6,
          written
              (compacts 8 (fields64 e) ++ compacts 4 (fields32 e))
              (tails e.parents ++ (e.payload ++ e.sig))
              spare,
        )
  unfolding behind64
  read32 h3 h2 headers =
      read_fields_lem (λ x. x % 2 ^ 32) 4 2 7 h2 spare (header2 h3 h2 headers) (omega arith)
        (omega arith) 0 (fields32 e) (compacts 8 (fields64 e))
        (tails e.parents ++ (e.payload ++ e.sig)) (omega arith) headers.holds2 fits32

  read_root :
      (h3 h2 : List ℕ)
      → Reads e h3 h2
      → read_flag (header_at 2 7 h2 6) ≡ ok (e.is_root, header_at 2 7 h2 7)
  unfolding read_flag
  read_root h3 h2 headers =
      rw (pop_header h2 (header2 h3 h2 headers) 6 (omega arith)) (ground (arith, headers.root))

  read_ids :
      read_parents (p.epoch_bytes e.epoch) (length e.parents % 2 ^ 32) (
        written
          (compacts 8 (fields64 e) ++ compacts 4 (fields32 e))
          (tails e.parents ++ (e.payload ++ e.sig))
          spare)
      ≡ ok (e.parents, written behind_parents (e.payload ++ e.sig) spare)
  unfolding behind_parents
  read_ids = rw (mod-eq_of_lt valid.parents_lt) (
      read_parents_lem (p.epoch_bytes e.epoch) e.parents _ (e.payload ++ e.sig) spare
        (length-epoch_bytes e.epoch) valid.parents_ids)

  length-body : length (body e) ≡ length behind_parents + (length e.payload + 64)
  unfolding body behind_parents
  length-body = omega (
    arith,
    length-append c64 (c32 ++ (tails e.parents ++ (e.payload ++ e.sig))),
    length-append c32 (tails e.parents ++ (e.payload ++ e.sig)),
    length-append (tails e.parents) (e.payload ++ e.sig),
    length-append e.payload e.sig,
    length-append (c64 ++ c32) (tails e.parents),
    length-append c64 c32,
    valid.sig_length,
  )
    where
      c64 : List ℕ
      c64 = compacts 8 (fields64 e)

      c32 : List ℕ
      c32 = compacts 4 (fields32 e)

  enough : ltb (length (body e)) (length behind_parents + 64) ≡ false
  enough = ground (arith, length-body)

  payload_size : length (body e) - length behind_parents - 64 ≡ length e.payload
  payload_size = omega (arith, length-body)

  read_payload :
      read
        (written behind_parents (e.payload ++ e.sig) spare)
        (length (body e) - length behind_parents - 64)
      ≡ some (e.payload, written (behind_parents ++ e.payload) e.sig spare)
  read_payload = rw payload_size (read-written behind_parents e.payload e.sig spare)

  read_sig :
      (b : Buffer) × (read (written (behind_parents ++ e.payload) e.sig spare) 64 ≡ some (e.sig, b))
  read_sig = (
    _,
    rw (append-nil, valid.sig_length) at
        (read-written (behind_parents ++ e.payload) e.sig [] spare),
  )

  -- Any two headers with these digits, before the body of an event, are decoded to that event.
  pub unmarshal-layout :
      (h3 h2 : List ℕ)
      → Reads e h3 h2
      → unmarshal p receiver (h3 ++ (h2 ++ body e)) spare
        ≡ ok (decoded p receiver e (h3 ++ (h2 ++ body e)))
  unfolding unmarshal new_buffer calc_size position
  unmarshal-layout h3 h2 headers =
      rw
        (
          new_bit_array_lem 4 2 (inr (inr refl)),
          new_bit_array_lem 2 7 (inr (inl refl)),
          slice_header3 h3 h2 (body e) spare headers.length3 headers.length2,
          reader_lem 4 2 h3 headers.length3,
          slice_header2 h3 h2 (body e) spare headers.length3 headers.length2,
          reader_lem 2 7 h2 headers.length2,
          slice_body h3 h2 (body e) spare headers.length3 headers.length2,
          pop_header h3 (header3 h3 h2 headers) 0 (omega arith),
          headers.version_zero,
        )
        (rw (read64 h3 h2 headers, read32 h3 h2 headers, read_root h3 h2 headers, read_ids)
          (rw (
            enough,
            read_payload,
            read_sig.1,
            bytes_to_signature_lem e.sig valid.sig_length,
            fill_caches_lem p _ (h3 ++ (h2 ++ body e)) (
                omega
                  (arith, length-append h3 (h2 ++ body e), length-append h2 (body e), length-body)),
          )))
