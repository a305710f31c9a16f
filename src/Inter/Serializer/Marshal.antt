-- ===== src/Inter/Serializer/Marshal.antt =====
-- MarshalBinary. The slices that the two headers and the buffer write to are disjoint parts of one
-- array of zeros, so each is a list of its own, and the result is the beginning of the three in a row.
pub mod Layout
pub mod Steps
pub mod Encoding
use go_mini_opera.Prelude.{
  ℕ, zero, suc, ◌+◌, ◌-◌, ◌*◌, ◌%◌, ◌^◌, Option, some, none, List, [], ◌∷◌, ◌++◌, Bool, leb,
  if◌then◌else◌, length, take, drop, replicate, ◌>>=◌,
}
use go_mini_opera.Prelude.Int.{pos, pred_ℤ}
use go_mini_opera.Fast.BitArray.{BitArrayWriter, new_bit_array, writer, push}
use go_mini_opera.Fast.Buffer.{Buffer, new_buffer, write, position}
use go_mini_opera.Inter.Event.{Event, hash_length}
use go_mini_opera.Inter.Serializer.Compact.{write_uint_compact}

abbrev pub fields64 : Event → List ℕ
fields64 e = e.raw_time ∷ []

abbrev pub fields32 : Event → List ℕ
fields32 e = e.epoch ∷ e.seq ∷ e.frame ∷ e.creator ∷ e.lamport ∷ (length e.parents % 2 ^ 32) ∷ []

abbrev pub fields_bool : Event → List Bool
fields_bool e = e.is_root ∷ []

-- The loop over the numbers of one width: `size` is 8 or 4.
unfoldable pub write_fields :
    ℕ → List ℕ → Buffer → BitArrayWriter → Option (Buffer × BitArrayWriter)
write_fields size [] buf header = some (buf, header)
write_fields size (v ∷ vs) buf header = do
  (buf', n) ← write_uint_compact size buf v
  header' ← push header (pred_ℤ n)
  write_fields size vs buf' header'

unfoldable pub push_flags : List Bool → BitArrayWriter → Option BitArrayWriter
push_flags [] header = some header
push_flags (f ∷ fs) header = do
  header' ← push header (pos (if f then 1 else 0))
  push_flags fs header'

-- `p.Bytes()[4:]`, without the epoch.
unfoldable pub write_parents : List (List ℕ) → Buffer → Option Buffer
write_parents [] buf = some buf
write_parents (p ∷ ps) buf = do buf' ← write buf (drop 4 p); write_parents ps buf'

-- A panic is `none`; the error that MarshalBinary returns is always nil.
unfoldable pub marshal_binary : Event → Option (List ℕ)
marshal_binary e = do
  header3 ← new_bit_array 4 (1 + length (fields64 e))
  header2 ← new_bit_array 2 (length (fields32 e) + length (fields_bool e))
  let max_bytes =
      header3.size
      + header2.size
      + length (fields64 e) * 8
      + length (fields32 e) * 4
      + length e.parents * (hash_length - 4)
      + length e.sig
      + length e.payload
  let raw = replicate {A = ℕ} max_bytes 0
  header3w ← writer header3 (take header3.size raw)
  header2w ← writer header2 (take header2.size (drop header3.size raw))
  let buf = new_buffer (drop (header3.size + header2.size) raw) []
  header3w ← push header3w (pos e.version)
  (buf, header3w) ← write_fields 8 (fields64 e) buf header3w
  (buf, header2w) ← write_fields 4 (fields32 e) buf header2w
  header2w ← push_flags (fields_bool e) header2w
  buf ← write_parents e.parents buf
  buf ← write buf e.payload
  buf ← write buf e.sig
  let length' = header3.size + header2.size + position buf
  if leb length' max_bytes
      then some (take length' (header3w.raw ++ (header2w.raw ++ buf.buf)))
      else none
