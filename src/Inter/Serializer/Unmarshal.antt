-- ===== src/Inter/Serializer/Unmarshal.antt =====
-- UnmarshalBinary. `raw` is the input slice and `spare` what its array holds behind it: Go bounds a
-- slice expression by the capacity. The receiver's fields that the method does not set, its id, are
-- taken from `receiver`.
pub mod Steps
pub mod Slices
pub mod Layout
pub mod RoundTrip
use go_mini_opera.Prelude.{
  ℕ, zero, suc, ◌+◌, ◌-◌, ◌%◌, ◌^◌, Option, some, none, List, [], ◌∷◌, ◌++◌, Bool, not, ◌&&◌, leb,
  ltb, ◌==◌, if◌then◌else◌, length, get_or, take, drop, replicate,
}
use go_mini_opera.Fast.BitArray.{BitArrayReader, new_bit_array, reader, pop}
use go_mini_opera.Fast.Buffer.{Buffer, new_buffer, copy, read, position}
use go_mini_opera.Inter.Result.{
  Result, ok, err, wrong_version, malformed_signature, lift, recover, ◌>>=◌,
}
use go_mini_opera.Inter.Event.{
  Platform, BaseEvent, Event, sig_size, hash_length, bytes_to_signature, fill_caches,
}
use go_mini_opera.Inter.Serializer.Compact.{read_uint_compact}

-- `raw[lo:hi]` of a slice with `spare` behind it.
unfoldable pub slice : List ℕ → List ℕ → ℕ → ℕ → Option (List ℕ)
slice raw spare lo hi =
    if leb lo hi && leb hi (length raw + length spare)
    then some (take (hi - lo) (drop lo (raw ++ spare)))
    else none

-- `raw[lo:]`, which ends at the length.
unfoldable pub slice_from : List ℕ → ℕ → Option (List ℕ)
slice_from raw lo = if leb lo (length raw) then some (drop lo raw) else none

-- The loop over the pointers to the numbers of one width; `conv` is the conversion to that width.
unfoldable pub read_fields :
    (ℕ → ℕ) → ℕ → BitArrayReader → Buffer → Result (List ℕ × BitArrayReader × Buffer)
read_fields conv zero header buf = ok ([], header, buf)
read_fields conv (suc n) header buf = do
  (k, header') ← lift (pop header)
  (x, buf') ← read_uint_compact buf (k + 1)
  (xs, header'', buf'') ← read_fields conv n header' buf'
  ok (conv x ∷ xs, header'', buf'')

-- One flag: any digit but 0 is true.
unfoldable pub read_flag : BitArrayReader → Result (Bool × BitArrayReader)
read_flag header = do (k, header') ← lift (pop header); ok (not (k == 0), header')

-- An id: the first four bytes from the epoch, the others from the input.
unfoldable pub parent_id : List ℕ → List ℕ → List ℕ
parent_id epoch_bytes bs =
    (copy (replicate 4 0) epoch_bytes).0 ++ (copy (replicate (hash_length - 4) 0) bs).0

unfoldable pub read_parents : List ℕ → ℕ → Buffer → Result (List (List ℕ) × Buffer)
read_parents epoch_bytes zero buf = ok ([], buf)
read_parents epoch_bytes (suc n) buf = do
  (bs, buf') ← lift (read buf (hash_length - 4))
  (ps, buf'') ← read_parents epoch_bytes n buf'
  ok (parent_id epoch_bytes bs ∷ ps, buf'')

-- The body of the method, before the deferred recover.
unfoldable pub unmarshal : Platform → Event → List ℕ → List ℕ → Result Event
unmarshal p receiver raw spare = do
  header3 ← lift (new_bit_array 4 2)
  header2 ← lift (new_bit_array 2 7)
  raw3 ← lift (slice raw spare 0 header3.size)
  header3r ← lift (reader header3 raw3)
  raw2 ← lift (slice raw spare header3.size (header3.size + header2.size))
  header2r ← lift (reader header2 raw2)
  rest ← lift (slice_from raw (header3.size + header2.size))
  (ver, header3r) ← lift (pop header3r)
  if not (ver == 0) then err wrong_version else (do
    (times, header3r, buf) ← read_fields (λ x. x) 1 header3r (new_buffer rest spare)
    (nums, header2r, buf) ← read_fields (λ x. x % 2 ^ 32) 6 header2r buf
    (is_root, header2r) ← read_flag header2r
    let epoch = get_or nums 0 0
    (parents, buf) ← read_parents (p.epoch_bytes epoch) (get_or nums 5 0) buf
    if ltb (length rest) (position buf + sig_size) then err malformed_signature else (do
      (payload, buf) ← lift (read buf (length rest - position buf - sig_size))
      (sig, buf) ← lift (read buf sig_size)
      sig ← lift (bytes_to_signature sig)
      let base = record receiver.base {
        raw_time = get_or times 0 0;
        epoch = epoch;
        seq = get_or nums 1 0;
        frame = get_or nums 2 0;
        is_root = is_root;
        creator = get_or nums 3 0;
        lamport = get_or nums 4 0;
        parents = parents;
      }
      lift (
          fill_caches p
            (record receiver { base = base; version = ver % 256; payload = payload; sig = sig })
            raw)))

unfoldable pub unmarshal_binary : Platform → Event → List ℕ → List ℕ → Result Event
unmarshal_binary p receiver raw spare = recover (unmarshal p receiver raw spare)
