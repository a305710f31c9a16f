-- ===== src/Inter/Serializer/Unmarshal/RoundTrip.antt =====
-- UnmarshalBinary reads what MarshalBinary wrote.
use go_mini_opera.Prelude.{ℕ, ◌≡◌, ◌∙◌, arith, some, List, ◌++◌, length}
use go_mini_opera.Fast.BitArray.RoundTrip.{Holds}
use go_mini_opera.Inter.Result.{ok}
use go_mini_opera.Inter.Event.{Platform, Event, IsEvent}
use go_mini_opera.Inter.Serializer.Marshal.{fields32, fields_bool, marshal_binary}
use go_mini_opera.Inter.Serializer.Marshal.Layout.{sizes, flags, body, Headers}
use go_mini_opera.Inter.Serializer.Marshal.Encoding.{marshal-layout}
use go_mini_opera.Inter.Serializer.Unmarshal.{unmarshal_binary}
use go_mini_opera.Inter.Serializer.Unmarshal.Slices.{Holds-append}
use go_mini_opera.Inter.Serializer.Unmarshal.Layout.{Reads, decoded, unmarshal-layout}

split_digits :
    (e : Event) (h2 : List ℕ)
    → Holds 2 h2 0 (sizes 4 (fields32 e) ++ flags (fields_bool e))
    → Holds 2 h2 0 (sizes 4 (fields32 e)) × Holds 2 h2 6 (flags (fields_bool e))
unfolding sizes
split_digits e h2 holds = Holds-append 2 h2 0 (sizes 4 (fields32 e)) (flags (fields_bool e)) holds

-- The headers that MarshalBinary writes for version 0 are read back.
pub Headers-Reads : (e : Event) (h3 h2 : List ℕ) → e.version ≡ 0 → Headers e h3 h2 → Reads e h3 h2
unfolding flags
Headers-Reads e h3 h2 version_zero headers =
    let (numbers, root) = split_digits e h2 headers.holds2 in
    record {
      length3 = headers.length3;
      length2 = headers.length2;
      bytes3 = headers.bytes3;
      bytes2 = headers.bytes2;
      version_zero = headers.holds3.0 ∙ version_zero;
      holds3 = headers.holds3.1;
      holds2 = numbers;
      root = ground (arith, root.0);
    }

module _ (p : Platform) (length-epoch_bytes : (n : ℕ) → length (p.epoch_bytes n) ≡ 4)
    (e receiver : Event) (spare : List ℕ) (valid : IsEvent p e) (version_zero : e.version ≡ 0) where
  -- An event of version 0 within the ranges of its Go types, whose parents' ids start with the four
  -- bytes of its epoch, is encoded without a panic, and its encoding is decoded without an error to
  -- the same fields, whatever lies behind it in memory, with the length and the hash of that
  -- encoding as the caches; only the id is left as the receiver had it.
  pub unmarshal_binary-marshal_binary :
      (raw : List ℕ) × (marshal_binary e ≡ some raw)
      × (unmarshal_binary p receiver raw spare ≡ ok (decoded p receiver e raw))
  unfolding unmarshal_binary
  unmarshal_binary-marshal_binary =
      let (h3, h2, run, headers) = marshal-layout p e valid (omega arith) in
      (
        h3 ++ (h2 ++ body e),
        run,
        rw (
            unmarshal-layout p length-epoch_bytes e receiver spare valid h3 h2
              (Headers-Reads e h3 h2 version_zero headers)),
      )
