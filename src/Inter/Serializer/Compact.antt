-- ===== src/Inter/Serializer/Compact.antt =====
-- writeUintCompact and readUintCompact: a number in as few bytes as it needs, lowest first.
pub mod Laws
use go_mini_opera.Prelude.{
  ℕ, zero, suc, ◌+◌, ◌*◌, ◌/◌, ◌%◌, ◌^◌, Option, some, List, [], ◌∷◌, ltb, ◌==◌, ◌&&◌,
  if◌then◌else◌,
}
use go_mini_opera.Prelude
use go_mini_opera.Fast.Buffer.{Buffer, write_byte, read}
use go_mini_opera.Inter.Result.{Result, ok, err, non_canonical_encoding, lift, ◌>>=◌}

-- The first argument counts the rounds that are left.
unfoldable pub write_uint_compact : ℕ → Buffer → ℕ → Option (Buffer × ℕ)
write_uint_compact zero buf v = some (buf, 0)
write_uint_compact (suc size) buf v = Prelude.◌>>=◌ (write_byte buf (v % 256)) λ buf'.
    let more = Prelude.◌>>=◌ (write_uint_compact size buf' (v / 256)) λ r. some (r.0, r.1 + 1) in
    if v / 256 == 0 then some (buf', 1) else more

-- The loop over the bytes read, from index `i` on, with the sum so far and the last byte.
unfoldable pub sum_bytes : ℕ → ℕ → ℕ → List ℕ → ℕ × ℕ
sum_bytes i v last [] = (v, last)
sum_bytes i v last (b ∷ bs) = sum_bytes (i + 1) ((v + b * 2 ^ (8 * i) % 2 ^ 64) % 2 ^ 64) b bs

unfoldable pub read_uint_compact : Buffer → ℕ → Result (ℕ × Buffer)
read_uint_compact buf bytes = do
  (bs, buf') ← lift (read buf bytes)
  let (v, last) = sum_bytes 0 0 0 bs
  if ltb 1 bytes && last == 0 then err non_canonical_encoding else ok (v, buf')
