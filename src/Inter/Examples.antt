-- ===== src/Inter/Examples.antt =====
-- An event of two parents, and what the theorems say of it.
use go_mini_opera.Prelude.{
  ℕ, ◌+◌, ◌/◌, ◌%◌, ◌^◌, ◌≡◌, refl, some, none, List, [], ◌∷◌, ◌++◌, true, replicate, length, arith,
}
use go_mini_opera.Fast.Buffer.Laws.{written}
use go_mini_opera.Inter.Result.{ok}
use go_mini_opera.Inter.Event.{Platform, Event, IsEvent}
use go_mini_opera.Inter.Serializer.Compact.{read_uint_compact}
use go_mini_opera.Inter.Serializer.Compact.Laws.{compact}
use go_mini_opera.Inter.Serializer.Marshal.{marshal_binary}
use go_mini_opera.Inter.Serializer.Marshal.Layout.{body, Headers}
use go_mini_opera.Inter.Serializer.Marshal.Encoding.{marshal-layout}
use go_mini_opera.Inter.Serializer.Unmarshal.{unmarshal_binary}
use go_mini_opera.Inter.Serializer.Unmarshal.Layout.{decoded}
use go_mini_opera.Inter.Serializer.Unmarshal.RoundTrip.{unmarshal_binary-marshal_binary}
use go_mini_opera.Inter.Serializer.Malleable.{
  with_upper, unmarshal_binary-with_upper, read_uint_compact_long,
}
use go_mini_opera.Inter.Build.{calc_hash_to_sign, calc_hash_to_sign-sig, build, empty_event}
use go_mini_opera.Inter.Decode.{decode_event, decode_event-build}

abbrev big_endian : ℕ → List ℕ
big_endian n = (n / 2 ^ 24 % 256) ∷ (n / 2 ^ 16 % 256) ∷ (n / 2 ^ 8 % 256) ∷ (n % 256) ∷ []

-- A platform with a poor hash.
abbrev pub platform : Platform
platform = record {
  epoch_bytes = big_endian;
  sha256 = λ b. replicate 32 (length b % 256);
  set_id = λ b h. big_endian b.epoch ++ (big_endian b.lamport ++ h);
}

abbrev pub root_id : List ℕ
root_id = 0 ∷ 0 ∷ 0 ∷ 5 ∷ replicate 28 1

abbrev other_id : List ℕ
other_id = 0 ∷ 0 ∷ 0 ∷ 5 ∷ replicate 28 2

abbrev pub event : Event
event = record {
  base = record {
    epoch = 5;
    seq = 2;
    frame = 300;
    is_root = true;
    creator = 70000;
    parents = root_id ∷ other_id ∷ [];
    lamport = 7;
    raw_time = 2 ^ 60 + 3;
    id = replicate 32 0;
  };
  version = 0;
  payload = 1 ∷ 2 ∷ 3 ∷ [];
  sig = replicate 64 9;
  size = 0;
  hash_to_sign = none;
}

pub event-IsEvent : IsEvent platform event
event-IsEvent = record {
  version_lt = omega arith;
  raw_time_lt = omega arith;
  epoch_lt = omega arith;
  seq_lt = omega arith;
  frame_lt = omega arith;
  creator_lt = omega arith;
  lamport_lt = omega arith;
  parents_lt = omega arith;
  parents_ids = ((refl, refl), ((refl, refl), tt));
  sig_length = refl;
}

unmarshal_binary-marshal_binary_example :
    (raw : List ℕ) × (marshal_binary event ≡ some raw)
    × (unmarshal_binary platform empty_event raw [] ≡ ok (decoded platform empty_event event raw))
unmarshal_binary-marshal_binary_example =
    unmarshal_binary-marshal_binary platform (λ n. refl) event empty_event [] event-IsEvent refl

decode_event-build_example :
    (raw : List ℕ) × (b : Event) × (build platform event ≡ some b)
    × (marshal_binary b ≡ some raw)
    × ((spare : List ℕ) → decode_event platform (ok (raw, spare)) ≡ ok b)
decode_event-build_example =
    decode_event-build platform (λ n. refl) (λ b i r. refl) event event-IsEvent refl refl

calc_hash_to_sign-sig_example :
    (h : List ℕ) × (calc_hash_to_sign platform event ≡ some h)
    × (calc_hash_to_sign platform (record event { sig = replicate 64 8 }) ≡ some h)
calc_hash_to_sign-sig_example =
    calc_hash_to_sign-sig platform event (replicate 64 8) event-IsEvent (omega arith) refl

marshal-layout_example :
    (h3 : List ℕ) × (h2 : List ℕ) × (marshal_binary event ≡ some (h3 ++ (h2 ++ body event)))
    × Headers event h3 h2
marshal-layout_example = marshal-layout platform event event-IsEvent (omega arith)

unmarshal_binary-with_upper_example :
    (h3 : List ℕ) × (x : ℕ) × (y : ℕ) × (marshal_binary event ≡ some (h3 ++ (x ∷ y ∷ body event)))
    × (unmarshal_binary platform empty_event (h3 ++ (x ∷ with_upper y 3 2 ∷ body event)) []
        ≡ ok (decoded platform empty_event event (h3 ++ (x ∷ with_upper y 3 2 ∷ body event))))
unmarshal_binary-with_upper_example =
    unmarshal_binary-with_upper platform (λ n. refl) event empty_event [] event-IsEvent refl refl 3
      2 (omega arith) (omega arith) (omega arith)

read_uint_compact_long_example :
    read_uint_compact
      (written [] ((compact 8 (2 ^ 60) ++ ((6 ∷ []) ++ (7 ∷ []))) ++ (1 ∷ [])) [])
      (length (compact 8 (2 ^ 60) ++ ((6 ∷ []) ++ (7 ∷ []))))
    ≡ ok (2 ^ 60, written ([] ++ (compact 8 (2 ^ 60) ++ ((6 ∷ []) ++ (7 ∷ [])))) (1 ∷ []) [])
read_uint_compact_long_example =
    read_uint_compact_long (2 ^ 60) 7 (6 ∷ []) [] (1 ∷ []) [] (omega arith) (omega arith)
      (omega arith) (omega arith)
