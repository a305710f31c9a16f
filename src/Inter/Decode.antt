-- ===== src/Inter/Decode.antt =====
-- DecodeRLP of inter/event_serializer.go, with what the stream yields as an argument.
use go_mini_opera.Prelude.{ℕ, ◌<◌, ◌≡◌, refl, sym, ap, ◌∙◌, arith, none, some, List, length}
use go_mini_opera.Inter.Result.{Result, ok, lift, ◌>>=◌}
use go_mini_opera.Inter.Event.{Platform, BaseEvent, Event, IsEvent}
use go_mini_opera.Inter.Serializer.Marshal.{marshal_binary}
use go_mini_opera.Inter.Serializer.Unmarshal.{unmarshal_binary}
use go_mini_opera.Inter.Serializer.Unmarshal.Layout.{decoded}
use go_mini_opera.Inter.Serializer.Unmarshal.RoundTrip.{unmarshal_binary-marshal_binary}
use go_mini_opera.Inter.Build.{
  build, built, empty_event, build_lem, build_cached, marshal_binary-caches, marshal_binary_long,
}

-- `(*MutableEvent).DecodeRLP`, on what `src.Bytes()` returns: the bytes and what lies behind them.
unfoldable pub decode_mutable : Platform → Event → Result (List ℕ × List ℕ) → Result Event
decode_mutable p receiver src = do (raw, spare) ← src; unmarshal_binary p receiver raw spare

-- `(*Event).DecodeRLP`.
unfoldable pub decode_event : Platform → Result (List ℕ × List ℕ) → Result Event
decode_event p src = do e ← decode_mutable p empty_event src; lift (build p e)

module _ (p : Platform) (length-epoch_bytes : (n : ℕ) → length (p.epoch_bytes n) ≡ 4)
    (set_id-id : (b : BaseEvent) (i r : List ℕ)
      → p.set_id (record b { id = i }) r ≡ p.set_id b r) where
  decode_built :
      (e : Event) (raw spare : List ℕ)
      → 0 < length raw
      → e.version ≡ 0
      → unmarshal_binary p empty_event raw spare ≡ ok (decoded p empty_event e raw)
      → decode_event p (ok (raw, spare)) ≡ ok (built p e raw)
  unfolding decode_event decode_mutable
  decode_built e raw spare nonempty version_zero run =
      rw (run, build_cached p (decoded p empty_event e raw) _ refl nonempty, set_id-id e.base)
        (ap (λ v. ok (record (built p e raw) { version = v })) (sym version_zero))

  -- An event of version 0 within the ranges of its Go types, with no cached hash, whose parents'
  -- ids start with the four bytes of its epoch, is completed by Build, and what Build returns is
  -- encoded to bytes from which DecodeRLP makes the same event, with all its fields, its id and its
  -- caches, given that SetID does not depend on the id that was there.
  pub decode_event-build :
      (e : Event)
      → IsEvent p e
      → e.version ≡ 0
      → e.hash_to_sign ≡ none
      → (raw : List ℕ) × (b : Event) × (build p e ≡ some b)
        × (marshal_binary b ≡ some raw)
        × ((spare : List ℕ) → decode_event p (ok (raw, spare)) ≡ ok b)
  decode_event-build e valid version_zero fresh =
      let (raw, run, long) = marshal_binary_long p e valid (omega arith) in
      (
        raw,
        built p e raw,
        build_lem p e raw fresh run long,
        marshal_binary-caches e _ _ _ ∙ run,
        λ spare.
            let (raw', run', back) =
              unmarshal_binary-marshal_binary p length-epoch_bytes e empty_event spare valid
                version_zero in
            let same : raw' ≡ raw = cc in
            decode_built e raw spare (omega arith) version_zero (rw same at back),
      )
