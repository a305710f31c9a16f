-- ===== src/Inter/Result.antt =====
-- Go's (value, error) pairs of inter/event_serializer.go, with panics.
use go_mini_opera.Prelude.{Option, none, some}

pub data Error : Type 0 where
  -- ErrNonCanonicalEncoding and ErrInvalidEncoding.
  non_canonical_encoding invalid_encoding : Error
  -- The two errors that are made where they are returned.
  wrong_version malformed_signature : Error
  -- An error of the rlp.Stream that DecodeRLP reads.
  stream_error : Error

pub data Result {ℓ} (A : Type ℓ) : Type ℓ where
  ok : A → Result A
  err : Error → Result A
  panic : Result A

infixl 5 ◌>>=◌
abbrev pub ◌>>=◌ {ℓ κ} : {A : Type ℓ} {B : Type κ} → Result A → (A → Result B) → Result B
ok a >>= f = f a
err e >>= f = err e
panic >>= f = panic

-- A call that may panic, among those that may fail.
abbrev pub lift {ℓ} : {A : Type ℓ} → Option A → Result A
lift none = panic
lift (some a) = ok a

-- The deferred `recover()` of UnmarshalBinary.
abbrev pub recover {ℓ} : {A : Type ℓ} → Result A → Result A
recover (ok a) = ok a
recover (err e) = err e
recover panic = err invalid_encoding
