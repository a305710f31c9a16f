-- ===== src/Inter/Build.antt =====
-- The rest of inter/event.go and DecodeRLP of inter/event_serializer.go: hashes to sign, ids, Build.
use go_mini_opera.Prelude.{
  ℕ, ◌+◌, ◌-◌, ◌<◌, ◌≤◌, ◌≡◌, refl, sym, ap, ◌∙◌, arith, ◌==◌, if◌then◌else◌, Option, none, some,
  List, [], ◌++◌, length, take, replicate, Bool, true, false, ◌>>=◌, length-append, append_assoc,
  not,
}
use go_mini_opera.Fast.Buffer.Laws.{take_exact}
use go_mini_opera.Fast.BitArray.{BitArrayWriter}
use go_mini_opera.Inter.Event.{
  Platform, Event, IsEvent, event_hash_to_sign, event_hash_to_sign_lem, calc_event_id, fill_caches,
  fill_caches_lem,
}
use go_mini_opera.Inter.Serializer.Marshal.{marshal_binary}
use go_mini_opera.Inter.Serializer.Marshal.Layout.{body, unsigned, body-unsigned, Headers}
use go_mini_opera.Inter.Serializer.Marshal.Encoding.{marshal-layout}

-- The unexported `hashToSign`, which `HashToSign` of a MutableEvent returns.
unfoldable pub calc_hash_to_sign : Platform → Event → Option (List ℕ)
calc_hash_to_sign p e = do b ← marshal_binary e; event_hash_to_sign p b

-- The unexported `size`, which `Size` of a MutableEvent returns.
unfoldable pub calc_size_of : Event → Option ℕ
calc_size_of e = do b ← marshal_binary e; some (length b)

-- The hash that Build makes the id of: the cached one, if there is one.
unfoldable pub cached_or_calc : Platform → Event → Option (List ℕ) → Option (List ℕ)
cached_or_calc p e (some h) = some h
cached_or_calc p e none = calc_hash_to_sign p e

unfoldable pub is_cached : ℕ → Option (List ℕ) → Bool
is_cached size none = false
is_cached size (some h) = not (size == 0)

unfoldable pub build : Platform → Event → Option Event
build p e = do
  h ← cached_or_calc p e e.hash_to_sign
  let c = record e { base = record e.base { id = p.set_id e.base (calc_event_id h) } }
  if is_cached c.size c.hash_to_sign then some c else (do b ← marshal_binary e; fill_caches p c b)

-- `MutableEvent{}`.
abbrev pub empty_event : Event
empty_event = record {
  base = record {
    epoch = 0;
    seq = 0;
    frame = 0;
    is_root = false;
    creator = 0;
    parents = [];
    lamport = 0;
    raw_time = 0;
    id = replicate 32 0;
  };
  version = 0;
  payload = [];
  sig = replicate 64 0;
  size = 0;
  hash_to_sign = none;
}

-- The id and the caches are not encoded.
pub marshal_binary-caches :
    (e : Event) (i : List ℕ) (n : ℕ) (h : Option (List ℕ))
    → marshal_binary (record e { base = record e.base { id = i }; size = n; hash_to_sign = h })
      ≡ marshal_binary e
unfolding marshal_binary
marshal_binary-caches e i n h = refl

-- The bytes of an encoding before its signature.
pub unsigned_part :
    (p : Platform) (e : Event) (h3 h2 : List ℕ)
    → IsEvent p e
    → (take (length (h3 ++ (h2 ++ body e)) - 64) (h3 ++ (h2 ++ body e)) ≡ h3 ++ (h2 ++ unsigned e))
      × (64 ≤ length (h3 ++ (h2 ++ body e)))
unsigned_part p e h3 h2 valid =
    let whole : h3 ++ (h2 ++ body e) ≡ (h3 ++ (h2 ++ unsigned e)) ++ e.sig =
      simp (body-unsigned e, append_assoc) in
    let size : length (h3 ++ (h2 ++ body e)) ≡ length (h3 ++ (h2 ++ unsigned e)) + 64 =
      ap length whole
      ∙ length-append (h3 ++ (h2 ++ unsigned e)) e.sig
      ∙ ap (λ t. length (h3 ++ (h2 ++ unsigned e)) + t) valid.sig_length in
    (
      ap (λ t. take (length (h3 ++ (h2 ++ body e)) - 64) t) whole
          ∙ take_exact _ _ e.sig (omega (arith, size)),
      omega (arith, size),
    )

abbrev raw_of : Option BitArrayWriter → List ℕ
raw_of none = []
raw_of (some w) = w.raw

-- The fields that the headers come from determine them: the signature is not among them.
Headers-same :
    (e : Event) (s : List ℕ) (h3 h2 h3' h2' : List ℕ)
    → Headers e h3 h2
    → Headers (record e { sig = s }) h3' h2'
    → (h3' ≡ h3) × (h2' ≡ h2)
Headers-same e s h3 h2 h3' h2' a b =
    (ap raw_of (sym b.run3 ∙ a.run3), ap raw_of (sym b.run2 ∙ a.run2))

module _ (p : Platform) (e : Event) (valid : IsEvent p e) (small : e.version < 16) where
  calc_hash_to_sign_lem :
      (h3 : List ℕ) × (h2 : List ℕ) × (marshal_binary e ≡ some (h3 ++ (h2 ++ body e)))
      × Headers e h3 h2
      × (calc_hash_to_sign p e ≡ some (p.sha256 (h3 ++ (h2 ++ unsigned e))))
  unfolding calc_hash_to_sign
  calc_hash_to_sign_lem =
      let (h3, h2, run, headers) = marshal-layout p e valid small in
      let (part, long) = unsigned_part p e h3 h2 valid in
      (h3, h2, run, headers, rw (run, event_hash_to_sign_lem p _ long, part) refl)

pub marshal_binary_long :
    (p : Platform) (e : Event)
    → IsEvent p e
    → e.version < 16
    → (raw : List ℕ) × (marshal_binary e ≡ some raw) × (64 ≤ length raw)
marshal_binary_long p e valid small =
    let (h3, h2, run, headers) = marshal-layout p e valid small in
    (_, run, (unsigned_part p e h3 h2 valid).1)

signed_again :
    (p : Platform) (e : Event) (s : List ℕ)
    → IsEvent p e
    → length s ≡ 64
    → IsEvent p (record e { sig = s })
signed_again p e s valid size = record {
  version_lt = valid.version_lt;
  raw_time_lt = valid.raw_time_lt;
  epoch_lt = valid.epoch_lt;
  seq_lt = valid.seq_lt;
  frame_lt = valid.frame_lt;
  creator_lt = valid.creator_lt;
  lamport_lt = valid.lamport_lt;
  parents_lt = valid.parents_lt;
  parents_ids = valid.parents_ids;
  sig_length = size;
}

unsigned-sig : (e : Event) (s : List ℕ) → unsigned (record e { sig = s }) ≡ unsigned e
unfolding unsigned
unsigned-sig e s = refl

-- The hash to sign of an event within the ranges of its Go types, of a version below 16, exists and
-- is the same for every signature of 64 bytes that the event carries.
pub calc_hash_to_sign-sig :
    (p : Platform) (e : Event) (s : List ℕ)
    → IsEvent p e
    → e.version < 16
    → length s ≡ 64
    → (h : List ℕ) × (calc_hash_to_sign p e ≡ some h)
      × (calc_hash_to_sign p (record e { sig = s }) ≡ some h)
calc_hash_to_sign-sig p e s valid small size =
    let (h3, h2, run, headers, sum) = calc_hash_to_sign_lem p e valid small in
    let (h3', h2', run', headers', sum') =
      calc_hash_to_sign_lem p (record e { sig = s }) (signed_again p e s valid size) small in
    let (same3, same2) = Headers-same e s h3 h2 h3' h2' headers headers' in
    (_, sum, rw (sum', same3, same2, unsigned-sig e s) refl)

-- What Build makes of an event with these encoded bytes.
abbrev pub built : Platform → Event → List ℕ → Event
built p e raw = record e {
  base = record e.base {
    id = p.set_id e.base (calc_event_id (p.sha256 (take (length raw - 64) raw)));
  };
  size = length raw;
  hash_to_sign = some (p.sha256 (take (length raw - 64) raw));
}

fresh_hash :
    (p : Platform) (e : Event) (raw : List ℕ)
    → e.hash_to_sign ≡ none
    → marshal_binary e ≡ some raw
    → 64 ≤ length raw
    → cached_or_calc p e e.hash_to_sign ≡ some (p.sha256 (take (length raw - 64) raw))
unfolding cached_or_calc calc_hash_to_sign
fresh_hash p e raw fresh run long =
    ap (cached_or_calc p e) fresh ∙ (rw run (event_hash_to_sign_lem p raw long))

not_cached : (e : Event) → e.hash_to_sign ≡ none → is_cached e.size e.hash_to_sign ≡ false
unfolding is_cached
not_cached e fresh = ap (is_cached e.size) fresh

-- Build of an event that has no cached hash yet.
pub build_lem :
    (p : Platform) (e : Event) (raw : List ℕ)
    → e.hash_to_sign ≡ none
    → marshal_binary e ≡ some raw
    → 64 ≤ length raw
    → build p e ≡ some (built p e raw)
unfolding build
build_lem p e raw fresh run long =
    rw (fresh_hash p e raw fresh run long, not_cached e fresh, run, fill_caches_lem p _ raw long)
      refl

-- Build of an event whose caches are set gives only the id.
pub build_cached :
    (p : Platform) (e : Event) (h : List ℕ)
    → e.hash_to_sign ≡ some h
    → 0 < e.size
    → build p e
      ≡ some (record e { base = record e.base { id = p.set_id e.base (calc_event_id h) } })
unfolding build cached_or_calc is_cached
build_cached p e h set nonzero =
    let found : cached_or_calc p e e.hash_to_sign ≡ some h = ap (cached_or_calc p e) set in
    let whole : is_cached e.size e.hash_to_sign ≡ true = ap (is_cached e.size) set ∙ ground arith in
    rw (found, whole) refl
