-- ===== src/Inter/Event.antt =====
-- inter/event.go and inter/signature.go: the event, its caches and its signature.
-- A hash, a signature and a byte slice are lists of bytes; the lengths stand in `IsEvent`.
use go_mini_opera.Prelude.{
  ℕ, ◌-◌, ◌<◌, ◌≤◌, ◌^◌, ◌≡◌, arith, ltb, ◌==◌, if◌then◌else◌, Option, none, some, List, length,
  take, All, replicate, Bool, ◌>>=◌,
}
use go_mini_opera.Fast.Buffer.{copy}

-- The getters and setters of dag.MutableBaseEvent, which the event embeds, are these fields.
pub record BaseEvent : Type 0 where
  pub epoch : ℕ
  pub seq : ℕ
  pub frame : ℕ
  pub is_root : Bool
  pub creator : ℕ
  pub parents : List (List ℕ)
  pub lamport : ℕ
  pub raw_time : ℕ
  pub id : List ℕ

-- An Event and a MutableEvent hold the same fields, and only the methods on offer differ.
pub record Event : Type 0 where
  pub base : BaseEvent
  pub open base use *
  pub version : ℕ
  pub payload : List ℕ
  pub sig : List ℕ
  pub size : ℕ
  pub hash_to_sign : Option (List ℕ)

-- What the package takes from lachesis-base and crypto/sha256.
pub record Platform : Type 0 where
  -- `idx.Epoch.Bytes`.
  pub epoch_bytes : ℕ → List ℕ
  -- The SHA-256 sum as a hash.Hash.
  pub sha256 : List ℕ → List ℕ
  -- The event's id after `MutableBaseEvent.SetID`.
  pub set_id : BaseEvent → List ℕ → List ℕ

abbrev pub sig_size : ℕ
sig_size = 64

-- `common.HashLength` of go-ethereum.
abbrev pub hash_length : ℕ
hash_length = 32

unfoldable pub bytes_to_signature : List ℕ → Option (List ℕ)
bytes_to_signature b = if length b == sig_size then some (copy (replicate sig_size 0) b).0 else none

unfoldable pub event_hash_to_sign : Platform → List ℕ → Option (List ℕ)
event_hash_to_sign p b =
    if ltb (length b) sig_size then none else some (p.sha256 (take (length b - sig_size) b))

unfoldable pub calc_event_id : List ℕ → List ℕ
calc_event_id h = (copy (replicate 24 0) (take 24 h)).0

-- `fillCaches`.
unfoldable pub fill_caches : Platform → Event → List ℕ → Option Event
fill_caches p e b = do
  h ← event_hash_to_sign p b
  some (record e { size = length b; hash_to_sign = some h })

abbrev pub IsByte : ℕ → Type 0
IsByte b = b < 256

-- The ranges of the Go types, and the ids of an event's parents, which start with its epoch.
pub record IsEvent (p : Platform) (e : Event) : Type 0 where
  pub version_lt : e.version < 2 ^ 8
  pub raw_time_lt : e.raw_time < 2 ^ 64
  pub epoch_lt : e.epoch < 2 ^ 32
  pub seq_lt : e.seq < 2 ^ 32
  pub frame_lt : e.frame < 2 ^ 32
  pub creator_lt : e.creator < 2 ^ 32
  pub lamport_lt : e.lamport < 2 ^ 32
  pub parents_lt : length e.parents < 2 ^ 32
  pub parents_ids :
      All (λ h. (length h ≡ hash_length) × (take 4 h ≡ p.epoch_bytes e.epoch)) e.parents
  pub sig_length : length e.sig ≡ sig_size

-- An encoding is long enough for its signature to be cut off.
pub event_hash_to_sign_lem :
    (p : Platform) (b : List ℕ)
    → sig_size ≤ length b
    → event_hash_to_sign p b ≡ some (p.sha256 (take (length b - sig_size) b))
unfolding event_hash_to_sign
event_hash_to_sign_lem p b h = ground arith

pub fill_caches_lem :
    (p : Platform) (e : Event) (b : List ℕ)
    → sig_size ≤ length b
    → fill_caches p e b
      ≡ some (record e {
        size = length b;
        hash_to_sign = some (p.sha256 (take (length b - sig_size) b));
      })
unfolding fill_caches
fill_caches_lem p e b h = rw (event_hash_to_sign_lem p b h)
