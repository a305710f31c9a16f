-- ===== src/Gossip/Emitter.antt =====
-- gossip/emitter/emitter.go: the creation of events. A time is a number of nanoseconds below 2 ^ 63.
-- What the emitter reads of the node while it holds the engine's lock is the record World; a
-- process that ends or a panic is `none`. The meter and the test payload are left out.
pub mod Creation
pub mod Examples
use go_mini_opera.Prelude.{
  ℕ, zero, suc, ◌+◌, ◌-◌, ◌*◌, ◌%◌, ◌^◌, ◌>>=◌, Bool, true, false, not, ◌&&◌, ◌||◌, Option, none,
  some, List, [], ◌∷◌, ltb, leb, ◌==◌, if◌then◌else◌, length, take, replicate,
}
use go_mini_opera.Inter.Event.{Event, BaseEvent, Platform, bytes_to_signature, sig_size}
use go_mini_opera.Inter.Build.{calc_hash_to_sign, build, empty_event}
use go_mini_opera.Utils.Migration.{str_eq}
use go_mini_opera.Gossip.Heads.{EventId}

pub record EmitterConfig : Type 0 where
  pub validator : ℕ
  pub epoch_tail_length : ℕ
  pub min_interval : ℕ
  pub max_interval : ℕ
  pub doublesign_protection : ℕ
  pub max_epoch_blocks : ℕ

pub record World : Type 0 where
  -- `world.Store`.
  pub last_event : ℕ → Option EventId
  pub stored_event : EventId → Option Event
  pub world_epoch : ℕ
  -- `ancestor.FindBestParents`, with the heads and the strategy.
  pub best_parents : Option EventId → List EventId
  -- `world.Build`, which fails or sets the consensus fields.
  pub consensus_build : Event → Option Event
  -- `crypto.Sign` with the private key.
  pub signature_of : List ℕ → Option (List ℕ)
  -- Whether `world.Checkers` is nil or its Validate returns nil.
  pub passes_checks : Event → List Event → Bool
  -- What `doublesign.SyncedToEmit` says.
  pub synced_to_emit : Bool
  pub now : ℕ

pub record EmitterState : Type 0 where
  pub prev_emitted_time : ℕ
  pub prev_local_emitted_id : EventId
  pub external_created : ℕ
  pub external_detected : ℕ

-- `isSyncedToEmit`: protection of 0 is disabled.
unfoldable pub is_synced_to_emit : EmitterConfig → World → Bool
is_synced_to_emit config world =
    if config.doublesign_protection == 0 then true else world.synced_to_emit

-- `loadPrevEmitTime`.
unfoldable pub load_prev_emit_time : EmitterConfig → World → ℕ → ℕ
load_prev_emit_time config world prev =
    if config.validator == 0 then prev else elim (world.last_event config.validator) [
      | none ↦ prev
      | some id ↦ elim (world.stored_event id) [ none ↦ prev | some e ↦ e.raw_time ]
    ]

-- The loop over the parents: a missing one ends the process.
unfoldable pub parent_events : (EventId → Option Event) → List EventId → Option (List Event)
parent_events stored [] = some []
parent_events stored (p ∷ ps) = do e ← stored p; es ← parent_events stored ps; some (e ∷ es)

unfoldable pub max_lamport : ℕ → List Event → ℕ
max_lamport max [] = max
max_lamport max (e ∷ es) = max_lamport (if ltb max e.lamport then e.lamport else max) es

-- `selfParentSeq` and `selfParentTime`; without parents, `parentEvents[0]` panics.
unfoldable pub self_parent_fields : Option EventId → List Event → Option (ℕ × ℕ)
self_parent_fields none parents = some (0, 0)
self_parent_fields (some id) [] = none
self_parent_fields (some id) (self_parent ∷ parents) = some (self_parent.seq, self_parent.raw_time)

-- `inter.MaxTimestamp`.
abbrev pub max_timestamp : ℕ → ℕ → ℕ
max_timestamp x y = if ltb y x then x else y

-- The event before the consensus fields are set.
unfoldable pub new_event :
    EmitterConfig → World → (seq time lamport : ℕ) → List EventId → List ℕ → Event
new_event config world self_parent_seq self_parent_time lamport parents payload =
    record empty_event {
      payload = payload;
      base = record empty_event.base {
        epoch = world.world_epoch;
        seq = (self_parent_seq + 1) % 2 ^ 32;
        creator = config.validator;
        parents = parents;
        lamport = (lamport + 1) % 2 ^ 32;
        raw_time = max_timestamp world.now ((self_parent_time + 1) % 2 ^ 64);
      };
    }

-- `isEpochTail`; an idx.Frame is an uint32.
unfoldable pub is_epoch_tail : EmitterConfig → Event → Bool
is_epoch_tail config e =
    leb ((config.max_epoch_blocks % 2 ^ 32 + (2 ^ 32 - config.epoch_tail_length)) % 2 ^ 32) e.frame

-- `isAllowedToEmit`.
unfoldable pub is_allowed_to_emit : EmitterConfig → EmitterState → Event → Bool
is_allowed_to_emit config s e = not (
    ltb e.raw_time (s.prev_emitted_time + config.max_interval)
    && (length e.payload == 0 && not (is_epoch_tail config e)))

-- Building and checking with what crypto.Sign returns.
unfoldable pub build_signed :
    Platform → World → Event → List Event → Option (List ℕ) → Option (Option Event)
build_signed platform world e parents none = some none
build_signed platform world e parents (some sig_rsv) = do
  sig ← bytes_to_signature (take sig_size sig_rsv)
  event ← build platform (record e { sig = sig })
  some (if world.passes_checks event parents then some event else none)

unfoldable pub sign_and_build : Platform → World → Event → List Event → Option (Option Event)
sign_and_build platform world e parents = do
  h ← calc_hash_to_sign platform e
  build_signed platform world e parents (world.signature_of h)

-- The part of createEvent behind world.Build, of what this returns.
unfoldable pub finish_event :
    Platform
    → EmitterConfig
    → World
    → EmitterState
    → List Event
    → Option Event
    → Option (Option Event)
finish_event platform config world s parents none = some none
finish_event platform config world s parents (some e) =
    if is_allowed_to_emit config s e then sign_and_build platform world e parents else some none

-- `createEvent`: nil is `some none`.
unfoldable pub create_event :
    Platform → EmitterConfig → World → EmitterState → List ℕ → Option (Option Event)
create_event platform config world s payload =
    let self_parent = world.last_event config.validator in
    let ids = world.best_parents self_parent in
    if config.validator == 0 || not (is_synced_to_emit config world) then some none else (do
      parents ← parent_events world.stored_event ids
      fields ← self_parent_fields self_parent parents
      finish_event platform config world s parents (
          world.consensus_build
            (new_event config world fields.0 fields.1 (max_lamport 0 parents) ids payload)))

-- An event that was processed, or not.
abbrev pub emitted : (Event → Bool) → EmitterState → Option Event → Option Event × EmitterState
emitted process s none = (none, s)
emitted process s (some e) =
    let tried = record s { prev_local_emitted_id = e.id } in
    if process e then (some e, record tried { prev_emitted_time = e.raw_time }) else (none, tried)

-- `EmitEvent`; `process` says whether world.ProcessEvent returns nil.
unfoldable pub emit_event :
    Platform
    → EmitterConfig
    → World
    → (process : Event → Bool) → EmitterState
    → List ℕ
    → Option (Option Event × EmitterState)
emit_event platform config world process s payload =
    if config.validator == 0
    then some (none, s)
    else (do e ← create_event platform config world s payload; some (emitted process s e))

-- `OnNewEvent`; `parallel` says whether doublesign.DetectParallelInstance stops the node.
unfoldable pub on_new_event :
    EmitterConfig
    → (parallel : EmitterState → Bool) → ℕ
    → EmitterState
    → Event
    → Option EmitterState
on_new_event config parallel now s e =
    let external = record s { external_detected = now; external_created = e.raw_time } in
    if (config.validator == 0 || not (config.validator == e.creator))
      || str_eq s.prev_local_emitted_id e.id
    then some s
    else (if parallel external then none else some external)
