-- ===== src/Gossip/Emitter/Examples.antt =====
-- A validator that emits its second event, over its first one and another validator's.
use go_mini_opera.Prelude.{
  ◌≡◌, refl, subst, true, Option, none, some, [], ◌∷◌, replicate, if◌then◌else◌, Bool-cases, inl,
  inr, arith,
}
use go_mini_opera.Fast.BitArray.{new_bit_array, writer, calc_size, push, next_part}
use go_mini_opera.Fast.Buffer.{copy, write_byte, new_buffer, write, position}
use go_mini_opera.Inter.Event.{
  Event, fill_caches, calc_event_id, event_hash_to_sign, bytes_to_signature,
}
use go_mini_opera.Inter.Build.{empty_event, calc_hash_to_sign, build, cached_or_calc, is_cached}
use go_mini_opera.Inter.Serializer.Marshal.{marshal_binary, write_fields, push_flags, write_parents}
use go_mini_opera.Inter.Serializer.Compact.{write_uint_compact}
use go_mini_opera.Inter.Examples.{platform}
use go_mini_opera.Utils.Migration.{str_eq}
use go_mini_opera.Gossip.Heads.{EventId}
use go_mini_opera.Gossip.Emitter.{
  EmitterConfig, World, EmitterState, emit_event, create_event, is_synced_to_emit, parent_events,
  self_parent_fields, max_lamport, new_event, finish_event, is_allowed_to_emit, is_epoch_tail,
  sign_and_build, build_signed,
}
use go_mini_opera.Gossip.Emitter.Creation.{
  Follows, SameFields, some_injective, IsInRange, emit_event-Follows,
}

abbrev own_id : EventId
own_id = 0 ∷ 0 ∷ 0 ∷ 5 ∷ replicate 28 1

abbrev other_id : EventId
other_id = 0 ∷ 0 ∷ 0 ∷ 5 ∷ replicate 28 2

abbrev own : Event
own = record empty_event {
  base = record empty_event.base {
    epoch = 5;
    seq = 1;
    creator = 1;
    lamport = 2;
    raw_time = 40;
    id = own_id;
  };
}

abbrev other : Event
other = record empty_event {
  base = record empty_event.base {
    epoch = 5;
    seq = 4;
    creator = 2;
    lamport = 7;
    raw_time = 30;
    id = other_id;
  };
}

abbrev stored : EventId → Option Event
stored id = if str_eq id own_id then some own else (if str_eq id other_id then some other else none)

abbrev config : EmitterConfig
config = record {
  validator = 1;
  epoch_tail_length = 3;
  min_interval = 1;
  max_interval = 9;
  doublesign_protection = 0;
  max_epoch_blocks = 100;
}

abbrev world : World
world = record {
  last_event = λ v. some own_id;
  stored_event = stored;
  world_epoch = 5;
  best_parents = λ self_parent. own_id ∷ other_id ∷ [];
  consensus_build = λ e. some e;
  signature_of = λ h. some (replicate 65 7);
  passes_checks = λ e parents. true;
  synced_to_emit = true;
  now = 35;
}

abbrev state : EmitterState
state = record {
  prev_emitted_time = 40;
  prev_local_emitted_id = own_id;
  external_created = 0;
  external_detected = 0;
}

abbrev made : Event
made = record empty_event {
  base = record empty_event.base {
    epoch = 5;
    seq = 2;
    creator = 1;
    parents = own_id ∷ other_id ∷ [];
    lamport = 8;
    raw_time = 41;
    id = 0 ∷ 0 ∷ 0 ∷ 5 ∷ 0 ∷ 0 ∷ 0 ∷ 8 ∷ replicate 24 67;
  };
  payload = 9 ∷ [];
  sig = replicate 64 7;
  size = 131;
  hash_to_sign = some (replicate 32 67);
}

made_run :
    emit_event platform config world (λ e. true) state (9 ∷ [])
    ≡ some (some made, record state { prev_emitted_time = 41; prev_local_emitted_id = made.id })
unfolding emit_event create_event is_synced_to_emit parent_events self_parent_fields max_lamport
    new_event finish_event is_allowed_to_emit is_epoch_tail sign_and_build build_signed
    calc_hash_to_sign build cached_or_calc is_cached fill_caches calc_event_id event_hash_to_sign
    bytes_to_signature str_eq copy marshal_binary new_bit_array writer calc_size push next_part
    write_fields write_uint_compact write_byte new_buffer push_flags write_parents write position
made_run = refl

stored_ranges : (id : EventId) (q : Event) → stored id ≡ some q → IsInRange q
stored_ranges id q found = elim (Bool-cases (str_eq id own_id)) [
  | inl same ↦
      let e : own ≡ q = some_injective (rw same at found) in
      subst IsInRange e (omega arith, omega arith, omega arith)
  | inr differ ↦ elim (Bool-cases (str_eq id other_id)) [
    | inl same ↦
        let e : other ≡ q = some_injective (rw (differ, same) at found) in
        subst IsInRange e (omega arith, omega arith, omega arith)
    | inr unknown ↦ let nothing = rw (differ, unknown) at found in absurd cc
  ]
]

emit_event-Follows_example :
    Follows config world (9 ∷ []) made
    × (true ≡ true)
    × (record state { prev_emitted_time = 41; prev_local_emitted_id = made.id }
        ≡ record state { prev_local_emitted_id = made.id; prev_emitted_time = made.raw_time })
emit_event-Follows_example =
    emit_event-Follows platform config world (λ e. true) state (9 ∷ [])
      (λ a b e.
        subst (λ z. SameFields a z) (some_injective e) (refl, refl, refl, refl, refl, refl, refl))
      stored_ranges made_run
