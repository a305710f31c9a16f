-- ===== src/Gossip/Blocks.antt =====
-- The callbacks of GetConsensusCallbacks in gossip/consensus_callbacks.go, with gossip/decided_state.go
-- and NewEpochPubKeys of gossip/checker_helpers.go. The order that sort.Sort makes of the confirmed
-- events, and the number of cheaters, are arguments; the emitter, the feed and the meter are told of
-- the outcome only and are left out.
pub mod Sealing
pub mod Examples
use go_mini_opera.Prelude.{
  ℕ, ◌+◌, ◌%◌, ◌^◌, Bool, not, ◌||◌, Option, none, some, List, [], ◌∷◌, ◌++◌, map, leb, ◌==◌,
  if◌then◌else◌, length,
}
use go_mini_opera.Inter.Event.{Event}
use go_mini_opera.EventCheck.Checkers.{EpochKeys}
use go_mini_opera.Utils.Migration.{str_eq}
use go_mini_opera.Gossip.Kv.{Kv}
use go_mini_opera.Gossip.Heads.{EventId}

pub record Block : Type 0 where
  pub time : ℕ
  pub atropos : EventId
  pub events : List EventId

pub record BlockState : Type 0 where
  pub block : ℕ
  pub epoch_blocks : ℕ

-- `V` is pos.Validators.
pub record EpochState (V : Type 0) : Type 0 where
  pub epoch : ℕ
  pub validators : V

-- What EndBlock reads and writes: the decided state, the blocks and the keys of the heavy checks.
pub record Decided (V : Type 0) (block_kv : Kv ℕ Block) : Type 0 where
  pub block_state : BlockState
  pub epoch_state : EpochState V
  pub blocks : block_kv.Table
  pub keys : EpochKeys

-- The variables of a block between BeginBlock and EndBlock.
pub record BlockRun : Type 0 where
  pub confirmed_events : List Event
  pub atropos : Option Event
  pub payload_size : ℕ

unfoldable pub begin_block : BlockRun
begin_block = record { confirmed_events = []; atropos = none; payload_size = 0 }

-- `ApplyEvent` of a block with this atropos.
unfoldable pub apply_event : EventId → BlockRun → Event → BlockRun
apply_event atropos r e = record {
  atropos = (if str_eq atropos e.id then some e else r.atropos);
  confirmed_events =
      (if not (length e.payload == 0) then r.confirmed_events ++ (e ∷ []) else r.confirmed_events);
  payload_size = r.payload_size + length e.payload;
}

-- `NewEpochPubKeys` of the genesis validators, ids with keys: a later entry replaces an earlier one.
unfoldable pub find_key : List (ℕ × List ℕ) → ℕ → Option (List ℕ)
find_key [] v = none
find_key ((id, key) ∷ vv) v = later_key (find_key vv v) (if id == v then some key else none)
  where
    later_key : Option (List ℕ) → Option (List ℕ) → Option (List ℕ)
    later_key none here = here
    later_key (some later) here = some later

unfoldable pub new_epoch_pub_keys : ℕ → List (ℕ × List ℕ) → EpochKeys
new_epoch_pub_keys epoch vv = record { pub_keys = find_key vv; epoch = epoch }

module _ {V : Type 0} (block_kv : Kv ℕ Block) (sort : List Event → List Event)
    (max_epoch_blocks : ℕ) (genesis_validators : List (ℕ × List ℕ)) where
  -- The branch that seals the epoch: EpochBlocks starts anew, the epoch is the next one.
  unfoldable pub seal_epoch : Decided V block_kv → Decided V block_kv
  seal_epoch s =
      let new_epoch = (s.epoch_state.epoch + 1) % 2 ^ 32 in
      record s {
        block_state = record s.block_state { epoch_blocks = 0 };
        epoch_state = record s.epoch_state { epoch = new_epoch };
        keys = new_epoch_pub_keys new_epoch genesis_validators;
      }

  -- The new block, with its number.
  unfoldable pub add_block : Decided V block_kv → Block → Decided V block_kv
  add_block s block =
      let number = (s.block_state.block + 1) % 2 ^ 64 in
      record s {
        block_state = record {
          block = number;
          epoch_blocks = (s.block_state.epoch_blocks + 1) % 2 ^ 64;
        };
        blocks = block_kv.put s.blocks number block;
      }

  -- `EndBlock`: the validators of the sealed epoch, or none; without its atropos it panics.
  unfoldable pub end_block :
      EventId → ℕ → BlockRun → Decided V block_kv → Option (Option V × Decided V block_kv)
  end_block atropos cheaters r s = elim r.atropos [
    | none ↦ none
    | some a ↦
        let t = add_block s (record {
          time = a.raw_time;
          atropos = atropos;
          events = map (λ (e : Event). e.id) (sort r.confirmed_events);
        }) in
        some (
          if leb max_epoch_blocks t.block_state.epoch_blocks || not (cheaters == 0)
          then (some t.epoch_state.validators, seal_epoch t)
          else (none, t))
  ]
