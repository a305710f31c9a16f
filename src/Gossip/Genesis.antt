-- ===== src/Gossip/Genesis.antt =====
-- gossip/apply_genesis.go with miniopera/genesis/validators.go. The bytes of an id and of a stake, the
-- SHA-256 sum as a hash, and the validators that a builder makes come from lachesis-base, math/big and
-- crypto/sha256. An amount of stake is not negative. A missing state of the store is `none`.
pub mod Digest
pub mod Applying
pub mod Examples
use go_mini_opera.Prelude.{
  ℕ, ◌+◌, ◌%◌, ◌^◌, Bool, true, false, Option, none, some, List, [], ◌∷◌, ◌++◌, map, length,
  if◌then◌else◌, ◌>>=◌,
}
use go_mini_opera.Inter.Event.{Event, Platform}
use go_mini_opera.Inter.Build.{empty_event, build}
use go_mini_opera.Utils.Migration.{str_eq}
use go_mini_opera.Gossip.Kv.{Kv}
use go_mini_opera.Gossip.Heads.{EventId}
use go_mini_opera.Gossip.Blocks.{Block, BlockState, EpochState}

pub record GenesisValidator : Type 0 where
  pub validator_id : ℕ
  pub pub_key : List ℕ
  pub stake : ℕ

pub record GenesisBase (V : Type 0) : Type 0 where
  -- `idx.ValidatorID.Bytes`, `big.Int.Bytes` and `sha256`.
  pub id_bytes : ℕ → List ℕ
  pub stake_bytes : ℕ → List ℕ
  pub digest : List ℕ → List ℕ
  -- `pos.NewBigBuilder` after a Set of each id and stake, built.
  pub build_validators : List (ℕ × ℕ) → V
  -- `abft.FirstEpoch`.
  pub first_epoch : ℕ

-- What is written to the hasher for the validators.
unfoldable pub hashed_bytes : {V : Type 0} → GenesisBase V → List GenesisValidator → List ℕ
hashed_bytes g [] = []
hashed_bytes g (v ∷ vv) =
    g.id_bytes v.validator_id
    ++ (v.pub_key
        ++ ((length (g.stake_bytes v.stake) % 2 ^ 8 ∷ g.stake_bytes v.stake) ++ hashed_bytes g vv))

-- `Validators.Hash` and `Validators.Build`.
unfoldable pub validators_hash : {V : Type 0} → GenesisBase V → List GenesisValidator → List ℕ
validators_hash g vv = g.digest (hashed_bytes g vv)

unfoldable pub validators_build : {V : Type 0} → GenesisBase V → List GenesisValidator → V
validators_build g vv =
    g.build_validators (map (λ (v : GenesisValidator). (v.validator_id, v.stake)) vv)

-- The parts of miniopera.Config that are read here.
pub record NetConfig : Type 0 where
  pub validators : List GenesisValidator
  pub genesis_time : ℕ
  pub extra_data : List ℕ
  pub max_epoch_blocks : ℕ

-- What applying a genesis reads and writes of the store.
pub record GenesisStore (V : Type 0) (block_kv : Kv ℕ Block) : Type 0 where
  pub blocks : block_kv.Table
  pub epoch_state : Option (EpochState V)
  pub block_state : Option BlockState

-- The results of ApplyGenesis: the atropos, which is the state too, with whether it is new, or a
-- GenesisMismatchError.
pub data GenesisResult : Type 0 where
  applied : EventId → Bool → GenesisResult
  mismatch : (stored_id new_id : EventId) → GenesisResult

module _ {V : Type 0} (p : Platform) (g : GenesisBase V) where
  -- The event whose id is the atropos of the genesis.
  unfoldable pub genesis_event : NetConfig → Event
  genesis_event net = record empty_event {
    base = record empty_event.base {
      epoch = 0;
      lamport = net.max_epoch_blocks % 2 ^ 32;
      raw_time = net.genesis_time;
    };
    payload = net.extra_data ++ validators_hash g net.validators;
  }

  -- `prettyHash`; without an encoding Build panics.
  unfoldable pub pretty_hash : NetConfig → Option EventId
  pretty_hash net = build p (genesis_event net) >>= λ e. some e.id

  module _ (block_kv : Kv ℕ Block) where
    -- The unexported `applyGenesis`.
    unfoldable pub write_genesis :
        NetConfig → GenesisStore V block_kv → Option (EventId × GenesisStore V block_kv)
    write_genesis net s = pretty_hash net >>= λ atropos. some (
      atropos,
      record {
        blocks =
            block_kv.put s.blocks 0
              (record { time = net.genesis_time; atropos = atropos; events = atropos ∷ [] });
        epoch_state =
            some (record { epoch = g.first_epoch; validators = validators_build g net.validators });
        block_state = some (record { block = 0; epoch_blocks = 0 });
      },
    )

    -- `calcGenesisHash`, which applies the genesis to a store in memory.
    unfoldable pub calc_genesis_hash : GenesisStore V block_kv → NetConfig → Option EventId
    calc_genesis_hash mem net = write_genesis net mem >>= λ (atropos, s). some atropos

    -- `ApplyGenesis` with a block 0 in the store, or without one.
    unfoldable pub apply_genesis_over :
        GenesisStore V block_kv
        → NetConfig
        → GenesisStore V block_kv
        → Option Block
        → Option (GenesisResult × GenesisStore V block_kv)
    apply_genesis_over mem net s (some stored) = calc_genesis_hash mem net >>= λ new_hash. some (
      (if str_eq stored.atropos new_hash
          then applied stored.atropos false
          else mismatch stored.atropos new_hash),
      s,
    )
    apply_genesis_over mem net s none =
        write_genesis net s >>= λ (atropos, s'). some (applied atropos true, s')

    -- `ApplyGenesis`, with the store that NewMemStore makes.
    unfoldable pub apply_genesis :
        GenesisStore V block_kv
        → NetConfig
        → GenesisStore V block_kv
        → Option (GenesisResult × GenesisStore V block_kv)
    apply_genesis mem net s = apply_genesis_over mem net s (block_kv.get s.blocks 0)
