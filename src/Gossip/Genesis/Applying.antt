-- ===== src/Gossip/Genesis/Applying.antt =====
-- A genesis is applied once, and checked from then on.
use go_mini_opera.Prelude.{
  ℕ, ◌^◌, ◌<◌, ◌≡◌, refl, ap, ◌∙◌, true, false, none, some, [], ◌∷◌, if◌then◌else◌, arith,
}
use go_mini_opera.Inter.Event.{Platform, IsEvent}
use go_mini_opera.Inter.Build.{built, build_lem, marshal_binary_long}
use go_mini_opera.Utils.Migration.{str_eq}
use go_mini_opera.Utils.Migration.Resume.{str_eq_refl}
use go_mini_opera.Gossip.Kv.{Kv, KvLaws}
use go_mini_opera.Gossip.Heads.{EventId}
use go_mini_opera.Gossip.Blocks.{Block}
use go_mini_opera.Gossip.Genesis.{
  GenesisBase, NetConfig, GenesisStore, applied, mismatch, genesis_event, pretty_hash,
  write_genesis, calc_genesis_hash, apply_genesis_over, apply_genesis, validators_build,
}

module _ {V : Type 0} (p : Platform) (g : GenesisBase V) where
  genesis_event-IsEvent :
      (net : NetConfig) → net.genesis_time < 2 ^ 64 → IsEvent p (genesis_event p g net)
  unfolding genesis_event
  genesis_event-IsEvent net time = record {
    version_lt = omega arith;
    raw_time_lt = time;
    epoch_lt = omega arith;
    seq_lt = omega arith;
    frame_lt = omega arith;
    creator_lt = omega arith;
    lamport_lt = omega arith;
    parents_lt = omega arith;
    parents_ids = tt;
    sig_length = refl;
  }

  -- The event of a genesis is built.
  pretty_hash-some :
      (net : NetConfig) → net.genesis_time < 2 ^ 64 → (h : EventId) × (pretty_hash p g net ≡ some h)
  unfolding pretty_hash genesis_event
  pretty_hash-some net time =
      let valid = genesis_event-IsEvent net time in
      let (raw, run, long) = marshal_binary_long p (genesis_event p g net) valid (omega arith) in
      (
        (built p (genesis_event p g net) raw).id,
        rw (build_lem p (genesis_event p g net) raw refl run long) refl,
      )

  module _ (block_kv : Kv ℕ Block) (laws : KvLaws block_kv) where
    -- The store after the genesis of the network was written to it.
    abbrev genesis_store : NetConfig → EventId → GenesisStore V block_kv → GenesisStore V block_kv
    genesis_store net h s = record {
      blocks =
          block_kv.put s.blocks 0
            (record { time = net.genesis_time; atropos = h; events = h ∷ [] });
      epoch_state =
          some (record { epoch = g.first_epoch; validators = validators_build g net.validators });
      block_state = some (record { block = 0; epoch_blocks = 0 });
    }

    write_genesis_lem :
        (net : NetConfig) (s : GenesisStore V block_kv) (h : EventId)
        → pretty_hash p g net ≡ some h
        → write_genesis p g block_kv net s ≡ some (h, genesis_store net h s)
    unfolding write_genesis
    write_genesis_lem net s h hash = rw hash refl

    -- The first application writes the genesis; a second one, of a config with the hash `h'`,
    -- changes nothing, and is a mismatch unless the hashes are the same.
    abbrev pub AppliesOnce :
        GenesisStore V block_kv → NetConfig → NetConfig → GenesisStore V block_kv → Type 0
    AppliesOnce mem net net' s =
        (h : EventId) × (h' : EventId) × (s' : GenesisStore V block_kv) × (apply_genesis p g
            block_kv mem net s
          ≡ some (applied h true, s'))
        × (apply_genesis p g block_kv mem net s' ≡ some (applied h false, s'))
        × (apply_genesis p g block_kv mem net' s'
            ≡ some (if str_eq h h' then applied h false else mismatch h h', s'))
        × (pretty_hash p g net ≡ some h)
        × (pretty_hash p g net' ≡ some h')
        × (block_kv.get s'.blocks 0
            ≡ some (record { time = net.genesis_time; atropos = h; events = h ∷ [] }))

    stored_again :
        (mem : GenesisStore V block_kv) (net net' : NetConfig) (s : GenesisStore V block_kv)
        (h h' : EventId)
        → pretty_hash p g net' ≡ some h'
        → apply_genesis p g block_kv mem net' (genesis_store net h s)
          ≡ some (if str_eq h h' then applied h false else mismatch h h', genesis_store net h s)
    unfolding apply_genesis apply_genesis_over calc_genesis_hash
    stored_again mem net net' s h h' hash =
        let block : Block = record { time = net.genesis_time; atropos = h; events = h ∷ [] } in
        ap (apply_genesis_over p g block_kv mem net' (genesis_store net h s))
          (laws.get-put_self s.blocks 0 block)
        ∙ rw (write_genesis_lem net' mem h' hash) refl

    -- When the store has no block 0 and the times of two networks are within 64 bits, ApplyGenesis
    -- of the first one writes its genesis block and returns its atropos as new; ApplyGenesis of the
    -- same network again returns the atropos as not new, and that of the other network returns it
    -- too if both genesis hashes are the same and a GenesisMismatchError with the two otherwise,
    -- and neither changes the store, given that tables read what was last put.
    pub apply_genesis-AppliesOnce :
        (mem : GenesisStore V block_kv) (net net' : NetConfig) (s : GenesisStore V block_kv)
        → net.genesis_time < 2 ^ 64
        → net'.genesis_time < 2 ^ 64
        → block_kv.get s.blocks 0 ≡ none
        → AppliesOnce mem net net' s
    unfolding apply_genesis apply_genesis_over
    apply_genesis-AppliesOnce mem net net' s time time' fresh =
        let (h, hash) = pretty_hash-some net time in
        let (h', hash') = pretty_hash-some net' time' in
        let block : Block = record { time = net.genesis_time; atropos = h; events = h ∷ [] } in
        let again = stored_again mem net net s h h hash in
        (
          h,
          h',
          genesis_store net h s,
          ap (apply_genesis_over p g block_kv mem net s) fresh
              ∙ rw (write_genesis_lem net s h hash) refl,
          again
              ∙ ap (λ b. some (if b then applied h false else mismatch h h, genesis_store net h s))
                  (str_eq_refl h),
          stored_again mem net net' s h h' hash',
          hash,
          hash',
          laws.get-put_self s.blocks 0 block,
        )
