-- ===== src/Gossip/Blocks/Sealing.antt =====
-- When EndBlock seals the epoch, and what it counts.
use go_mini_opera.Prelude.{
  ℕ, ◌+◌, ◌%◌, ◌^◌, ◌<◌, ◌≡◌, ◌≢◌, ◌⊎◌, inl, inr, refl, ap, arith, Bool-cases, true, not, ◌||◌,
  Option, none, some, List, leb, ◌==◌, map,
}
use go_mini_opera.Inter.Event.{Event}
use go_mini_opera.Gossip.Kv.{Kv}
use go_mini_opera.Gossip.Heads.{EventId}
use go_mini_opera.Gossip.Blocks.{
  Block, BlockRun, Decided, add_block, seal_epoch, new_epoch_pub_keys, end_block,
}

module _ {V : Type 0} (block_kv : Kv ℕ Block) (sort : List Event → List Event)
    (max_epoch_blocks : ℕ) (genesis_validators : List (ℕ × List ℕ)) where
  -- The epoch goes on, with one block more and fewer than the most.
  pub record GoesOn (s t : Decided V block_kv) (cheaters : ℕ) (sealed : Option V) : Type 0 where
    pub not_sealed : sealed ≡ none
    pub honest : cheaters ≡ 0
    pub below : t.block_state.epoch_blocks < max_epoch_blocks
    pub epoch_blocks : t.block_state.epoch_blocks ≡ s.block_state.epoch_blocks + 1
    pub epoch : t.epoch_state ≡ s.epoch_state
    pub keys : t.keys ≡ s.keys

  -- The epoch is sealed: there were cheaters, or as many blocks as an epoch may have.
  pub record IsSealed (s t : Decided V block_kv) (cheaters : ℕ) (sealed : Option V) : Type 0 where
    pub validators : sealed ≡ some s.epoch_state.validators
    pub reason : (cheaters ≢ 0) ⊎ (max_epoch_blocks ≡ s.block_state.epoch_blocks + 1)
    pub epoch_blocks : t.block_state.epoch_blocks ≡ 0
    pub epoch : t.epoch_state.epoch ≡ s.epoch_state.epoch + 1
    pub same : t.epoch_state.validators ≡ s.epoch_state.validators
    pub keys : t.keys ≡ new_epoch_pub_keys (s.epoch_state.epoch + 1) genesis_validators

  module _ (s : Decided V block_kv) (atropos : EventId) (cheaters : ℕ) (r : BlockRun) (a : Event)
      (applied : r.atropos ≡ some a) (below : s.block_state.epoch_blocks < max_epoch_blocks)
      (few : max_epoch_blocks < 2 ^ 64) (room : s.block_state.block + 1 < 2 ^ 64)
      (next : s.epoch_state.epoch + 1 < 2 ^ 32) where
    -- When the atropos was applied, the epoch has fewer blocks than its most, and the counters have
    -- room, EndBlock returns, counts one block, and either there are no cheaters and the epoch goes
    -- on with one block more, still fewer than its most, or there are cheaters or the epoch now has
    -- its most blocks and it is sealed with its validators: the next epoch starts with no blocks,
    -- the same validators and the keys of its number.
    pub end_block-cases :
        (sealed : Option V) × (t : Decided V block_kv) × (end_block block_kv sort max_epoch_blocks
            genesis_validators atropos cheaters r s
          ≡ some (sealed, t))
        × (t.block_state.block ≡ s.block_state.block + 1)
        × (GoesOn s t cheaters sealed ⊎ IsSealed s t cheaters sealed)
    unfolding end_block add_block seal_epoch
    end_block-cases =
        elim (Bool-cases (
          leb max_epoch_blocks ((s.block_state.epoch_blocks + 1) % 2 ^ 64)
          || not (cheaters == 0))) [
            | inr on ↦ (
              none,
              added,
              rw applied (rw on refl),
              omega (arith, room),
              inl (record {
                not_sealed = refl;
                honest = ground arith;
                below = ground arith;
                epoch_blocks = omega (arith, below, few);
                epoch = refl;
                keys = refl;
              }),
            )
            | inl over ↦ (
              some s.epoch_state.validators,
              seal_epoch block_kv sort max_epoch_blocks genesis_validators added,
              rw applied (rw over refl),
              omega (arith, room),
              inr (record {
                validators = refl;
                reason = reason over;
                epoch_blocks = refl;
                epoch = omega (arith, next);
                same = refl;
                keys = ap (λ n. new_epoch_pub_keys n genesis_validators) (omega (arith, next));
              }),
            )
          ]
      where
        added : Decided V block_kv
        added = add_block block_kv sort max_epoch_blocks genesis_validators s (record {
          time = a.raw_time;
          atropos = atropos;
          events = map (λ (e : Event). e.id) (sort r.confirmed_events);
        })

        reason :
            (leb max_epoch_blocks ((s.block_state.epoch_blocks + 1) % 2 ^ 64)
                || not (cheaters == 0))
              ≡ true
            → (cheaters ≢ 0) ⊎ (max_epoch_blocks ≡ s.block_state.epoch_blocks + 1)
        reason over = elim (Bool-cases (not (cheaters == 0))) [
          | inl cheated ↦ inl (ground arith)
          | inr honest ↦ inr (ground arith)
        ]
