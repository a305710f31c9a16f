-- ===== src/Gossip/Blocks/Examples.antt =====
-- The last block of an epoch of ten.
use go_mini_opera.Prelude.{
  ℕ, ◌≡◌, ◌⊎◌, refl, arith, Option, none, some, [], ◌∷◌, ◌==◌, if◌then◌else◌,
}
use go_mini_opera.Inter.Examples.{event, root_id}
use go_mini_opera.Gossip.Kv.{Kv}
use go_mini_opera.Gossip.Blocks.{Block, BlockRun, Decided, new_epoch_pub_keys, end_block}
use go_mini_opera.Gossip.Blocks.Sealing.{GoesOn, IsSealed, end_block-cases}

abbrev pub block_table : Kv ℕ Block
block_table = record {
  Table = ℕ → Option Block;
  get = λ t k. t k;
  put = λ t k v j. if j == k then some v else t j;
  delete = λ t k j. if j == k then none else t j;
}

abbrev ninth : Decided ℕ block_table
ninth = record {
  block_state = record { block = 99; epoch_blocks = 9 };
  epoch_state = record { epoch = 5; validators = 3 };
  blocks = λ n. none;
  keys = new_epoch_pub_keys 5 ((1, 7 ∷ []) ∷ []);
}

abbrev confirmed : BlockRun
confirmed = record { confirmed_events = event ∷ []; atropos = some event; payload_size = 3 }

end_block-cases_example :
    (sealed : Option ℕ) × (t : Decided ℕ block_table) × (end_block block_table
        (λ es. es)
        10
        ((1, 7 ∷ []) ∷ [])
        root_id
        0
        confirmed
        ninth
      ≡ some (sealed, t))
    × (t.block_state.block ≡ 100)
    × (GoesOn block_table (λ es. es) 10 ((1, 7 ∷ []) ∷ []) ninth t 0 sealed
        ⊎ IsSealed block_table (λ es. es) 10 ((1, 7 ∷ []) ∷ []) ninth t 0 sealed)
end_block-cases_example =
    end_block-cases block_table (λ es. es) 10 ((1, 7 ∷ []) ∷ []) ninth root_id 0 confirmed event
      refl (omega arith) (omega arith) (omega arith) (omega arith)
