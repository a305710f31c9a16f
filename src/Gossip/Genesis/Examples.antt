-- ===== src/Gossip/Genesis/Examples.antt =====
-- A genesis applied to an empty store, then that of another network.
use go_mini_opera.Prelude.{ℕ, ◌≡◌, refl, arith, true, false, none, List, [], ◌∷◌, ◌==◌}
use go_mini_opera.Inter.Examples.{platform}
use go_mini_opera.Gossip.Blocks.Examples.{block_table}
use go_mini_opera.Gossip.Genesis.{
  GenesisValidator, GenesisBase, NetConfig, GenesisStore, validators_hash,
}
use go_mini_opera.Gossip.Genesis.Digest.{merged, validators_hash-merged}
use go_mini_opera.Gossip.Genesis.Applying.{AppliesOnce, apply_genesis-AppliesOnce}
use go_mini_opera.Gossip.Kv.{KvLaws}

abbrev genesis_base : GenesisBase (List (ℕ × ℕ))
genesis_base = record {
  id_bytes = λ n. n ∷ [];
  stake_bytes = λ n. n ∷ [];
  digest = λ b. b;
  build_validators = λ vv. vv;
  first_epoch = 1;
}

block_table-KvLaws : KvLaws block_table
block_table-KvLaws = record {
  get-put_self = λ t k v. let same : (k == k) ≡ true = ground arith in rw same refl;
  get-put_ne = λ t k j v differ. let other : (j == k) ≡ false = ground arith in rw other refl;
  get-delete_self = λ t k. let same : (k == k) ≡ true = ground arith in rw same refl;
  get-delete_ne = λ t k j differ. let other : (j == k) ≡ false = ground arith in rw other refl;
}

abbrev alice : GenesisValidator
alice = record { validator_id = 1; pub_key = 7 ∷ []; stake = 5 }

abbrev bob : GenesisValidator
bob = record { validator_id = 2; pub_key = 9 ∷ []; stake = 6 }

abbrev net_of : List GenesisValidator → NetConfig
net_of vv = record {
  validators = vv;
  genesis_time = 1597727000;
  extra_data = [];
  max_epoch_blocks = 1000;
}

abbrev no_store : GenesisStore (List (ℕ × ℕ)) block_table
no_store = record { blocks = λ n. none; epoch_state = none; block_state = none }

apply_genesis-AppliesOnce_example :
    AppliesOnce platform genesis_base block_table block_table-KvLaws no_store
      (net_of (alice ∷ bob ∷ []))
      (net_of (alice ∷ []))
      no_store
apply_genesis-AppliesOnce_example =
    apply_genesis-AppliesOnce platform genesis_base block_table block_table-KvLaws no_store
      (net_of (alice ∷ bob ∷ [])) (net_of (alice ∷ [])) no_store (omega arith) (omega arith) refl

validators_hash-merged_example :
    validators_hash genesis_base (alice ∷ bob ∷ [])
    ≡ validators_hash genesis_base (merged genesis_base alice bob ∷ [])
validators_hash-merged_example = validators_hash-merged genesis_base alice bob []
