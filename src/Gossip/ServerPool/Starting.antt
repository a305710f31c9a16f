-- ===== src/Gossip/ServerPool/Starting.antt =====
-- The new server pool has the invariant.
use go_mini_opera.Prelude.{ℕ, ◌≡◌, refl, Bool, none, some, arith}
use go_mini_opera.Gossip.PoolQueue.{new_pool_entry_queue}
use go_mini_opera.Gossip.WeightedSelect.{new_weighted_random_select}
use go_mini_opera.Gossip.WeightedSelect.Fresh.{new_weighted_random_select-IsSelect}
use go_mini_opera.Gossip.ServerPool.{new_server_pool}
use go_mini_opera.Gossip.ServerPool.Stocking.{IsStocked}
use go_mini_opera.Gossip.ServerPool.Invariant.{IsPool}

new_weighted_random_select-IsStocked : IsStocked new_weighted_random_select 0
unfolding new_weighted_random_select
new_weighted_random_select-IsStocked = record {
  valid = new_weighted_random_select-IsSelect;
  made = λ e le. refl;
  few = λ e. omega arith;
  sum = refl;
  entries = omega arith;
}

pub new_server_pool-IsPool : (trusted : ℕ → Bool) → IsPool (new_server_pool trusted)
unfolding new_server_pool new_pool_entry_queue new_weighted_random_select
new_server_pool-IsPool trusted = record {
  server = refl;
  counted = record {
    known_count = refl;
    new_count = refl;
    known_few = omega arith;
    new_few = omega arith;
  };
  conns = refl;
  knowns = new_weighted_random_select-IsStocked;
  news = new_weighted_random_select-IsStocked;
  known_order = (omega arith, omega arith, omega arith);
  new_order = (omega arith, omega arith, omega arith);
  ids = λ id e found. absurd (nowhere e found);
}
  where
    nowhere : (i : ℕ) → ¬ (none ≡ some i)
    nowhere i e = absurd cc
