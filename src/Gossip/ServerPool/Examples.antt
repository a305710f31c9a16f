-- ===== src/Gossip/ServerPool/Examples.antt =====
-- A new server pool that discovers a node, and sets of a few items.
use go_mini_opera.Prelude.{ℕ, ◌≡◌, refl, false, some, none, arith, Option, ◌>>=◌}
use go_mini_opera.Prelude.Int.{ℤ, pos, negsuc}
use go_mini_opera.Gossip.PoolQueue.{
  new_pool_entry_queue, set_latest, entry_at, delete_at, fetch_from, fetch_oldest, remove_entry,
}
use go_mini_opera.Gossip.RandomSelect.{
  insert, set_weight, inserted, reweighted, open_branch, sub_node, choose, choose_branch,
}
use go_mini_opera.Gossip.WeightedSelect.{
  new_weighted_random_select, select_update, select_set_weight, set_weight_of, grown, select_choose,
  refreshed, is_accepted,
}
use go_mini_opera.Gossip.ServerPool.{
  ServerPool, Chance, new_server_pool, put_entry, update_check_dial, check_dial, dial_loop,
  try_known, try_new, wants_known, wants_servers, wants_more_known, dial, new_weight, known_weight,
}
use go_mini_opera.Gossip.ServerPool.Events.{
  on_node, on_connect, on_disconnect, pool_step, discover, find_or_new_node, entry_for, latest_new,
  evict, connect, entry_or_find, joined, disconnect, release, freed, set_retry_dial,
}
use go_mini_opera.Gossip.ServerPool.Invariant.{Keeps}
use go_mini_opera.Gossip.ServerPool.Dialing.{IsChance}
use go_mini_opera.Gossip.ServerPool.Starting.{new_server_pool-IsPool}
use go_mini_opera.Gossip.ServerPool.Stepping.{pool_step-Keeps}

abbrev steady : Chance
steady = record {
  known_formula = λ call time e. 1000;
  new_formula = λ call time e. 1000;
  int63n = λ turn k n. 0;
}

abbrev fresh_pool : ServerPool
fresh_pool = new_server_pool (λ id. false)

steady-IsChance : IsChance steady
steady-IsChance = record {
  in_range = λ turn k n pos_n. pos_n;
  known_few = λ call time e. omega arith;
  new_few = λ call time e. omega arith;
}

pool_step-Keeps_example : Keeps (pool_step steady fresh_pool (on_node 7))
unfolding new_server_pool
pool_step-Keeps_example =
    pool_step-Keeps steady fresh_pool (on_node 7) steady-IsChance
      (new_server_pool-IsPool (λ id. false)) (omega arith)

-- The counter of new entries, and the wait group.
abbrev counters : Option ServerPool → Option (ℤ × ℕ)
counters none = none
counters (some p) = some (p.new_selected, p.conn_wg)

-- A discovered node is dialed.
discovered_dialed : counters (pool_step steady fresh_pool (on_node 7)) ≡ some (pos 1, 0)
unfolding pool_step discover find_or_new_node entry_for latest_new evict put_entry update_check_dial
    select_update select_set_weight set_weight_of grown insert set_weight inserted reweighted
    open_branch sub_node choose choose_branch select_choose refreshed is_accepted check_dial
    dial_loop try_known try_new wants_known wants_servers wants_more_known dial new_weight
    known_weight new_server_pool new_pool_entry_queue new_weighted_random_select set_latest entry_at
    delete_at fetch_from fetch_oldest remove_entry
discovered_dialed = refl

-- A connection that was not dialed is not counted, and its end is.
undialed_uncounted :
    counters
      (pool_step steady fresh_pool (on_connect 5) >>= λ p. pool_step steady p (on_disconnect 0))
    ≡ some (negsuc 0, 0)
unfolding pool_step connect entry_or_find joined disconnect release freed set_retry_dial
    find_or_new_node entry_for latest_new evict put_entry new_server_pool new_pool_entry_queue
    new_weighted_random_select set_latest entry_at delete_at fetch_from fetch_oldest remove_entry
undialed_uncounted = refl
