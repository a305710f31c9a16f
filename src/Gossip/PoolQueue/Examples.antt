-- ===== src/Gossip/PoolQueue/Examples.antt =====
-- A full queue of two entries that gets a third one.
use go_mini_opera.Prelude.{[], ◌∷◌, arith}
use go_mini_opera.Gossip.PoolQueue.{PoolQueue, set_latest}
use go_mini_opera.Gossip.PoolQueue.Oldest.{SetsLatest, set_latest-SetsLatest}

abbrev two_entries : PoolQueue
two_entries = record {
  entries = (3, 8) ∷ (5, 9) ∷ [];
  new_ptr = 6;
  old_ptr = 1;
  max_cnt = 2;
  queue_idx = λ e. 0;
  removed = [];
}

set_latest-SetsLatest_example : SetsLatest two_entries 7 (set_latest two_entries 7)
set_latest-SetsLatest_example =
    set_latest-SetsLatest two_entries 7
      ((omega arith, (omega arith, omega arith)), omega arith, omega arith)
