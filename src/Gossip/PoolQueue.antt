-- ===== src/Gossip/PoolQueue.antt =====
-- poolEntryQueue of gossip/serverpool.go. The map is the list of its indexes and entries in the order
-- of the indexes; an entry is a number, and its field queueIdx is a function of it.
pub mod Oldest
pub mod Examples
use go_mini_opera.Prelude.{
  ℕ, zero, suc, ◌+◌, ◌-◌, Bool, true, false, Option, none, some, List, [], ◌∷◌, ◌++◌, ◌==◌,
  if◌then◌else◌, length,
}

abbrev pub Entries : Type 0
Entries = List (ℕ × ℕ)

pub record PoolQueue : Type 0 where
  pub entries : Entries
  pub new_ptr : ℕ
  pub old_ptr : ℕ
  pub max_cnt : ℕ
  pub queue_idx : ℕ → ℕ
  -- The calls of removeFromPool.
  pub removed : List ℕ

unfoldable pub new_pool_entry_queue : ℕ → (ℕ → ℕ) → PoolQueue
new_pool_entry_queue max_cnt queue_idx = record {
  entries = [];
  new_ptr = 0;
  old_ptr = 0;
  max_cnt = max_cnt;
  queue_idx = queue_idx;
  removed = [];
}

-- The element of the map at the index, and the map without it.
unfoldable pub entry_at : Entries → ℕ → Option ℕ
entry_at [] k = none
entry_at ((j, e) ∷ es) k = if j == k then some e else entry_at es k

unfoldable pub delete_at : Entries → ℕ → Entries
delete_at [] k = []
delete_at ((j, e) ∷ es) k = let rest = delete_at es k in if j == k then rest else (j, e) ∷ rest

-- The loop of `fetchOldest`.
unfoldable pub fetch_from : (fuel : ℕ) → PoolQueue → Option (ℕ × PoolQueue)
fetch_from zero q = none
fetch_from (suc fuel) q = elim (entry_at q.entries q.old_ptr) [
  | some e ↦ some (e, record q { entries = delete_at q.entries q.old_ptr; old_ptr = q.old_ptr + 1 })
  | none ↦ fetch_from fuel (record q { old_ptr = q.old_ptr + 1 })
]

-- The entry that the loop returns.
abbrev pub fetched_entry : Option (ℕ × PoolQueue) → Option (Option ℕ × PoolQueue)
fetched_entry none = none
fetched_entry (some (e, q)) = some (some e, q)

-- `fetchOldest`: nil on an empty map; the loop has fuel for every index below the new pointer.
unfoldable pub fetch_oldest : PoolQueue → Option (Option ℕ × PoolQueue)
fetch_oldest q =
    if length q.entries == 0
    then some (none, q)
    else fetched_entry (fetch_from (q.new_ptr - q.old_ptr) q)

abbrev pub is_entry : Option ℕ → ℕ → Bool
is_entry none e = false
is_entry (some f) e = f == e

-- `remove`.
unfoldable pub remove_entry : PoolQueue → ℕ → PoolQueue
remove_entry q e =
    if is_entry (entry_at q.entries (q.queue_idx e)) e
    then record q { entries = delete_at q.entries (q.queue_idx e) }
    else q

-- The end of `setLatest`.
abbrev pub put_latest : PoolQueue → ℕ → PoolQueue
put_latest q e = record q {
  entries = q.entries ++ ((q.new_ptr, e) ∷ []);
  queue_idx = λ f. if f == e then q.new_ptr else q.queue_idx f;
  new_ptr = q.new_ptr + 1;
}

-- The removal of the oldest entry from the queue and from the pool; nil has no queueIdx.
abbrev pub drop_oldest : Option (Option ℕ × PoolQueue) → Option PoolQueue
drop_oldest none = none
drop_oldest (some (none, q)) = none
drop_oldest (some (some e, q)) =
    some (record (remove_entry q e) { removed = q.removed ++ (e ∷ []) })

abbrev pub then_put : Option PoolQueue → ℕ → Option PoolQueue
then_put none e = none
then_put (some q) e = some (put_latest q e)

-- `setLatest`; `none` is an endless loop, or the removal of a nil entry.
unfoldable pub set_latest : PoolQueue → ℕ → Option PoolQueue
set_latest q e =
    if is_entry (entry_at q.entries (q.queue_idx e)) e
    then some (put_latest (record q { entries = delete_at q.entries (q.queue_idx e) }) e)
    else (if length q.entries == q.max_cnt
        then then_put (drop_oldest (fetch_oldest q)) e
        else some (put_latest q e))
