-- ===== src/Gossip/ServerPool.antt =====
-- serverPool of gossip/serverpool.go: the state machine of its entries. The loop of events calls one
-- handler after the other, so a run is a sequence of them. An entry is its pointer, a number; the
-- pool's entries stand in a store. The addresses and the statistics of an entry are left out: what
-- they make of a weight is a parameter, as are the random numbers. The timers are the environment,
-- which sends their events.
pub mod Events
pub mod Counting
pub mod Stocking
pub mod Invariant
pub mod Candidates
pub mod Dialing
pub mod Loops
pub mod Evicting
pub mod Releasing
pub mod Stepping
pub mod Starting
pub mod Examples
use go_mini_opera.Prelude.{
  ℕ, zero, suc, ◌+◌, ◌-◌, Bool, true, false, not, ◌&&◌, ◌||◌, Option, none, some, List, [], ◌∷◌,
  ◌==◌, ltb, if◌then◌else◌, ◌>>=◌,
}
use go_mini_opera.Prelude.Int.{ℤ, pos, inc_ℤ, dec_ℤ, ◌+ℤ◌, below_ℤ}
use go_mini_opera.Gossip.PoolQueue.{PoolQueue, new_pool_entry_queue, set_latest, remove_entry}
use go_mini_opera.Gossip.WeightedSelect.{
  WeightedSelect, new_weighted_random_select, select_update, select_remove, select_choose,
}

-- psNotConnected, psDialed, psConnected, psRegistered.
pub data PoolState : Type 0 where
  not_connected dialed connected registered : PoolState

pub record PoolEntry : Type 0 where
  pub peer : Option ℕ
  pub node_id : ℕ
  pub state : PoolState
  pub is_known : Bool
  pub is_known_selected : Bool
  pub is_removed : Bool
  pub delayed_retry : Bool
  pub short_retry : ℕ

pub record ServerPool : Type 0 where
  -- `pool.server` is set.
  pub has_server : Bool
  pub is_trusted : ℕ → Bool
  -- The map from the ids of nodes.
  pub entry_of_id : ℕ → Option ℕ
  pub store : ℕ → PoolEntry
  -- The pointer of the next entry that is made.
  pub next_entry : ℕ
  pub known_queue : PoolQueue
  pub new_queue : PoolQueue
  -- The field queueIdx of each entry, which both queues use.
  pub queue_index : ℕ → ℕ
  pub known_select : WeightedSelect
  pub new_select : WeightedSelect
  pub known_selected : ℤ
  pub new_selected : ℤ
  pub fast_discover : Bool
  -- The counter of connWg.
  pub conn_wg : ℕ

-- What stands in the store where no entry is made yet.
abbrev pub blank_entry : PoolEntry
blank_entry = record {
  peer = none;
  node_id = 0;
  state = not_connected;
  is_known = false;
  is_known_selected = false;
  is_removed = false;
  delayed_retry = false;
  short_retry = 0;
}

abbrev pub max_new_entries : ℕ
max_new_entries = 1000

abbrev pub max_known_entries : ℕ
max_known_entries = 1000

abbrev pub short_retry_cnt : ℕ
short_retry_cnt = 5

abbrev pub target_server_count : ℕ
target_server_count = 5

abbrev pub target_known_select : ℕ
target_known_select = 3

-- The pool that `newServerPool` makes, with the server that `start` sets.
unfoldable pub new_server_pool : (ℕ → Bool) → ServerPool
new_server_pool trusted = record {
  has_server = true;
  is_trusted = trusted;
  entry_of_id = λ id. none;
  store = λ e. blank_entry;
  next_entry = 0;
  known_queue = new_pool_entry_queue max_known_entries (λ e. 0);
  new_queue = new_pool_entry_queue max_new_entries (λ e. 0);
  queue_index = λ e. 0;
  known_select = new_weighted_random_select;
  new_select = new_weighted_random_select;
  known_selected = pos 0;
  new_selected = pos 0;
  fast_discover = true;
  conn_wg = 0;
}

-- At an event: what the formulas for the weights yield for an entry at a time of a call of the set,
-- and the random numbers of each call of choose. The times of the calls differ, so each call has
-- values of its own.
pub record Chance : Type 0 where
  pub known_formula : (call time : ℕ) → ℕ → ℕ
  pub new_formula : (call time : ℕ) → ℕ → ℕ
  pub int63n : ℕ → ℕ → ℕ → ℕ

abbrev pub is_not_connected : PoolState → Bool
is_not_connected not_connected = true
is_not_connected dialed = false
is_not_connected connected = false
is_not_connected registered = false

-- `discoveredEntry.Weight` and `knownEntry.Weight`.
unfoldable pub new_weight : ServerPool → Chance → (call time : ℕ) → ℕ → ℕ
new_weight p c call time e =
    let entry = p.store e in
    if not (is_not_connected entry.state) || entry.delayed_retry
    then 0
    else c.new_formula call time e

unfoldable pub known_weight : ServerPool → Chance → (call time : ℕ) → ℕ → ℕ
known_weight p c call time e =
    let entry = p.store e in
    if not (is_not_connected entry.state) || (not entry.is_known || entry.delayed_retry)
    then 0
    else c.known_formula call time e

-- The pool with another entry at the pointer.
unfoldable pub put_entry : ServerPool → ℕ → PoolEntry → ServerPool
put_entry p e entry = record p { store = λ f. if f == e then entry else p.store f }

-- The effect of `dial` on a counter and the entry; the address to dial is left out.
unfoldable pub dial : ServerPool → ℕ → Bool → ServerPool
dial p e known =
    let p' = put_entry p e (record (p.store e) { state = dialed; is_known_selected = known }) in
    let counted =
      (if known
        then record p' { known_selected = inc_ℤ p'.known_selected }
        else record p' { new_selected = inc_ℤ p'.new_selected }) in
    if p.has_server && is_not_connected (p.store e).state then counted else p

-- One turn of the first and the third loop of `checkDial`, and one of the second; false when
-- choose returns nil.
abbrev pub dial_known : ServerPool → Option ℕ × WeightedSelect → Bool × ServerPool
dial_known p (none, sel) = (false, record p { known_select = sel })
dial_known p (some e, sel) = (true, dial (record p { known_select = sel }) e true)

abbrev pub dial_new : ServerPool → Option ℕ × WeightedSelect → Bool × ServerPool
dial_new p (none, sel) = (false, record p { new_select = sel })
dial_new p (some e, sel) = (true, dial (record p { new_select = sel }) e false)

unfoldable pub try_known : Chance → ℕ → ServerPool → Option (Bool × ServerPool)
try_known c turn p =
    select_choose (known_weight p c turn) (c.int63n turn) (suc p.known_select.root.sum_weight) 0
      p.known_select
    >>= λ r. some (dial_known p r)

unfoldable pub try_new : Chance → ℕ → ServerPool → Option (Bool × ServerPool)
try_new c turn p =
    select_choose (new_weight p c turn) (c.int63n turn) (suc p.new_select.root.sum_weight) 0
      p.new_select
    >>= λ r. some (dial_new p r)

-- A loop of `checkDial`: whether it ended by its condition, and not by a nil entry.
unfoldable pub dial_loop :
    (ℕ → ServerPool → Option (Bool × ServerPool))
    → (ServerPool → Bool)
    → (fuel : ℕ) → ServerPool
    → Option (Bool × ServerPool)
dial_loop turn more zero p = none
dial_loop turn more (suc fuel) p =
    let next =
      (turn fuel p >>= λ (found, p').
      let rest = dial_loop turn more fuel p' in if found then rest else some (false, p')) in
    if more p then next else some (true, p)

unfoldable pub wants_known : ServerPool → Bool
wants_known p = below_ℤ p.known_selected target_known_select

unfoldable pub wants_servers : ServerPool → Bool
wants_servers p = below_ℤ (p.known_selected +ℤ p.new_selected) target_server_count

unfoldable pub wants_more_known : ServerPool → Bool
wants_more_known p = below_ℤ p.known_selected target_server_count

-- More turns than a loop has.
abbrev pub dial_fuel : ℕ
dial_fuel = 6

-- `checkDial`.
unfoldable pub check_dial : Chance → ServerPool → Option ServerPool
check_dial c p = dial_loop (try_known c) wants_known dial_fuel p >>= λ (enough, p1).
    dial_loop (λ i. try_new c (6 + i)) wants_servers dial_fuel p1 >>= λ (r, p2).
    let filled =
      (dial_loop (λ i. try_known c (12 + i)) wants_more_known dial_fuel p2 >>= λ (s, p3).
      some p3) in
    if not p.fast_discover && enough then filled else some p2

-- `updateCheckDial`; its updates are the calls 18 and 19.
unfoldable pub update_check_dial : Chance → ServerPool → ℕ → Option ServerPool
update_check_dial c p e = select_update (new_weight p c 18) 0 p.new_select e >>= λ news.
    select_update (known_weight p c 19) 0 p.known_select e >>= λ knowns.
    check_dial c (record p { new_select = news; known_select = knowns })
