-- ===== src/Gossip/ServerPool/Events.antt =====
-- The handlers of the event loop of gossip/serverpool.go.
use go_mini_opera.Prelude.{
  ℕ, zero, suc, ◌+◌, ◌-◌, Bool, true, false, not, ◌&&◌, Option, none, some, List, [], ◌∷◌, ◌==◌,
  if◌then◌else◌, ◌>>=◌,
}
use go_mini_opera.Prelude.Int.{dec_ℤ}
use go_mini_opera.Gossip.PoolQueue.{set_latest, remove_entry}
use go_mini_opera.Gossip.WeightedSelect.{select_remove}
use go_mini_opera.Gossip.ServerPool.{
  PoolState, PoolEntry, ServerPool, Chance, short_retry_cnt, put_entry, update_check_dial,
}

-- `removeEntry`.
unfoldable pub remove_from_pool : ServerPool → ℕ → Option ServerPool
remove_from_pool p e = select_remove p.new_select e >>= λ news.
    select_remove p.known_select e >>= λ knowns.
    some (record (put_entry p e (record (p.store e) { is_removed = true })) {
      new_select = news;
      known_select = knowns;
      entry_of_id = λ id. if id == (p.store e).node_id then none else p.entry_of_id id;
    })

-- The calls of removeEntry that a queue made.
unfoldable pub evict : ServerPool → List ℕ → Option ServerPool
evict p [] = some p
evict p (e ∷ es) = remove_from_pool p e >>= λ p'. evict p' es

-- `knownQueue.setLatest` and `newQueue.setLatest`.
unfoldable pub latest_known : ServerPool → ℕ → Option ServerPool
latest_known p e =
    set_latest (record p.known_queue { queue_idx = p.queue_index; removed = [] }) e >>= λ q.
    evict (record p { known_queue = q; queue_index = q.queue_idx }) q.removed

unfoldable pub latest_new : ServerPool → ℕ → Option ServerPool
latest_new p e =
    set_latest (record p.new_queue { queue_idx = p.queue_index; removed = [] }) e >>= λ q.
    evict (record p { new_queue = q; queue_index = q.queue_idx }) q.removed

abbrev pub new_entry : ℕ → PoolEntry
new_entry id = record {
  peer = none;
  node_id = id;
  state = PoolState.not_connected;
  is_known = false;
  is_known_selected = false;
  is_removed = false;
  delayed_retry = false;
  short_retry = short_retry_cnt;
}

-- The entry of a node, a new one if there is none.
unfoldable pub entry_for : ServerPool → ℕ → Option ℕ → ServerPool × ℕ
entry_for p id (some e) = (p, e)
entry_for p id none =
    let p' = put_entry p p.next_entry (new_entry id) in
    (
      record p' {
        entry_of_id = λ other. if other == id then some p.next_entry else p.entry_of_id other;
        next_entry = p.next_entry + 1;
      },
      p.next_entry,
    )

-- `findOrNewNode`, without the addresses and the statistics.
unfoldable pub find_or_new_node : ServerPool → ℕ → Option (ServerPool × ℕ)
find_or_new_node p id =
    let (p1, e) = entry_for p id (p.entry_of_id id) in
    let queued = (latest_new p1 e >>= λ p2. some (p2, e)) in
    if (p1.store e).is_known then some (p1, e) else queued

-- `setRetryDial` without its timer.
unfoldable pub set_retry_dial : ServerPool → ℕ → ServerPool
set_retry_dial p e =
    put_entry p e
      (record (p.store e) { short_retry = (p.store e).short_retry - 1; delayed_retry = true })

-- The pool with the entry not connected, and not counted where it was selected.
unfoldable pub freed : ServerPool → ℕ → Bool → ServerPool
freed p e true = record (put_entry p e (record (p.store e) { state = PoolState.not_connected })) {
  known_selected = dec_ℤ p.known_selected;
}
freed p e false = record (put_entry p e (record (p.store e) { state = PoolState.not_connected })) {
  new_selected = dec_ℤ p.new_selected;
}

-- What `checkDialTimeout` and `disconnect` share.
unfoldable pub release : ServerPool → ℕ → ServerPool
release p e = set_retry_dial (freed p e (p.store e).is_known_selected) e

abbrev pub is_dialed : PoolState → Bool
is_dialed PoolState.dialed = true
is_dialed PoolState.not_connected = false
is_dialed PoolState.connected = false
is_dialed PoolState.registered = false

abbrev pub has_peer : PoolState → Bool
has_peer PoolState.dialed = false
has_peer PoolState.not_connected = false
has_peer PoolState.connected = true
has_peer PoolState.registered = true

-- The event of `pool.timeout`.
unfoldable pub dial_timeout : ServerPool → ℕ → ServerPool
dial_timeout p e =
    if not (p.store e).is_removed && is_dialed (p.store e).state then release p e else p

-- The event of `pool.enableRetry`.
unfoldable pub enable_retry : Chance → ServerPool → ℕ → Option ServerPool
enable_retry c p e =
    let tried =
      update_check_dial c (put_entry p e (record (p.store e) { delayed_retry = false })) e in
    if (p.store e).is_removed then some p else tried

-- The event of `pool.discNodes`.
unfoldable pub discover : Chance → ServerPool → ℕ → Option ServerPool
discover c p id =
    let found = (find_or_new_node p id >>= λ (p', e). update_check_dial c p' e) in
    if p.is_trusted id then some p else found

-- The entry of the map, or the one of findOrNewNode.
unfoldable pub entry_or_find : ServerPool → ℕ → Option ℕ → Option (ServerPool × ℕ)
entry_or_find p id (some e) = some (p, e)
entry_or_find p id none = find_or_new_node p id

-- The entry with the peer of a connection.
unfoldable pub joined : ServerPool → ℕ → ℕ → ServerPool
joined p e peer =
    record (put_entry p e (record (p.store e) { peer = some peer; state = PoolState.connected })) {
      conn_wg = p.conn_wg + 1;
    }

-- The event of `pool.connCh`, with the entry that it returns. A peer has the id of its node.
unfoldable pub connect : ServerPool → ℕ → Option (Option ℕ × ServerPool)
connect p id =
    let found =
      (entry_or_find p id (p.entry_of_id id) >>= λ (p', e).
      if has_peer (p'.store e).state then some (none, p') else some (some e, joined p' e id)) in
    if p.is_trusted id then some (none, p) else found

-- The registered entry marked as known, and taken from the new ones, if it was not.
unfoldable pub marked_known : ServerPool → ℕ → Bool → ServerPool
marked_known p e true = p
marked_known p e false = record (put_entry p e (record (p.store e) { is_known = true })) {
  new_queue = remove_entry (record p.new_queue { queue_idx = p.queue_index }) e;
}

-- The event of `pool.registerCh`.
unfoldable pub register_entry : ServerPool → ℕ → Option ServerPool
register_entry p e =
    let p1 = put_entry p e (record (p.store e) { state = PoolState.registered }) in
    latest_known (marked_known p1 e (p.store e).is_known) e >>= λ p2.
    some (put_entry p2 e (record (p2.store e) { short_retry = short_retry_cnt }))

-- `connWg.Done`, which panics at 0.
abbrev pub wait_done : ServerPool → ℕ → Option ServerPool
wait_done p zero = none
wait_done p (suc n) = some (record p { conn_wg = n })

-- The event of `pool.disconnCh`.
unfoldable pub disconnect : ServerPool → ℕ → Option ServerPool
disconnect p e = wait_done (release p e) (release p e).conn_wg

-- The end of the fast discovery in the event of `pool.discLookups`.
unfoldable pub end_fast_discovery : ServerPool → ServerPool
end_fast_discovery p = record p { fast_discover = false }

pub data PoolEvent : Type 0 where
  on_timeout on_retry on_node on_connect on_register on_disconnect : ℕ → PoolEvent
  on_lookups : PoolEvent

-- One turn of the event loop.
unfoldable pub pool_step : Chance → ServerPool → PoolEvent → Option ServerPool
pool_step c p (on_timeout e) = some (dial_timeout p e)
pool_step c p (on_retry e) = enable_retry c p e
pool_step c p (on_node id) = discover c p id
pool_step c p (on_connect id) = connect p id >>= λ (r, p'). some p'
pool_step c p (on_register e) = register_entry p e
pool_step c p (on_disconnect e) = disconnect p e
pool_step c p on_lookups = some (end_fast_discovery p)
