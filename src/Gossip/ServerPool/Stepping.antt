-- ===== src/Gossip/ServerPool/Stepping.antt =====
-- The event loop of the server pool keeps its invariant.
use go_mini_opera.Prelude.{
  arith, sym, ◌+◌, ◌^◌, ℕ, ◌<◌, ◌≡◌, refl, ap, ◌∙◌, ◌⊎◌, inl, inr, Bool, true, false, Option, none,
  some, if◌then◌else◌, ◌>>=◌, Bool-cases,
}
use go_mini_opera.Gossip.PoolQueue.Oldest.{remove_entry-IsQueue}
use go_mini_opera.Gossip.ServerPool.{
  PoolState, PoolEntry, ServerPool, Chance, is_not_connected, put_entry, short_retry_cnt,
  update_check_dial,
}
use go_mini_opera.Gossip.ServerPool.Events.{
  has_peer, dial_timeout, enable_retry, discover, entry_or_find, joined, connect, marked_known,
  register_entry, end_fast_discovery, PoolEvent, on_timeout, on_retry, on_node, on_connect,
  on_register, on_disconnect, on_lookups, pool_step,
}
use go_mini_opera.Gossip.ServerPool.Counting.{count_put, stored, bit}
use go_mini_opera.Gossip.ServerPool.Invariant.{is_joined, HasConns, HasConns-same, IsPool, Keeps}
use go_mini_opera.Gossip.ServerPool.Dialing.{IsChance}
use go_mini_opera.Gossip.ServerPool.Loops.{update_check_dial-Keeps}
use go_mini_opera.Gossip.ServerPool.Evicting.{latest_known-KeepsAll, find_or_new_node-Finds}
use go_mini_opera.Gossip.ServerPool.Releasing.{
  put_entry-IsPool, chosen_entry-IsPool, dial_timeout-IsPool, disconnect-Keeps, peer_chosen,
}

slow_down : (p : ServerPool) → IsPool p → IsPool (end_fast_discovery p)
unfolding end_fast_discovery
slow_down p h = record {
  server = h.server;
  counted = h.counted;
  conns = h.conns;
  knowns = h.knowns;
  news = h.news;
  known_order = h.known_order;
  new_order = h.new_order;
  ids = h.ids;
}

put_entry_next :
    (p : ServerPool) (e : ℕ) (entry : PoolEntry)
    → e < p.next_entry
    → e < (put_entry p e entry).next_entry
unfolding put_entry
put_entry_next p e entry lt = lt

enable_retry-Keeps :
    (c : Chance) (p : ServerPool) (e : ℕ)
    → IsChance c
    → IsPool p
    → e < p.next_entry
    → Keeps (enable_retry c p e)
unfolding enable_retry
enable_retry-Keeps c p e range h lt = elim (Bool-cases (p.store e).is_removed) [
  | inl gone ↦ rw gone (p, refl, h)
  | inr there ↦
      let entry = record (p.store e) { delayed_retry = false } in
      let (p', run, h') =
        update_check_dial-Keeps c (put_entry p e entry) e range
          (put_entry-IsPool p e entry refl refl h) (put_entry_next p e entry lt) in
      (
        p',
        ap (λ b. if b then some p else update_check_dial c (put_entry p e entry) e) there ∙ run,
        h',
      )
]

discover-Keeps :
    (c : Chance) (p : ServerPool) (id : ℕ)
    → IsChance c
    → IsPool p
    → p.next_entry < 2 ^ 33
    → Keeps (discover c p id)
unfolding discover
discover-Keeps c p id range h few = elim (Bool-cases (p.is_trusted id)) [
  | inl trusted ↦ rw trusted (p, refl, h)
  | inr other ↦
      let (p1, e, found, h1, lt) = find_or_new_node-Finds p id h few in
      let (p2, run, h2) = update_check_dial-Keeps c p1 e range h1 lt in
      (p2, rw (other, found) run, h2)
]

-- The entry of a node that is dialed or connected.
abbrev pub IsChosen : ServerPool → ℕ → Type 0
IsChosen p e = (e < p.next_entry) × (is_not_connected (p.store e).state ≡ false)

-- The entry of a connection.
abbrev pub IsJoined : ServerPool → ℕ → Type 0
IsJoined p e = (e < p.next_entry) × (has_peer (p.store e).state ≡ true)

-- The wait group with a peer more.
joined-IsPool :
    (p : ServerPool) (e peer : ℕ)
    → IsPool p
    → IsChosen p e
    → has_peer (p.store e).state ≡ false
    → IsPool (joined p e peer)
unfolding joined
joined-IsPool p e peer h (lt, chosen) free =
    let entry = record (p.store e) { peer = some peer; state = PoolState.connected } in
    let put = count_put is_joined p.store e entry p.next_entry lt in
    chosen_entry-IsPool p e entry (p.conn_wg + 1) refl refl chosen
      (omega (arith, put, h.conns, ap bit free)) h

registered-IsPool :
    (p : ServerPool) (e : ℕ) (entry : PoolEntry)
    → entry.is_known_selected ≡ (p.store e).is_known_selected
    → is_not_connected entry.state ≡ false
    → is_not_connected (p.store e).state ≡ false
    → HasConns (stored p.store e entry) p.next_entry p.conn_wg
    → IsPool p
    → IsPool (put_entry p e entry)
unfolding put_entry
registered-IsPool p e entry selected chosen was conns h =
    chosen_entry-IsPool p e entry p.conn_wg selected chosen was conns h

connect-Keeps :
    (p : ServerPool) (id e : ℕ)
    → IsPool p
    → p.entry_of_id id ≡ some e
    → IsChosen p e
    → (r : Option ℕ) × (p' : ServerPool) × (connect p id ≡ some (r, p')) × IsPool p'
unfolding connect entry_or_find
connect-Keeps p id e h found chosen = elim (Bool-cases (p.is_trusted id)) [
  | inl trusted ↦ rw trusted (none, p, refl, h)
  | inr other ↦ elim (Bool-cases (has_peer (p.store e).state)) [
    | inl busy ↦ (none, p, rw (other, found, busy) refl, h)
    | inr free ↦
        (some e, joined p e id, rw (other, found, free) refl, joined-IsPool p e id h chosen free)
  ]
]

connect_trusted : (p : ServerPool) (id : ℕ) → p.is_trusted id ≡ true → connect p id ≡ some (none, p)
unfolding connect
connect_trusted p id trusted = rw trusted refl

marked_known-IsPool :
    (p : ServerPool) (e : ℕ) (known : Bool) → IsPool p → IsPool (marked_known p e known)
unfolding marked_known
marked_known-IsPool p e true h = h
marked_known-IsPool p e false h =
    let next = put_entry-IsPool p e (record (p.store e) { is_known = true }) refl refl h in
    record {
      server = next.server;
      counted = next.counted;
      conns = next.conns;
      knowns = next.knowns;
      news = next.news;
      known_order = next.known_order;
      new_order =
          remove_entry-IsQueue (record p.new_queue { queue_idx = p.queue_index }) e h.new_order;
      ids = next.ids;
    }

register_entry-Keeps :
    (p : ServerPool) (e : ℕ) → IsPool p → IsJoined p e → Keeps (register_entry p e)
unfolding register_entry
register_entry-Keeps p e h (lt, peer) =
    let entry1 = record (p.store e) { state = PoolState.registered } in
    let p1 = put_entry p e entry1 in
    let conns = HasConns-same p.store e entry1 p.next_entry p.conn_wg (sym peer) h.conns in
    let h1 = registered-IsPool p e entry1 refl refl (peer_chosen (p.store e).state peer) conns h in
    let h2 = marked_known-IsPool p1 e (p.store e).is_known h1 in
    let (p2, run, h3, same) = latest_known-KeepsAll (marked_known p1 e (p.store e).is_known) e h2 in
    let entry = record (p2.store e) { short_retry = short_retry_cnt } in
    (put_entry p2 e entry, rw run refl, put_entry-IsPool p2 e entry refl refl h3)

-- What the callers of the pool and its timers see to: an event is of an entry that is made, and
-- connect, unless it is of a trusted node, is of one that is dialed or connected, register and
-- disconnect are of one that is connected. Fewer than 2^33 entries are made before a node is found.
abbrev pub IsExpected : ServerPool → PoolEvent → Type 0
IsExpected p (on_timeout e) = e < p.next_entry
IsExpected p (on_retry e) = e < p.next_entry
IsExpected p (on_node id) = p.next_entry < 2 ^ 33
IsExpected p (on_connect id) =
    (p.is_trusted id ≡ true) ⊎ ((e : ℕ) × (p.entry_of_id id ≡ some e) × IsChosen p e)
IsExpected p (on_register e) = IsJoined p e
IsExpected p (on_disconnect e) = IsJoined p e
IsExpected p on_lookups = Unit {0}

-- When the server is set, the random numbers lie below their bounds, the selection sets and queues
-- are valid, every entry in them is made, the counters are the numbers of the dialed and connected
-- entries that were selected as known and as new, at most five of each, the wait group has the
-- number of the connected ones, the formulas of the weights and the stored weights are at most
-- 10^9, the sum of each set is that of its weights, and at most 2^33 entries are made, fewer when a
-- node is found, then every event of the loop, with checkDial, ends without a panic, with all of
-- this again; a connection, unless it is of a trusted node, is of an entry that is dialed or
-- connected, a registration or a disconnection of one that is connected.
pub pool_step-Keeps :
    (c : Chance) (p : ServerPool) (event : PoolEvent)
    → IsChance c
    → IsPool p
    → IsExpected p event
    → Keeps (pool_step c p event)
unfolding pool_step
pool_step-Keeps c p (on_timeout e) range h lt =
    (dial_timeout p e, refl, dial_timeout-IsPool p e h lt)
pool_step-Keeps c p (on_retry e) range h lt = enable_retry-Keeps c p e range h lt
pool_step-Keeps c p (on_node id) range h few = discover-Keeps c p id range h few
pool_step-Keeps c p (on_connect id) range h (inl trusted) =
    (p, ap (λ run. run >>= λ x. some x.1) (connect_trusted p id trusted), h)
pool_step-Keeps c p (on_connect id) range h (inr (e, found, chosen)) =
    let (r, p', run, h') = connect-Keeps p id e h found chosen in (p', rw run refl, h')
pool_step-Keeps c p (on_register e) range h chosen = register_entry-Keeps p e h chosen
pool_step-Keeps c p (on_disconnect e) range h (lt, peer) = disconnect-Keeps p e h lt peer
pool_step-Keeps c p on_lookups range h u = (end_fast_discovery p, refl, slow_down p h)
