-- ===== src/Gossip/Broadcast.antt =====
-- decideBroadcastAggressiveness, BroadcastEvent and the loops of gossip/handler.go. A time.Duration is
-- a number of nanoseconds; a negative duration, which BroadcastEvent makes 0, is given as 0, and
-- products are taken to stay below 2 ^ 63.
pub mod Recipients
use go_mini_opera.Prelude.{
  ℕ, zero, suc, ◌+◌, ◌-◌, ◌*◌, ◌/◌, Bool, true, false, not, ◌&&◌, ◌||◌, Option, none, some, List,
  [], ◌∷◌, ◌++◌, map, ltb, leb, ◌==◌, if◌then◌else◌, length, take, drop,
}
use go_mini_opera.Utils.Migration.{Str, str_eq}
use go_mini_opera.Inter.Event.{Event}
use go_mini_opera.Gossip.Heads.{EventId}
use go_mini_opera.Gossip.EventSets.{EventSet}
use go_mini_opera.Gossip.Peers.{
  Peer, PeerProgress, Link, Message, async_send_events, async_send_new_event_hashes, send_progress,
}
use go_mini_opera.Gossip.PeerSets.{PeerSet, find_peer, peers_without_event}

-- `LatencyImportance` and `ThroughputImportance` of gossip/config.go.
pub record ProtocolConfig : Type 0 where
  pub latency_importance : ℕ
  pub throughput_importance : ℕ

abbrev pub millisecond : ℕ
millisecond = 1000000

abbrev pub max_percents : ℕ
max_percents = 1000000 * 100

unfoldable pub latency_vs_throughput_tradeoff : ProtocolConfig → ℕ
latency_vs_throughput_tradeoff config =
    if config.throughput_importance == 0
    then max_percents
    else config.latency_importance * 100 / config.throughput_importance

abbrev pub max_of : ℕ → ℕ → ℕ
max_of a b = if ltb a b then b else a

abbrev pub min_of : ℕ → ℕ → ℕ
min_of a b = if ltb b a then b else a

-- `decideBroadcastAggressiveness`; `sqrt` is the floor of math.Sqrt.
unfoldable pub full_recipients : (sqrt : ℕ → ℕ) → ProtocolConfig → (size passed peers_num : ℕ) → ℕ
full_recipients sqrt config size passed peers_num =
    let tradeoff = latency_vs_throughput_tradeoff config in
    let broadcast_cost = passed + size * (millisecond / 2) in
    let all_cost_target = tradeoff * (700 * millisecond) / 100 in
    let sqrt_cost_target = all_cost_target * 20 in
    if leb max_percents tradeoff
    then peers_num
    else (if leb tradeoff 0
        then 0
        else (if leb broadcast_cost all_cost_target
            then peers_num
            else (if leb broadcast_cost sqrt_cost_target || passed == 0
                then max_of (sqrt peers_num) 4
                else 0)))

unfoldable pub decide_broadcast_aggressiveness :
    (sqrt : ℕ → ℕ) → ProtocolConfig → (size passed peers_num : ℕ) → ℕ
decide_broadcast_aggressiveness sqrt config size passed peers_num =
    min_of (full_recipients sqrt config size passed peers_num) peers_num

module _ (set : EventSet) where
  -- What BroadcastEvent does to the peers that are interested in the event.
  unfoldable pub broadcast_to : ℕ → Event → List (Peer set) → List (Peer set)
  broadcast_to recipients event peers =
      map (λ p. async_send_events set p (event ∷ [])) (take recipients peers)
      ++ map (λ p. async_send_new_event_hashes set p (event.id ∷ [])) (drop recipients peers)

  -- `BroadcastEvent`: the number of the interested peers, and these after it.
  unfoldable pub broadcast_event :
      (EventId → ℕ)
      → (sqrt : ℕ → ℕ) → ProtocolConfig
      → PeerSet set
      → Event
      → (passed : ℕ) → ℕ × List (Peer set)
  broadcast_event event_epoch sqrt config ps event passed =
      let peers = peers_without_event set event_epoch ps event.id in
      if length peers == 0 then (0, []) else (
        length peers,
        broadcast_to (decide_broadcast_aggressiveness sqrt config event.size passed (length peers))
            event peers,
      )

  -- A round of `progressBroadcastLoop`: every peer is sent the progress before the last one.
  unfoldable pub broadcast_progress : Link → List (Peer set) → PeerProgress → List (Peer set)
  broadcast_progress link ps prev_progress =
      map (λ p. (send_progress set link p prev_progress).1) ps

  -- The test of `onNewEpochLoop` for a peer of the new epoch.
  unfoldable pub any_of_epoch : List (Peer set) → ℕ → Bool
  any_of_epoch [] my_epoch = false
  any_of_epoch (p ∷ ps) my_epoch =
      let rest = any_of_epoch ps my_epoch in if p.progress.epoch == my_epoch then true else rest

  -- The new value of `synced` in a round of `onNewEpochLoop`.
  unfoldable pub synced_on_new_epoch : Bool → List (Peer set) → ℕ → Bool
  synced_on_new_epoch synced ps my_epoch = if synced then true else any_of_epoch ps my_epoch

  -- `peerEpoch` of that loop.
  unfoldable pub peer_epoch : PeerSet set → Str → ℕ
  peer_epoch ps id = elim (find_peer set ps.peers id) [ none ↦ 0 | some p ↦ p.progress.epoch ]
