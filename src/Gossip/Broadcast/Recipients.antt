-- ===== src/Gossip/Broadcast/Recipients.antt =====
-- Who gets a broadcast event in full.
use go_mini_opera.Prelude.{
  ℕ, ◌+◌, ◌*◌, ◌/◌, ◌≤◌, ◌≡◌, refl, ◌⊎◌, inl, inr, Bool, true, false, some, [], ◌∷◌, ltb, leb, ◌==◌,
  ◌||◌, if◌then◌else◌, length, get_elem?, Bool-cases, arith,
}
use go_mini_opera.Inter.Event.{Event}
use go_mini_opera.Gossip.Heads.{EventId}
use go_mini_opera.Gossip.EventSets.{EventSet}
use go_mini_opera.Gossip.Peers.{Peer, async_send_events, async_send_new_event_hashes}
use go_mini_opera.Gossip.PeerSets.{PeerSet, peers_without_event}
use go_mini_opera.Gossip.Broadcast.{
  min_of, max_of, ProtocolConfig, latency_vs_throughput_tradeoff, full_recipients,
  decide_broadcast_aggressiveness, broadcast_event,
}

if_lem : (P : ℕ → Type 0) (test : Bool) (a b : ℕ) → P a → P b → P (if test then a else b)
if_lem P true a b h k = h
if_lem P false a b h k = k

-- None, all of `n`, or at least four.
abbrev pub IsShare : ℕ → ℕ → Type 0
IsShare n m = (m ≡ 0) ⊎ (n ≤ m) ⊎ (4 ≤ m)

full_recipients-IsShare :
    (sqrt : ℕ → ℕ) (config : ProtocolConfig) (size passed n : ℕ)
    → IsShare n (full_recipients sqrt config size passed n)
unfolding full_recipients
full_recipients-IsShare sqrt config size passed n =
    let all : IsShare n n = inr (inl (omega arith)) in
    if_lem (IsShare n) (leb 100000000 (latency_vs_throughput_tradeoff config)) n _ all (
      if_lem (IsShare n) (leb (latency_vs_throughput_tradeoff config) 0) 0 _ (inl refl) (
        if_lem (IsShare n)
          (leb (passed + size * 500000) (latency_vs_throughput_tradeoff config * 700000000 / 100)) n
          _ all
          (if_lem (IsShare n)
            (leb (passed + size * 500000)
                (latency_vs_throughput_tradeoff config * 700000000 / 100 * 20)
              || passed == 0)
            (max_of (sqrt n) 4) 0 (inr (inr (ground arith))) (inl refl))))

min_of_share : (n m : ℕ) → IsShare n m → (min_of m n ≡ 0) ⊎ (min_of m n ≡ n) ⊎ (4 ≤ min_of m n)
min_of_share n m (inl e) = inl (ground arith)
min_of_share n m (inr (inl le)) = inr (inl (ground arith))
min_of_share n m (inr (inr le)) = elim (Bool-cases (ltb n m)) [
  | inl fewer ↦ inr (inl (rw fewer refl))
  | inr enough ↦ inr (inr (rw enough le))
]

pub decide_broadcast_aggressiveness_lem :
    (sqrt : ℕ → ℕ) (config : ProtocolConfig) (size passed n : ℕ)
    → (decide_broadcast_aggressiveness sqrt config size passed n ≤ n)
      × ((decide_broadcast_aggressiveness sqrt config size passed n ≡ 0)
          ⊎ (decide_broadcast_aggressiveness sqrt config size passed n ≡ n)
          ⊎ (4 ≤ decide_broadcast_aggressiveness sqrt config size passed n))
unfolding decide_broadcast_aggressiveness
decide_broadcast_aggressiveness_lem sqrt config size passed n = (
  ground arith,
  min_of_share n (full_recipients sqrt config size passed n)
      (full_recipients-IsShare sqrt config size passed n),
)

module _ (set : EventSet) where
  -- The number returned, and what the `i`-th of the interested peers, `p`, is sent.
  abbrev pub Offers :
      (EventId → ℕ)
      → (sqrt : ℕ → ℕ) → ProtocolConfig
      → PeerSet set
      → Event
      → (passed i : ℕ) → Peer set
      → Type 0
  Offers event_epoch sqrt config ps event passed i p =
      ((broadcast_event set event_epoch sqrt config ps event passed).0
        ≡ length (peers_without_event set event_epoch ps event.id))
      × (get_elem? (broadcast_event set event_epoch sqrt config ps event passed).1 i
          ≡ some (
              if ltb i (
                decide_broadcast_aggressiveness sqrt config event.size passed
                  (length (peers_without_event set event_epoch ps event.id)))
              then async_send_events set p (event ∷ [])
              else async_send_new_event_hashes set p (event.id ∷ [])))
