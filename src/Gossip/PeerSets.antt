-- ===== src/Gossip/PeerSets.antt =====
-- peerSet of gossip/peer.go. The list has the registered peers in the order that a range over the Go
-- map gives them; that order is not specified, so no theorem depends on it. The goroutine
-- that Register starts is `broadcast`, whose cases stand in Gossip/Peers.antt.
pub mod Registry
pub mod Apart
pub mod Best
use go_mini_opera.Prelude.{
  ℕ, Bool, true, false, Option, none, some, List, [], ◌∷◌, ◌++◌, map, if◌then◌else◌, length,
}
use go_mini_opera.Utils.Migration.{Str, str_eq}
use go_mini_opera.Gossip.Heads.{EventId, is_some}
use go_mini_opera.Gossip.EventSets.{EventSet}
use go_mini_opera.Gossip.Peers.{
  Peer, PeerProgress, Result, peers_closed, already_registered, not_registered, close_peer,
  interested_in, progress_less, no_progress,
}

pub record PeerSet (set : EventSet) : Type 0 where
  pub peers : List (Peer set)
  pub closed : Bool

module _ (set : EventSet) where
  unfoldable pub new_peer_set : PeerSet set
  new_peer_set = record { peers = []; closed = false }

  -- The element of the map at the id.
  unfoldable pub find_peer : List (Peer set) → Str → Option (Peer set)
  find_peer [] id = none
  find_peer (p ∷ ps) id = if str_eq p.peer_id id then some p else find_peer ps id

  -- `delete(ps.peers, id)`.
  unfoldable pub delete_peer : List (Peer set) → Str → List (Peer set)
  delete_peer [] id = []
  delete_peer (p ∷ ps) id =
      let rest = delete_peer ps id in if str_eq p.peer_id id then rest else p ∷ rest

  -- `Peer`.
  unfoldable pub peer_of : PeerSet set → Str → Option (Peer set)
  peer_of ps id = find_peer ps.peers id

  -- `Len`.
  unfoldable pub peers_num : PeerSet set → ℕ
  peers_num ps = length ps.peers

  -- `Register`.
  unfoldable pub register : PeerSet set → Peer set → Result × PeerSet set
  register ps p =
      if ps.closed
      then (some peers_closed, ps)
      else (if is_some (find_peer ps.peers p.peer_id)
          then (some already_registered, ps)
          else (none, record ps { peers = p ∷ ps.peers }))

  -- `p.close()` of the peer with the id, as the map sees it: an element that is this pointer is the
  -- one whose peer has this id.
  unfoldable pub close_shared : List (Peer set) → Str → List (Peer set)
  close_shared [] id = []
  close_shared (p ∷ ps) id =
      (if str_eq p.peer_id id then close_peer set p else p) ∷ close_shared ps id

  -- `Unregister`, with the peer that it closes.
  unfoldable pub unregister : PeerSet set → Str → Result × PeerSet set × Option (Peer set)
  unregister ps id = elim (find_peer ps.peers id) [
    | none ↦ (some not_registered, ps, none)
    | some p ↦ (
      none,
      record ps { peers = close_shared (delete_peer ps.peers id) p.peer_id },
      some (close_peer set p),
    )
  ]

  abbrev pub filter_peers : (Peer set → Bool) → List (Peer set) → List (Peer set)
  filter_peers test [] = []
  filter_peers test (p ∷ ps) = let rest = filter_peers test ps in if test p then p ∷ rest else rest

  unfoldable pub peers_without_event : (EventId → ℕ) → PeerSet set → EventId → List (Peer set)
  peers_without_event event_epoch ps e =
      filter_peers (λ p. interested_in set event_epoch p e) ps.peers

  -- The loop of `BestPeer`.
  unfoldable pub best_from : List (Peer set) → Option (Peer set) → PeerProgress → Option (Peer set)
  best_from [] best progress = best
  best_from (p ∷ ps) best progress =
      let better = progress_less progress p.progress in
      best_from ps (if better then some p else best) (if better then p.progress else progress)

  unfoldable pub best_peer : PeerSet set → Option (Peer set)
  best_peer ps = best_from ps.peers none no_progress

  -- `Close`, with the ids of the peers that it disconnects.
  unfoldable pub close_all : PeerSet set → PeerSet set × List Str
  close_all ps = (record ps { closed = true }, map (λ (p : Peer set). p.peer_id) ps.peers)

  -- What happens to a peer set.
  pub data PeerAction : Type 0 where
    registers : Peer set → PeerAction
    unregisters : Str → PeerAction
    closes : PeerAction

module _ (set : EventSet) where
  -- One action on the peer set, and several.
  unfoldable pub peer_act : PeerSet set → PeerAction set → PeerSet set
  peer_act ps (registers p) = (register set ps p).1
  peer_act ps (unregisters id) = (unregister set ps id).1
  peer_act ps closes = (close_all set ps).0

  unfoldable pub peer_run : PeerSet set → List (PeerAction set) → PeerSet set
  peer_run ps [] = ps
  peer_run ps (a ∷ actions) = peer_run (peer_act ps a) actions
