-- ===== src/Gossip/Lifecycle.antt =====
-- peerMisbehaviour, removePeer, myProgress, highestPeerProgress, and handle of gossip/handler.go.
pub mod Removal
pub mod Sessions
use go_mini_opera.Prelude.{
  ℕ, zero, suc, ◌+◌, ◌-◌, ◌%◌, ◌^◌, ◌≡◌, ◌≢◌, refl, sym, ap, subst, ◌∙◌, ◌⊎◌, inl, inr, Bool, true,
  false, not, ◌&&◌, ◌||◌, Option, none, some, List, [], ◌∷◌, ◌++◌, map, All, Bool-cases,
  Option-cases, ltb, leb, ◌==◌, if◌then◌else◌, length, arith,
}
use go_mini_opera.Utils.Migration.{Str, str_eq}
use go_mini_opera.Utils.Migration.Resume.{str_eq_refl}
use go_mini_opera.EventCheck.Errors.{Failure, is_ban}
use go_mini_opera.Gossip.Heads.{EventId, is_some}
use go_mini_opera.Gossip.Packs.{PackInfo}
use go_mini_opera.Gossip.EventSets.{EventSet}
use go_mini_opera.Gossip.Peers.{
  Peer, PeerProgress, Result, Link, disc_too_many_peers, send_progress, Message,
}
use go_mini_opera.Gossip.PeerSets.{
  PeerSet, find_peer, delete_peer, peer_of, peers_num, register, unregister, PeerAction, peer_run,
}
use go_mini_opera.Gossip.Incoming.{Reading, Pick, handshake}
use go_mini_opera.Gossip.Handler.{NodeView, Downloading, Session, handle_msg}

-- What myProgress reads of the store.
pub record ProgressView : Type 0 where
  pub latest_block : ℕ
  pub atropos_of : ℕ → EventId
  pub store_epoch : ℕ
  pub packs_num_or_default : ℕ → ℕ
  pub pack_info_or_default : ℕ → ℕ → PackInfo

-- `myProgress`; an idx.Pack is an uint32.
unfoldable pub my_progress : ProgressView → PeerProgress
my_progress view = record {
  epoch = view.store_epoch;
  num_of_blocks = view.latest_block;
  last_block = view.atropos_of view.latest_block;
  last_pack_info =
      view.pack_info_or_default view.store_epoch
        ((view.packs_num_or_default view.store_epoch + (2 ^ 32 - 1)) % 2 ^ 32);
}

module _ (set : EventSet) where
  -- The loop of `highestPeerProgress`.
  unfoldable pub highest_from : PeerProgress → List (Peer set) → PeerProgress
  highest_from max [] = max
  highest_from max (p ∷ ps) =
      highest_from (if ltb max.num_of_blocks p.progress.num_of_blocks then p.progress else max) ps

  unfoldable pub highest_peer_progress : ProgressView → PeerSet set → PeerProgress
  highest_peer_progress view ps = highest_from (my_progress view) ps.peers

  -- `removePeer`, with whether the peer is disconnected; the downloader forgets it as well.
  unfoldable pub remove_peer : PeerSet set → Str → PeerSet set × Bool
  remove_peer ps id = elim (peer_of set ps id) [
    | none ↦ (ps, false)
    | some p ↦ ((unregister set ps id).1, true)
  ]

  -- `peerMisbehaviour`; `all_unknown` says that the error is ErrAllUnknownBeforeKnown.
  unfoldable pub peer_misbehaviour :
      PeerSet set → Str → Failure → (all_unknown : Bool) → PeerSet set × Bool
  peer_misbehaviour ps id err all_unknown =
      if is_ban err && not all_unknown then ((remove_peer ps id).0, true) else (ps, false)

  -- What the store and the downloader are when a message is read.
  pub record Turn : Type 0 where
    pub view : NodeView
    pub downloading : Downloading
    pub reading : Reading

  abbrev pub next_turn :
      Result × Session set → (Session set → Result × Session set) → Result × Session set
  next_turn (some err, s) run = (some err, s)
  next_turn (none, s) run = run s

  -- The loop of `handle`, over the messages that are read; `none` when it goes on.
  unfoldable pub handle_loop : Link → Session set → List Turn → Result × Session set
  handle_loop link s [] = (none, s)
  handle_loop link s (t ∷ turns) =
      next_turn (handle_msg set t.view t.downloading link s t.reading)
        (λ s'. handle_loop link s' turns)

  -- What the other handlers, the fetcher and Close do to the peer set while `handle` is at work:
  -- before it registers its peer, and from then on until the deferred removePeer.
  pub record Others : Type 0 where
    pub before_register : List (PeerAction set)
    pub before_remove : List (PeerAction set)

  -- The deferred removePeer, when the loop has ended.
  abbrev pub after_loop : PeerSet set → Str → Result × Session set → Option Result × PeerSet set
  after_loop ps id (none, s) = (none, ps)
  after_loop ps id (some err, s) = (some (some err), (remove_peer ps id).0)

  abbrev pub after_register :
      Link
      → Others
      → Peer set
      → Bool
      → List Turn
      → Result × PeerSet set
      → Option Result × PeerSet set
  after_register link others p synced turns (some err, ps) = (some (some err), ps)
  after_register link others p synced turns (none, ps) =
      after_loop (peer_run set ps others.before_remove) p.peer_id
        (handle_loop link (record { peer = p; synced = synced; calls = [] }) turns)

  abbrev pub after_handshake :
      Link
      → Others
      → PeerSet set
      → Bool
      → List Turn
      → Option Result × Peer set
      → Option Result × PeerSet set
  after_handshake link others ps synced turns (none, p) = (none, ps)
  after_handshake link others ps synced turns (some (some err), p) = (some (some err), ps)
  after_handshake link others ps synced turns (some none, p) =
      after_register link others p synced turns (register set ps p)

  -- `handle`: what it returns, `none` as long as it runs, and the peer set.
  unfoldable pub handle :
      Link
      → Others
      → PeerSet set
      → (max_peers : ℕ) (trusted : Bool) (network : ℕ) → ProgressView
      → Bool
      → Peer set
      → Reading
      → List Pick
      → List Turn
      → Option Result × PeerSet set
  handle link others ps max_peers trusted network view synced p status picks turns =
      if leb max_peers (peers_num set ps) && not trusted
      then (some (some disc_too_many_peers), ps)
      else after_handshake link others (peer_run set ps others.before_register) synced turns
          (handshake set link p network (my_progress view) (view.atropos_of 0) status picks)
