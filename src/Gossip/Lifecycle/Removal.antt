-- ===== src/Gossip/Lifecycle/Removal.antt =====
-- A peer's handler takes its peer out of the peer set, and leaves the others' alone.
use go_mini_opera.Prelude.{
  ℕ, ◌≡◌, ◌≢◌, refl, sym, ap, ◌∙◌, subst, ◌⊎◌, inl, inr, Bool, true, false, Option, none, some,
  List, [], not, ◌&&◌, leb, if◌then◌else◌, Option-cases, arith,
}
use go_mini_opera.Utils.Migration.{Str}
use go_mini_opera.Gossip.EventSets.{EventSet}
use go_mini_opera.Gossip.Peers.{Peer, Result, Link, disc_too_many_peers}
use go_mini_opera.Gossip.PeerSets.{
  PeerSet, find_peer, peer_of, peers_num, register, unregister, peer_run,
}
use go_mini_opera.Gossip.PeerSets.Apart.{
  register_other, unregister_at, unregister_gone, register_closed, run-AgreesBut, AgreesBut,
  register_kept,
}
use go_mini_opera.Gossip.Incoming.{Reading, Pick, handshake}
use go_mini_opera.Gossip.Handler.{Session}
use go_mini_opera.Gossip.Lifecycle.{
  ProgressView, my_progress, Turn, Others, remove_peer, after_loop, after_register, after_handshake,
  handle_loop, handle,
}

module _ (set : EventSet) where
  remove_peer-found :
      (ps : PeerSet set) (id : Str) {p : Peer set}
      → find_peer set ps.peers id ≡ some p
      → remove_peer set ps id ≡ ((unregister set ps id).1, true)
  unfolding remove_peer peer_of
  remove_peer-found ps id found = ground arith

  remove_peer-missing :
      (ps : PeerSet set) (id : Str)
      → find_peer set ps.peers id ≡ none
      → remove_peer set ps id ≡ (ps, false)
  unfolding remove_peer peer_of
  remove_peer-missing ps id missing = ground arith

  -- removePeer leaves no peer under the id, and the others.
  remove_peer_lem :
      (ps : PeerSet set) (own : Str)
      → (peer_of set (remove_peer set ps own).0 own ≡ none)
        × ((id : Str) → id ≢ own → peer_of set (remove_peer set ps own).0 id ≡ peer_of set ps id)
  unfolding peer_of
  remove_peer_lem ps own = elim (Option-cases (find_peer set ps.peers own)) [
    | inl missing ↦
        let done = remove_peer-missing ps own missing in
        (
          ap (λ (r : PeerSet set × Bool). find_peer set r.0.peers own) done ∙ missing,
          (λ id differ. ap (λ (r : PeerSet set × Bool). find_peer set r.0.peers id) done),
        )
    | inr (p, found) ↦
        let done = remove_peer-found ps own found in
        (
          ap (λ (r : PeerSet set × Bool). find_peer set r.0.peers own) done
              ∙ unregister_gone set ps own,
          (λ id differ.
              ap (λ (r : PeerSet set × Bool). find_peer set r.0.peers id) done
              ∙ unregister_at set ps own id differ),
        )
  ]

  module _ (others : Others set) (ps : PeerSet set) where
    -- The peer set when the peer is registered.
    abbrev ready : PeerSet set
    ready = peer_run set ps others.before_register

    -- The peer's id has no peer, and every other id has the one that it has when the others act on
    -- the set alone.
    abbrev IsAlone : Str → PeerSet set → Type 0
    IsAlone own ps' =
        (peer_of set ps' own ≡ none)
        × ((id : Str)
            → id ≢ own
            → peer_of set ps' id ≡ peer_of set (peer_run set ready others.before_remove) id)

    -- Where handle returns, with the outcome of the handshake.
    abbrev pub Returns : Bool → Option Result × Peer set → Option Result × PeerSet set → Type 0
    Returns many shaken run =
        ((many ≡ true) × (run ≡ (some (some disc_too_many_peers), ps)))
        ⊎ ((many ≡ false)
            × ((shaken.0 ≡ run.0) ⊎ (some (register set ready shaken.1).0 ≡ run.0))
            × (run.1 ≡ ready))
        ⊎ ((many ≡ false)
            × (shaken.0 ≡ some none)
            × ((register set ready shaken.1).0 ≡ none)
            × IsAlone shaken.1.peer_id run.1)

    removed :
        (p : Peer set) (run : Result × Session set) {err : Result}
        → (after_loop set
            (peer_run set (register set ready p).1 others.before_remove)
            p.peer_id
            run).0
          ≡ some err
        → IsAlone p.peer_id
            (after_loop set
              (peer_run set (register set ready p).1 others.before_remove)
              p.peer_id
              run).1
    unfolding peer_of
    removed p (none, s) returned = cc
    removed p (some e, s) returned =
        let t = peer_run set (register set ready p).1 others.before_remove in
        let (gone, kept) = remove_peer_lem t p.peer_id in
        let start : AgreesBut set p.peer_id (register set ready p).1 ready =
          (register_closed set ready p, (λ id differ. register_other set ready p id differ)) in
        let agrees =
          run-AgreesBut set p.peer_id others.before_remove (register set ready p).1 ready start in
        (gone, (λ id differ. kept id differ ∙ agrees.1 id differ))

    module _ (link : Link) (synced : Bool) (turns : List (Turn set)) where
      -- The loop of the registered peer.
      abbrev loop : Peer set → Result × Session set
      loop p = handle_loop set link (record { peer = p; synced = synced; calls = [] }) turns

      after_register_lem :
          (p : Peer set) (r : Result × PeerSet set) {err : Result}
          → register set ready p ≡ r
          → (after_register set link others p synced turns r).0 ≡ some err
          → ((some r.0 ≡ some err) × ((after_register set link others p synced turns r).1 ≡ ready))
            ⊎ ((r.0 ≡ none) × IsAlone p.peer_id (after_register set link others p synced turns r).1)
      after_register_lem p (some x, t) e returned =
          inl (returned, ap (λ r. r.1) (sym e) ∙ register_kept set ready p (ap (λ r. r.0) e))
      after_register_lem p (none, t) {err} e returned = inr (
        refl,
        subst
            (λ u.
              (after_loop set (peer_run set u others.before_remove) p.peer_id (loop p)).0 ≡ some err
              → IsAlone p.peer_id
                  (after_loop set (peer_run set u others.before_remove) p.peer_id (loop p)).1)
            (ap (λ r. r.1) e) (removed p (loop p)) returned,
      )

      decided :
          (many : Bool) (shaken : Option Result × Peer set) {err : Result}
          → (if many
              then (some (some disc_too_many_peers), ps)
              else after_handshake set link others ready synced turns shaken).0
            ≡ some err
          → Returns many shaken (
              if many
              then (some (some disc_too_many_peers), ps)
              else after_handshake set link others ready synced turns shaken)
      decided true shaken returned = inl (refl, refl)
      decided false (none, p) returned = cc
      decided false (some (some e), p) returned = inr (inl (refl, inl refl, refl))
      decided false (some none, p) returned =
          elim (after_register_lem p (register set ready p) refl returned) [
            | inl (same, kept) ↦ inr (inl (refl, inr (same ∙ sym returned), kept))
            | inr (done, alone) ↦ inr (inr (refl, refl, done, alone))
          ]

      -- Whatever the others do to the peer set before handle registers its peer and from then until
      -- the deferred removePeer, handle, when it returns, does it in one of three ways: for too
      -- many peers, with the set as it was; with the error of the handshake or of the registration,
      -- with the set as the others left it; or after the registration and the loop of the messages,
      -- and then the peer's id has no peer in the set, and every other id has the one that it has
      -- when the others act on the set alone.
      pub handle_lem :
          (max_peers : ℕ) (trusted : Bool) (network : ℕ) (view : ProgressView) (p : Peer set)
          (status : Reading) (picks : List Pick) {err : Result}
          → (handle set link others ps max_peers trusted network view synced p status picks turns).0
            ≡ some err
          → Returns
              (leb max_peers (peers_num set ps) && not trusted)
              (handshake set link p network (my_progress view) (view.atropos_of 0) status picks)
              (handle set link others ps max_peers trusted network view synced p status picks turns)
      unfolding handle
      handle_lem max_peers trusted network view p status picks returned =
          decided (leb max_peers (peers_num set ps) && not trusted)
            (handshake set link p network (my_progress view) (view.atropos_of 0) status picks)
            returned
