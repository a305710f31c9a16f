-- ===== src/Gossip/PeerSets/Apart.antt =====
-- The peers at an id after actions on a peer set, which leave those of the other ids alone.
use go_mini_opera.Prelude.{
  ◌≡◌, ◌≢◌, refl, sym, ap, ◌∙◌, inl, inr, Bool, true, false, Option, none, some, List, [], ◌∷◌,
  ◌||◌, if◌then◌else◌, Bool-cases, Option-cases, arith,
}
use go_mini_opera.Utils.Migration.{Str, str_eq}
use go_mini_opera.Utils.Migration.Resume.{str_eq_ne}
use go_mini_opera.Gossip.Heads.{is_some}
use go_mini_opera.Gossip.Heads.Tracking.{id-cases}
use go_mini_opera.Gossip.EventSets.{EventSet}
use go_mini_opera.Gossip.Peers.{Peer, PeerError, Result}
use go_mini_opera.Gossip.PeerSets.{
  PeerSet, find_peer, register, unregister, close_all, PeerAction, registers, unregisters, closes,
  peer_act, peer_run,
}
use go_mini_opera.Gossip.PeerSets.Registry.{
  register-done, register-shut, register-twice, unregister-found, unregister-missing,
  find_peer-delete_peer_self, find_peer-delete_peer_ne,
}

module _ (set : EventSet) where
  -- What stands at an id after Register: whether the set is closed, the peer at the new peer's id,
  -- whether the id is this one, the new peer, and what stood there.
  abbrev seen : Bool → Option (Peer set) → Bool → Peer set → Option (Peer set) → Option (Peer set)
  seen shut old hit new was = if shut || is_some old then was else (if hit then some new else was)

  seen_other :
      (shut : Bool) (old : Option (Peer set)) (new : Peer set) (was : Option (Peer set))
      → seen shut old false new was ≡ was
  seen_other true old new was = refl
  seen_other false none new was = refl
  seen_other false (some p) new was = refl

  -- What Register and Unregister do, seen at an id.
  register_at :
      (ps : PeerSet set) (p : Peer set) (id : Str)
      → find_peer set (register set ps p).1.peers id
        ≡ seen ps.closed
            (find_peer set ps.peers p.peer_id)
            (str_eq p.peer_id id)
            p
            (find_peer set ps.peers id)
  unfolding find_peer
  register_at ps p id =
      let old = find_peer set ps.peers p.peer_id in
      let hit = str_eq p.peer_id id in
      let was = find_peer set ps.peers id in
      elim (Bool-cases ps.closed) [
        | inl shut ↦
            ap (λ (r : Result × PeerSet set). find_peer set r.1.peers id)
              (register-shut set ps p shut)
            ∙ sym (ap (λ b. seen b old hit p was) shut)
        | inr accepts ↦ elim (Option-cases old) [
          | inr (q, found) ↦
              ap (λ (r : Result × PeerSet set). find_peer set r.1.peers id)
                (register-twice set ps p accepts found)
              ∙ sym
                  (ap (λ b. seen b old hit p was) accepts ∙ ap (λ o. seen false o hit p was) found)
          | inl free ↦
              ap (λ (r : Result × PeerSet set). find_peer set r.1.peers id)
                (register-done set ps p accepts free)
              ∙ sym (ap (λ b. seen b old hit p was) accepts ∙ ap (λ o. seen false o hit p was) free)
        ]
      ]

  pub unregister_at :
      (ps : PeerSet set) (gone id : Str)
      → id ≢ gone
      → find_peer set (unregister set ps gone).1.peers id ≡ find_peer set ps.peers id
  unregister_at ps gone id differ = elim (Option-cases (find_peer set ps.peers gone)) [
    | inl missing ↦
        ap (λ (r : Result × PeerSet set × Option (Peer set)). find_peer set r.1.peers id)
          (unregister-missing set ps gone missing)
    | inr (p, found) ↦
        ap (λ (r : Result × PeerSet set × Option (Peer set)). find_peer set r.1.peers id)
          (unregister-found set ps gone found)
        ∙ find_peer-delete_peer_ne set ps.peers gone id differ
  ]

  pub unregister_gone :
      (ps : PeerSet set) (gone : Str) → find_peer set (unregister set ps gone).1.peers gone ≡ none
  unregister_gone ps gone = elim (Option-cases (find_peer set ps.peers gone)) [
    | inl missing ↦
        ap (λ (r : Result × PeerSet set × Option (Peer set)). find_peer set r.1.peers gone)
          (unregister-missing set ps gone missing)
        ∙ missing
    | inr (p, found) ↦
        ap (λ (r : Result × PeerSet set × Option (Peer set)). find_peer set r.1.peers gone)
          (unregister-found set ps gone found)
        ∙ find_peer-delete_peer_self set ps.peers gone
  ]

  unregister_closed :
      (ps : PeerSet set) (gone : Str) → (unregister set ps gone).1.closed ≡ ps.closed
  unregister_closed ps gone = elim (Option-cases (find_peer set ps.peers gone)) [
    | inl missing ↦
        ap (λ (r : Result × PeerSet set × Option (Peer set)). r.1.closed)
          (unregister-missing set ps gone missing)
    | inr (p, found) ↦
        ap (λ (r : Result × PeerSet set × Option (Peer set)). r.1.closed)
          (unregister-found set ps gone found)
  ]

  pub register_closed : (ps : PeerSet set) (p : Peer set) → (register set ps p).1.closed ≡ ps.closed
  unfolding register
  register_closed ps p = ground arith

  -- Two peer sets that have the same peers but for one id.
  abbrev pub AgreesBut : Str → PeerSet set → PeerSet set → Type 0
  AgreesBut own t u =
      (t.closed ≡ u.closed)
      × ((id : Str) → id ≢ own → find_peer set t.peers id ≡ find_peer set u.peers id)

  -- A registration that fails changes nothing.
  pub register_kept :
      (ps : PeerSet set) (p : Peer set) {e : PeerError}
      → (register set ps p).0 ≡ some e
      → (register set ps p).1 ≡ ps
  unfolding register
  register_kept ps p failed = ground arith

  pub register_other :
      (ps : PeerSet set) (p : Peer set) (id : Str)
      → id ≢ p.peer_id
      → find_peer set (register set ps p).1.peers id ≡ find_peer set ps.peers id
  register_other ps p id differ =
      let other = str_eq_ne p.peer_id id (λ e. differ (sym e)) in
      let old = find_peer set ps.peers p.peer_id in
      let was = find_peer set ps.peers id in
      register_at ps p id
      ∙ ap (λ b. seen ps.closed old b p was) other
      ∙ seen_other ps.closed old p was

  act-AgreesBut :
      (own : Str) (a : PeerAction set) (t u : PeerSet set)
      → AgreesBut own t u
      → AgreesBut own (peer_act set t a) (peer_act set u a)
  unfolding peer_act close_all
  act-AgreesBut own (registers p) t u (shut, same) = (
    register_closed t p ∙ shut ∙ sym (register_closed u p),
    (λ id differ. elim (id-cases p.peer_id own) [
      | inl is ↦
          let apart : id ≢ p.peer_id = λ e. differ (e ∙ is) in
          register_other t p id apart ∙ same id differ ∙ sym (register_other u p id apart)
      | inr other ↦
          let hit = str_eq p.peer_id id in
          let was = find_peer set t.peers id in
          register_at t p id
          ∙ ap (λ b. seen b (find_peer set t.peers p.peer_id) hit p was) shut
          ∙ ap (λ o. seen u.closed o hit p was) (same p.peer_id other)
          ∙ ap (seen u.closed (find_peer set u.peers p.peer_id) hit p) (same id differ)
          ∙ sym (register_at u p id)
    ]),
  )
  act-AgreesBut own (unregisters gone) t u (shut, same) = (
    unregister_closed t gone ∙ shut ∙ sym (unregister_closed u gone),
    (λ id differ. elim (id-cases id gone) [
      | inl is ↦
          ap (find_peer set (unregister set t gone).1.peers) is
          ∙ unregister_gone t gone
          ∙ sym (unregister_gone u gone)
          ∙ ap (find_peer set (unregister set u gone).1.peers) (sym is)
      | inr other ↦
          unregister_at t gone id other ∙ same id differ ∙ sym (unregister_at u gone id other)
    ]),
  )
  act-AgreesBut own closes t u (shut, same) = (refl, same)

  pub run-AgreesBut :
      (own : Str) (actions : List (PeerAction set)) (t u : PeerSet set)
      → AgreesBut own t u
      → AgreesBut own (peer_run set t actions) (peer_run set u actions)
  unfolding peer_run
  run-AgreesBut own [] t u h = h
  run-AgreesBut own (a ∷ actions) t u h =
      run-AgreesBut own actions (peer_act set t a) (peer_act set u a) (act-AgreesBut own a t u h)
