-- ===== src/Gossip/PeerSets/Registry.antt =====
-- The registered peers of a peerSet.
use go_mini_opera.Prelude.{
  subst, ◌≡◌, ◌≢◌, refl, sym, ap, ◌∙◌, ◌⊎◌, inl, inr, true, false, Option, none, some, List, [],
  ◌∷◌, All, Bool-cases, Option-cases, arith,
}
use go_mini_opera.Utils.Migration.{Str, str_eq}
use go_mini_opera.Utils.Migration.Resume.{str_eq_sound, str_eq_refl, str_eq_ne}
use go_mini_opera.Gossip.EventSets.{EventSet}
use go_mini_opera.Gossip.Heads.Tracking.{true_ne_false, id-cases}
use go_mini_opera.Gossip.Peers.{
  Peer, peers_closed, already_registered, not_registered, Result, close_peer,
}
use go_mini_opera.Gossip.PeerSets.{
  PeerSet, find_peer, delete_peer, peer_of, register, unregister, close_shared, close_all,
  PeerAction, registers, unregisters, closes, peer_act, peer_run,
}

module _ (set : EventSet) where
  -- No two peers of the list have the same id, and none of them is closed.
  abbrev pub IsRegistry : List (Peer set) → Type 0
  IsRegistry [] = Unit {0}
  IsRegistry (p ∷ ps) = (find_peer set ps p.peer_id ≡ none) × (p.terminated ≡ false) × IsRegistry ps

  pub find_peer-delete_peer_ne :
      (ps : List (Peer set)) (gone id : Str)
      → id ≢ gone
      → find_peer set (delete_peer set ps gone) id ≡ find_peer set ps id
  unfolding find_peer delete_peer
  find_peer-delete_peer_ne [] gone id differ = refl
  find_peer-delete_peer_ne (p ∷ ps) gone id differ =
      let rest = find_peer-delete_peer_ne ps gone id differ in
      elim (Bool-cases (str_eq p.peer_id gone)) [
        | inl same ↦
            let other =
              str_eq_ne p.peer_id id (λ e. differ (sym e ∙ str_eq_sound p.peer_id gone same)) in
            rw (same, other) rest
        | inr kept ↦ rw (kept, rest) refl
      ]

  pub find_peer-delete_peer_self :
      (ps : List (Peer set)) (id : Str) → find_peer set (delete_peer set ps id) id ≡ none
  unfolding find_peer delete_peer
  find_peer-delete_peer_self [] id = refl
  find_peer-delete_peer_self (p ∷ ps) id =
      let rest = find_peer-delete_peer_self ps id in
      elim (Bool-cases (str_eq p.peer_id id)) [
        | inl same ↦ rw same rest
        | inr kept ↦ rw (kept, kept) rest
      ]

  delete_peer-IsRegistry :
      (ps : List (Peer set)) (id : Str) → IsRegistry ps → IsRegistry (delete_peer set ps id)
  unfolding delete_peer
  delete_peer-IsRegistry [] id h = h
  delete_peer-IsRegistry (p ∷ ps) id (free, alive, h) =
      let rest = delete_peer-IsRegistry ps id h in
      elim (Bool-cases (str_eq p.peer_id id)) [
        | inl same ↦ rw same rest
        | inr kept ↦
            let differ : p.peer_id ≢ id =
              λ e. true_ne_false (sym (str_eq_refl id) ∙ ap (λ x. str_eq x id) (sym e) ∙ kept) in
            rw kept (find_peer-delete_peer_ne ps id p.peer_id differ ∙ free, alive, rest)
      ]

  find_peer-alive :
      (ps : List (Peer set)) (id : Str) {p : Peer set}
      → IsRegistry ps
      → find_peer set ps id ≡ some p
      → p.terminated ≡ false
  unfolding find_peer
  find_peer-alive [] id h found = cc
  find_peer-alive (q ∷ ps) id (free, alive, h) found = elim (Bool-cases (str_eq q.peer_id id)) [
    | inl same ↦ let found' = rw same at found in cc
    | inr other ↦ find_peer-alive ps id h (rw other at found)
  ]

  -- A peer that is found under an id has it.
  find_peer-id :
      (ps : List (Peer set)) (id : Str) {p : Peer set}
      → find_peer set ps id ≡ some p
      → p.peer_id ≡ id
  unfolding find_peer
  find_peer-id [] id found = cc
  find_peer-id (q ∷ ps) id {p} found = elim (Bool-cases (str_eq q.peer_id id)) [
    | inl same ↦
        let found' : some q ≡ some p = rw same at found in
        let is : q ≡ p = cc in ap (λ x. x.peer_id) (sym is) ∙ str_eq_sound q.peer_id id same
    | inr other ↦ find_peer-id ps id (rw other at found)
  ]

  -- Closing a peer that is not in the map changes nothing there.
  close_shared-free :
      (ps : List (Peer set)) (id : Str) → find_peer set ps id ≡ none → close_shared set ps id ≡ ps
  unfolding find_peer close_shared
  close_shared-free [] id free = refl
  close_shared-free (p ∷ ps) id free = elim (Bool-cases (str_eq p.peer_id id)) [
    | inl same ↦ absurd (ground arith)
    | inr other ↦ rw other (ap (λ l. p ∷ l) (close_shared-free ps id (rw other at free)))
  ]

  pub unregister-missing :
      (ps : PeerSet set) (id : Str)
      → find_peer set ps.peers id ≡ none
      → unregister set ps id ≡ (some not_registered, ps, none)
  unfolding unregister
  unregister-missing ps id missing = ground arith

  unregister-shared :
      (ps : PeerSet set) (id : Str) {p : Peer set}
      → find_peer set ps.peers id ≡ some p
      → unregister set ps id ≡ (
        none,
        record ps { peers = close_shared set (delete_peer set ps.peers id) p.peer_id },
        some (close_peer set p),
      )
  unfolding unregister
  unregister-shared ps id found = ground arith

  pub unregister-found :
      (ps : PeerSet set) (id : Str) {p : Peer set}
      → find_peer set ps.peers id ≡ some p
      → unregister set ps id
        ≡ (none, record ps { peers = delete_peer set ps.peers id }, some (close_peer set p))
  unregister-found ps id {p} found =
      let is : p.peer_id ≡ id = find_peer-id ps.peers id found in
      let gone : find_peer set (delete_peer set ps.peers id) p.peer_id ≡ none =
        ap (find_peer set (delete_peer set ps.peers id)) is
        ∙ find_peer-delete_peer_self ps.peers id in
      let same = close_shared-free (delete_peer set ps.peers id) p.peer_id gone in
      unregister-shared ps id found
      ∙ ap (λ l. (none, record ps { peers = l }, some (close_peer set p))) same

  pub register-done :
      (ps : PeerSet set) (p : Peer set)
      → ps.closed ≡ false
      → find_peer set ps.peers p.peer_id ≡ none
      → register set ps p ≡ (none, record ps { peers = p ∷ ps.peers })
  unfolding register
  register-done ps p accepts free = ground arith

  pub register-shut :
      (ps : PeerSet set) (p : Peer set)
      → ps.closed ≡ true
      → register set ps p ≡ (some peers_closed, ps)
  unfolding register
  register-shut ps p shut = ground arith

  pub register-twice :
      (ps : PeerSet set) (p : Peer set) {old : Peer set}
      → ps.closed ≡ false
      → find_peer set ps.peers p.peer_id ≡ some old
      → register set ps p ≡ (some already_registered, ps)
  unfolding register
  register-twice ps p accepts found = ground arith

  pub register_lem :
      (ps : PeerSet set) (p : Peer set) (id : Str)
      → ((ps.closed ≡ true) × (register set ps p ≡ (some peers_closed, ps)))
        ⊎ ((ps.closed ≡ false)
            × (old : Peer set) × (peer_of set ps p.peer_id ≡ some old)
            × (register set ps p ≡ (some already_registered, ps)))
        ⊎ ((ps.closed ≡ false)
            × (peer_of set ps p.peer_id ≡ none)
            × ((register set ps p).0 ≡ none)
            × (peer_of set (register set ps p).1 p.peer_id ≡ some p)
            × ((id ≡ p.peer_id) ⊎ (peer_of set (register set ps p).1 id ≡ peer_of set ps id)))
  unfolding peer_of find_peer
  register_lem ps p id = elim (Bool-cases ps.closed) [
    | inl shut ↦ inl (shut, register-shut ps p shut)
    | inr accepts ↦ elim (Option-cases (find_peer set ps.peers p.peer_id)) [
      | inr (old, found) ↦ inr (inl (accepts, old, found, register-twice ps p accepts found))
      | inl free ↦
          let done = register-done ps p accepts free in
          let there : find_peer set (p ∷ ps.peers) p.peer_id ≡ some p =
            rw (str_eq_refl p.peer_id) refl in
          let others : (id ≡ p.peer_id)
              ⊎ (find_peer set (p ∷ ps.peers) id ≡ find_peer set ps.peers id) =
            elim (id-cases id p.peer_id) [
              | inl same ↦ inl same
              | inr differ ↦ inr (rw (str_eq_ne p.peer_id id (λ e. differ (sym e))) refl)
            ] in
          inr (inr (accepts, free, ap (λ r. r.0) done, rw done there, rw done others))
    ]
  ]

module _ (set : EventSet) where
  -- A peer that is registered has just been made by newPeer.
  abbrev pub IsNew : PeerAction set → Type 0
  IsNew (registers p) = p.terminated ≡ false
  IsNew _ = Unit {0}

  abbrev Kept : Result × PeerSet set → Type 0
  Kept r = IsRegistry set r.1.peers

  act-IsRegistry :
      (t : PeerSet set) (a : PeerAction set)
      → IsNew a
      → IsRegistry set t.peers
      → IsRegistry set (peer_act set t a).peers
  unfolding peer_act close_all
  act-IsRegistry t (registers p) new h = elim (Bool-cases t.closed) [
    | inl shut ↦ subst Kept (sym (register-shut set t p shut)) h
    | inr accepts ↦ elim (Option-cases (find_peer set t.peers p.peer_id)) [
      | inr (old, found) ↦ subst Kept (sym (register-twice set t p accepts found)) h
      | inl free ↦ subst Kept (sym (register-done set t p accepts free)) (free, new, h)
    ]
  ]
  act-IsRegistry t (unregisters id) new h = elim (Option-cases (find_peer set t.peers id)) [
    | inl missing ↦
        subst (λ (r : Result × PeerSet set × Option (Peer set)). IsRegistry set r.1.peers)
          (sym (unregister-missing set t id missing)) h
    | inr (p, found) ↦
        subst (λ (r : Result × PeerSet set × Option (Peer set)). IsRegistry set r.1.peers)
          (sym (unregister-found set t id found)) (delete_peer-IsRegistry set t.peers id h)
  ]
  act-IsRegistry t closes new h = h

  -- When no peer of a peer set is closed and the set has one peer for an id, this holds again after
  -- any sequence of registering peers that are not closed, unregistering, which closes the peer
  -- wherever the set holds it, and closing the set.
  pub peer_run-IsRegistry :
      (actions : List (PeerAction set)) (t : PeerSet set)
      → All IsNew actions
      → IsRegistry set t.peers
      → IsRegistry set (peer_run set t actions).peers
  unfolding peer_run
  peer_run-IsRegistry [] t new h = h
  peer_run-IsRegistry (a ∷ actions) t (new, news) h =
      peer_run-IsRegistry actions (peer_act set t a) news (act-IsRegistry t a new h)

  -- What unregistering `gone` does, seen at `id`.
  abbrev pub Unregisters : PeerSet set → (gone id : Str) → Type 0
  Unregisters ps gone id =
      ((peer_of set ps gone ≡ none) × (unregister set ps gone ≡ (some not_registered, ps, none)))
      ⊎ ((p : Peer set) × (peer_of set ps gone ≡ some p)
          × (p.terminated ≡ false)
          × ((unregister set ps gone).0 ≡ none)
          × ((unregister set ps gone).2 ≡ some (close_peer set p))
          × (peer_of set (unregister set ps gone).1 gone ≡ none)
          × ((id ≡ gone) ⊎ (peer_of set (unregister set ps gone).1 id ≡ peer_of set ps id)))

  -- On a peer set whose ids differ and whose peers are not closed, Unregister of an id that is not
  -- registered returns errNotRegistered and changes nothing; of a registered id it returns nil,
  -- closes that peer, which was not closed before, and every other id has the same peer as before
  -- while the id has none.
  pub unregister_lem :
      (ps : PeerSet set) (gone id : Str) → IsRegistry set ps.peers → Unregisters ps gone id
  unfolding peer_of
  unregister_lem ps gone id h = elim (Option-cases (find_peer set ps.peers gone)) [
    | inl missing ↦ inl (missing, unregister-missing set ps gone missing)
    | inr (p, found) ↦
        let others : (id ≡ gone)
            ⊎ (find_peer set (delete_peer set ps.peers gone) id ≡ find_peer set ps.peers id) =
          elim (id-cases id gone) [
            | inl same ↦ inl same
            | inr differ ↦ inr (find_peer-delete_peer_ne set ps.peers gone id differ)
          ] in
        let alive = find_peer-alive set ps.peers gone h found in
        let done = unregister-found set ps gone found in
        inr (
          p,
          found,
          alive,
          ap (λ r. r.0) done,
          ap (λ r. r.2) done,
          rw done (find_peer-delete_peer_self set ps.peers gone),
          rw done others,
        )
  ]
