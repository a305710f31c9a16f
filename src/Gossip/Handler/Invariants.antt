-- ===== src/Gossip/Handler/Invariants.antt =====
-- What handleMsg sends and keeps, by its effects.
use go_mini_opera.Prelude.{
  ◌≤◌, ◌≡◌, refl, sym, ap, subst, ◌∙◌, ◌⊎◌, inl, inr, true, none, List, [], ◌∷◌, ◌++◌, append-nil,
  All, Bool-cases, ◌==◌, length, arith,
}
use go_mini_opera.Gossip.Heads.{EventId}
use go_mini_opera.Gossip.EventSets.{EventSet, EventSetLaws}
use go_mini_opera.Gossip.Peers.{
  Peer, Result, Link, Message, set_progress, mark_event, mark_events, note_each, send,
}
use go_mini_opera.Gossip.Peers.Requests.{send-cases}
use go_mini_opera.Gossip.Peers.Known.{
  IsBounded, mark_events-IsBounded, note_each-IsBounded, send-known_events,
}
use go_mini_opera.Gossip.Incoming.{Reading}
use go_mini_opera.Gossip.Handler.{NodeView, Downloading, Session, handle_msg}
use go_mini_opera.Gossip.Handler.Effects.{
  Effect, no_effect, progresses, marks, answers, apply_effect, IsAllowed, IsWithinLimits,
  handle_msg_effect,
}

module _ (set : EventSet) where
  mark_events-sent : (ids : List EventId) (p : Peer set) → (mark_events set p ids).sent ≡ p.sent
  unfolding mark_events mark_event
  mark_events-sent [] p = refl
  mark_events-sent (id ∷ ids) p = mark_events-sent ids (mark_event set p id)

  note_each-sent : (ids : List EventId) (p : Peer set) → (note_each set p ids).sent ≡ p.sent
  unfolding note_each
  note_each-sent [] p = refl
  note_each-sent (id ∷ ids) p = note_each-sent ids _

  module _ (view : NodeView) (link : Link) where
    -- At most one answer is sent, which is within its limits, and none with an error.
    abbrev pub Answers : Session set → Result × Session set → Type 0
    Answers s r =
        (ms : List Message) × (r.1.peer.sent ≡ s.peer.sent ++ ms)
        × (length ms ≤ 1)
        × All IsWithinLimits ms
        × ((r.0 ≡ none) ⊎ (ms ≡ []))

    no_answer :
        (s : Session set) (r : Result × Session set) → r.1.peer.sent ≡ s.peer.sent → Answers s r
    no_answer s r same = ([], same ∙ sym (append-nil s.peer.sent), omega arith, tt, inr refl)

    effect-Answers :
        (s : Session set) (r : Result × Session set) (e : Effect)
        → r.1 ≡ apply_effect set view link s e
        → IsAllowed set view link r.0 e
        → Answers s r
    unfolding set_progress
    effect-Answers s r no_effect becomes allowed =
        no_answer s r (ap (λ (x : Session set). x.peer.sent) becomes)
    effect-Answers s r (progresses progress calls) becomes allowed =
        no_answer s r (ap (λ (x : Session set). x.peer.sent) becomes)
    effect-Answers s r (marks ids calls) becomes allowed =
        no_answer s r (ap (λ (x : Session set). x.peer.sent) becomes ∙ mark_events-sent ids s.peer)
    effect-Answers s r (answers ids m) becomes (fine, within) =
        let noted = note_each set s.peer ids in
        let sent : r.1.peer.sent ≡ (send set link noted m).1.sent =
          ap (λ (x : Session set). x.peer.sent) becomes in
        elim (send-cases set link noted m) [
          | inl done ↦ (
            m ∷ [],
            sent ∙ ap (λ x. x.1.sent) done ∙ ap (λ l. l ++ (m ∷ [])) (note_each-sent ids s.peer),
            omega arith,
            (within, tt),
            inl fine,
          )
          | inr (err, failed) ↦
              no_answer s r (sent ∙ ap (λ x. x.1.sent) failed ∙ note_each-sent ids s.peer)
        ]

    effect-IsBounded :
        EventSetLaws set
        → (s : Session set) (e : Effect) → IsBounded set s.peer
        → IsBounded set (apply_effect set view link s e).peer
    unfolding set_progress
    effect-IsBounded laws s no_effect h = h
    effect-IsBounded laws s (progresses progress calls) h = h
    effect-IsBounded laws s (marks ids calls) h = mark_events-IsBounded set laws ids s.peer h
    effect-IsBounded laws s (answers ids m) h =
        rw (send-known_events set laws link (note_each set s.peer ids) m)
          (note_each-IsBounded set laws ids s.peer h)

    -- The initial sync is as before, or done by a peer of the node's epoch.
    abbrev pub Syncs : Session set → Session set → Type 0
    Syncs s s' =
        (s'.synced ≡ s.synced) ⊎ ((s'.synced ≡ true) × (s'.peer.progress.epoch ≡ view.node_epoch))

    effect-Syncs : (s : Session set) (e : Effect) → Syncs s (apply_effect set view link s e)
    unfolding set_progress
    effect-Syncs s no_effect = inl refl
    effect-Syncs s (marks ids calls) = inl refl
    effect-Syncs s (answers ids m) = inl refl
    effect-Syncs s (progresses progress calls) =
        elim (Bool-cases (progress.epoch == view.node_epoch)) [
          | inl same ↦ inr (rw same refl, ground arith)
          | inr differ ↦ inl (rw differ refl)
        ]

    module _ (downloading : Downloading) (s : Session set) (reading : Reading) where
      -- handleMsg sends the peer at most one message, and none when it returns an error; what it
      -- sends is one to 1000 raw events or pack infos, or one to 251 ids of a pack.
      pub handle_msg-Answers : Answers s (handle_msg set view downloading link s reading)
      handle_msg-Answers =
          let h = handle_msg_effect set view link downloading s reading in
          effect-Answers s (handle_msg set view downloading link s reading) h.effect h.becomes
            h.allowed

      pub handle_msg-IsBounded :
          EventSetLaws set
          → IsBounded set s.peer
          → IsBounded set (handle_msg set view downloading link s reading).1.peer
      handle_msg-IsBounded laws bounded =
          let h = handle_msg_effect set view link downloading s reading in
          subst (λ (x : Session set). IsBounded set x.peer) (sym h.becomes)
            (effect-IsBounded laws s h.effect bounded)

      pub handle_msg-Syncs : Syncs s (handle_msg set view downloading link s reading).1
      handle_msg-Syncs =
          let h = handle_msg_effect set view link downloading s reading in
          subst (λ x. Syncs s x) (sym h.becomes) (effect-Syncs s h.effect)
