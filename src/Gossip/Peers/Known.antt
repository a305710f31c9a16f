-- ===== src/Gossip/Peers/Known.antt =====
-- The set of the events that a peer knows stays within its bound.
use go_mini_opera.Prelude.{
  ℕ, zero, suc, ◌<◌, ◌≤◌, ◌≡◌, inl, inr, false, List, [], ◌∷◌, ◌++◌, Bool-cases, Option-cases, leb,
  ltb, length, arith,
}
use go_mini_opera.Inter.Event.{Event}
use go_mini_opera.Gossip.Heads.{EventId}
use go_mini_opera.Gossip.EventSets.{EventSet, EventSetLaws}
use go_mini_opera.Gossip.Peers.{
  Peer, Link, Raw, Message, new_event_hashes_msg, events_msg, events_rlp_msg, event_ids,
  interested_in, shrink, make_room, add_all, mark_event, mark_events, note_all, note_each, send,
  send_new_event_hashes, send_events, send_events_rlp, async_send_new_event_hashes,
  async_send_events,
}

abbrev pub IsBounded : (set : EventSet) → Peer set → Type 0
IsBounded set p = set.cardinality p.known_events ≤ 16384

module _ (set : EventSet) (laws : EventSetLaws set) where
  shrink_fits :
      (fuel : ℕ) (s : set.Set)
      → set.cardinality s ≤ fuel
      → set.cardinality (shrink set fuel s) < 16384
  unfolding shrink
  shrink_fits zero s h = omega arith
  shrink_fits (suc fuel) s h = elim (Bool-cases (leb 16384 (set.cardinality s))) [
    | inr fits ↦ ground arith
    | inl full ↦
        let count = laws.cardinality-pop s (ground arith) in
        let rest = shrink_fits fuel (set.pop s) (omega arith) in ground arith
  ]

  -- The loop that makes room ends below the bound.
  pub make_room_fits : (s : set.Set) → set.cardinality (make_room set s) < 16384
  unfolding make_room
  make_room_fits s = shrink_fits (set.cardinality s) s (omega arith)

  pub mark_event-IsBounded : (p : Peer set) (id : EventId) → IsBounded set (mark_event set p id)
  unfolding mark_event
  mark_event-IsBounded p id =
      let fits = make_room_fits p.known_events in
      let grown = laws.cardinality-add (make_room set p.known_events) id in omega arith

  pub mark_events-IsBounded :
      (ids : List EventId) (p : Peer set) → IsBounded set p → IsBounded set (mark_events set p ids)
  unfolding mark_events
  mark_events-IsBounded [] p h = h
  mark_events-IsBounded (id ∷ ids) p h =
      mark_events-IsBounded ids (mark_event set p id) (mark_event-IsBounded p id)

  note_all-IsBounded : (p : Peer set) (ids : List EventId) → IsBounded set (note_all set p ids)
  unfolding note_all
  note_all-IsBounded p ids =
      let fits = make_room_fits (add_all set p.known_events ids) in omega arith

  pub note_each-IsBounded :
      (ids : List EventId) (p : Peer set) → IsBounded set p → IsBounded set (note_each set p ids)
  unfolding note_each
  note_each-IsBounded [] p h = h
  note_each-IsBounded (id ∷ ids) p h =
      note_each-IsBounded ids
        (record p { known_events = make_room set (set.add p.known_events id) })
        (let fits = make_room_fits (set.add p.known_events id) in omega arith)

  pub send-known_events :
      (link : Link) (p : Peer set) (m : Message)
      → (send set link p m).1.known_events ≡ p.known_events
  unfolding send
  send-known_events link p m = elim (Option-cases (link p.sent m)) [
    | inl sent ↦ ground arith
    | inr (err, failed) ↦ ground arith
  ]

  async_send_events-IsBounded :
      (p : Peer set) (events : List Event)
      → IsBounded set p
      → IsBounded set (async_send_events set p events)
  unfolding async_send_events
  async_send_events-IsBounded p events h = elim (Bool-cases (ltb (length p.queued_props) 128)) [
    | inl room ↦
        let noted =
          note_all-IsBounded (record p { queued_props = p.queued_props ++ (events ∷ []) })
            (event_ids events) in
        rw room noted
    | inr full ↦ rw full h
  ]

  async_send_new_event_hashes-IsBounded :
      (p : Peer set) (ids : List EventId)
      → IsBounded set p
      → IsBounded set (async_send_new_event_hashes set p ids)
  unfolding async_send_new_event_hashes
  async_send_new_event_hashes-IsBounded p ids h =
      elim (Bool-cases (ltb (length p.queued_anns) 128)) [
        | inl room ↦
            let noted =
              note_all-IsBounded (record p { queued_anns = p.queued_anns ++ (ids ∷ []) }) ids in
            rw room noted
        | inr full ↦ rw full h
      ]

  -- When a peer's known events number at most 16384, they still do after marking events, after the
  -- three sends that add events, whether the send fails or not, and after the two asynchronous
  -- sends.
  pub peer-IsBounded :
      (link : Link) (p : Peer set) (ids : List EventId) (events : List Event) (raws : List Raw)
      → IsBounded set p
      → IsBounded set (mark_events set p ids)
        × IsBounded set (send_new_event_hashes set link p ids).1
        × IsBounded set (send_events set link p events).1
        × IsBounded set (send_events_rlp set link p raws ids).1
        × IsBounded set (async_send_events set p events)
        × IsBounded set (async_send_new_event_hashes set p ids)
  unfolding send_new_event_hashes send_events send_events_rlp
  peer-IsBounded link p ids events raws h = (
    mark_events-IsBounded ids p h,
    rw (send-known_events link (note_all set p ids) (new_event_hashes_msg ids))
        (note_all-IsBounded p ids),
    rw (send-known_events link (note_each set p (event_ids events)) (events_msg events))
        (note_each-IsBounded (event_ids events) p h),
    rw (send-known_events link (note_each set p ids) (events_rlp_msg raws))
        (note_each-IsBounded ids p h),
    async_send_events-IsBounded p events h,
    async_send_new_event_hashes-IsBounded p ids h,
  )

  pub interested_in-mark_event :
      (event_epoch : EventId → ℕ) (p : Peer set) (id : EventId)
      → interested_in set event_epoch (mark_event set p id) id ≡ false
  unfolding interested_in mark_event
  interested_in-mark_event event_epoch p id =
      let known = laws.contains-add_self (make_room set p.known_events) id in ground arith
