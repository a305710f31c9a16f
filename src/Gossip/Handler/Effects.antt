-- ===== src/Gossip/Handler/Effects.antt =====
-- Every case of handleMsg has one of four effects on the session.
use go_mini_opera.Prelude.{
  ℕ, ◌<◌, ◌≤◌, ◌≡◌, refl, sym, ap, ◌∙◌, inl, inr, Bool, true, false, not, ◌&&◌, ◌||◌, Option, none,
  some, List, [], ◌∷◌, ◌++◌, append-nil, append_assoc, Bool-cases, Option-cases, ltb, ◌==◌,
  if◌then◌else◌, length, arith,
}
use go_mini_opera.Inter.Event.{Event}
use go_mini_opera.Gossip.Heads.{EventId}
use go_mini_opera.Gossip.Packs.{PackInfo}
use go_mini_opera.Gossip.EventSets.{EventSet}
use go_mini_opera.Gossip.Peers.{
  Peer, PeerProgress, Result, Link, Message, events_rlp_msg, pack_infos_rlp_msg, pack_msg, send,
  set_progress, note_each, mark_event, mark_events, event_ids, send_events_rlp, send_pack_infos_rlp,
  send_pack,
}
use go_mini_opera.Gossip.Incoming.{
  protocol_max_msg_size, Reading, PackInfosData, PackData, GetPackInfosData, GetPackData,
}
use go_mini_opera.Gossip.Handler.{
  NodeView, NodeCall, Downloading, Session, register_peer, notify_pack_info, notify_packs_num,
  notify_pack, fetcher_notify, fetcher_enqueue, check_len_limits, collect_events,
  collect_pack_infos, collect_pack, checked, on_decoded, with_calls, with_peer, on_progress,
  on_new_event_hashes, on_events, on_get_events, on_get_pack_infos, on_get_pack, note_infos,
  on_pack_infos, on_pack, on_code, handle_msg,
}
use go_mini_opera.Gossip.Handler.Serving.{
  check_len_limits-eq-none, length-collect_events, length-collect_pack_infos, length-collect_pack,
}

-- At most so many items in an answer.
abbrev pub IsWithinLimits : Message → Type 0
IsWithinLimits (events_rlp_msg raws) = (0 < length raws) × (length raws ≤ 1000)
IsWithinLimits (pack_infos_rlp_msg epoch total raws) = (0 < length raws) × (length raws ≤ 1000)
IsWithinLimits (pack_msg epoch index ids) = (0 < length ids) × (length ids ≤ 251)
IsWithinLimits _ = ⊥

-- What a message does: the peer's progress is set, some events are known to it, or it is sent an
-- answer; and what is called.
pub data Effect : Type 0 where
  no_effect : Effect
  progresses : PeerProgress → List NodeCall → Effect
  marks : List EventId → List NodeCall → Effect
  answers : List EventId → Message → Effect

module _ (set : EventSet) (view : NodeView) (link : Link) where
  abbrev pub apply_effect : Session set → Effect → Session set
  apply_effect s no_effect = s
  apply_effect s (progresses progress calls) = record {
    peer = set_progress set s.peer progress;
    synced = if progress.epoch == view.node_epoch then true else s.synced;
    calls = s.calls ++ calls;
  }
  apply_effect s (marks ids calls) =
      with_calls set (with_peer set s (mark_events set s.peer ids)) calls
  apply_effect s (answers ids m) = with_peer set s (send set link (note_each set s.peer ids) m).1

  -- An answer is within its limits; an error comes with no answer and no progress.
  abbrev pub IsAllowed : Result → Effect → Type 0
  IsAllowed err (answers ids m) = (err ≡ none) × IsWithinLimits m
  IsAllowed err (progresses progress calls) = err ≡ none
  IsAllowed err _ = Unit {0}

  -- The session comes from an allowed effect.
  pub record HasEffect (s : Session set) (r : Result × Session set) : Type 0 where
    pub effect : Effect
    pub becomes : r.1 ≡ apply_effect s effect
    pub allowed : IsAllowed r.0 effect

  nothing_done : (s : Session set) (err : Result) → HasEffect s (err, s)
  nothing_done s err = record { effect = no_effect; becomes = refl; allowed = tt }

  checked_effect :
      (s : Session set) (err : Result) (run : Result × Session set)
      → ((err ≡ none) → HasEffect s run)
      → HasEffect s (checked set err s run)
  checked_effect s none run h = h refl
  checked_effect s (some err) run h = record { effect = no_effect; becomes = refl; allowed = tt }

  decoded_effect {ℓ} :
      {A : Type ℓ} (s : Session set) (message : Option A) (run : A → Result × Session set)
      → ((a : A) → HasEffect s (run a))
      → HasEffect s (on_decoded set message s run)
  decoded_effect s none run h = record { effect = no_effect; becomes = refl; allowed = tt }
  decoded_effect s (some a) run h = h a

  if_effect :
      (s : Session set) (test : Bool) (a b : Result × Session set)
      → HasEffect s a
      → ((test ≡ false) → HasEffect s b)
      → HasEffect s (if test then a else b)
  if_effect s true a b h k = h
  if_effect s false a b h k = k refl

  mark_events-append :
      (ids ids' : List EventId) (p : Peer set)
      → mark_events set (mark_events set p ids) ids' ≡ mark_events set p (ids ++ ids')
  unfolding mark_events
  mark_events-append [] ids' p = refl
  mark_events-append (id ∷ ids) ids' p = mark_events-append ids ids' (mark_event set p id)

  marks-nil : (s : Session set) → s ≡ apply_effect s (marks [] [])
  unfolding mark_events
  marks-nil s = sym (ap (λ c. record s { calls = c }) (append-nil s.calls))

  marks-after :
      (s : Session set) (ids ids' : List EventId) (calls calls' : List NodeCall)
      → apply_effect (apply_effect s (marks ids calls)) (marks ids' calls')
        ≡ apply_effect s (marks (ids ++ ids') (calls ++ calls'))
  marks-after s ids ids' calls calls' =
      ap (λ p. record s { peer = p; calls = (s.calls ++ calls) ++ calls' })
        (mark_events-append ids ids' s.peer)
      ∙ ap (λ c. record s { peer = mark_events set s.peer (ids ++ ids'); calls = c })
          (append_assoc s.calls calls calls')

  module _ (downloading : Downloading) where
    on_progress_effect :
        (s : Session set) (progress : PeerProgress)
        → HasEffect s (on_progress set view downloading s progress)
    unfolding on_progress
    on_progress_effect s progress =
        let info = progress.last_pack_info in
        let registered = register_peer s.peer.peer_id progress.epoch view.node_epoch in
        elim (Bool-cases (downloading (s.calls ++ (registered ∷ [])) && ltb 0 info.index)) [
          | inl notified ↦
              let call = notify_pack_info progress.epoch info.index info.heads in
              record {
                effect = progresses progress (registered ∷ call ∷ []);
                becomes = rw notified (
                    ap
                      (λ c. record s {
                        peer = set_progress set s.peer progress;
                        synced = if progress.epoch == view.node_epoch then true else s.synced;
                        calls = c;
                      })
                      (append_assoc s.calls (registered ∷ []) (call ∷ [])));
                allowed = refl;
              }
          | inr quiet ↦ record {
            effect = progresses progress (registered ∷ []);
            becomes = rw quiet refl;
            allowed = refl;
          }
        ]

    on_new_event_hashes_effect :
        (s : Session set) (message : Option (List EventId))
        → HasEffect s (on_new_event_hashes set view downloading s message)
    unfolding on_new_event_hashes
    on_new_event_hashes_effect s message =
        if_effect s (view.fetcher_overloaded || not s.synced) (none, s) _ (nothing_done s none)
          (λ _. decoded_effect s message _ (λ announces.
            checked_effect s (check_len_limits (length announces)) _ (λ _. record {
              effect = marks announces (fetcher_notify announces ∷ []);
              becomes = refl;
              allowed = tt;
            })))

    on_events_effect :
        (s : Session set) (message : Option (List Event))
        → HasEffect s (on_events set view downloading s message)
    unfolding on_events
    on_events_effect s message =
        if_effect s view.fetcher_overloaded (none, s) _ (nothing_done s none)
          (λ _. decoded_effect s message _ (λ events.
            checked_effect s (check_len_limits (length events)) _ (λ _. record {
              effect = marks (event_ids events) (fetcher_enqueue events ∷ []);
              becomes = refl;
              allowed = tt;
            })))

    on_get_events_effect :
        (s : Session set) (requests : List EventId)
        → HasEffect s (on_get_events set view downloading link s requests)
    unfolding on_get_events send_events_rlp
    on_get_events_effect s requests =
        let (raws, ids) = collect_events view.event_rlp 0 requests in
        let short = length-collect_events requests view.event_rlp 0 in
        checked_effect s (check_len_limits (length requests)) _ (λ fits.
          let few = check_len_limits-eq-none (length requests) fits in
          if_effect s (length raws == 0) (none, s) _ (nothing_done s none)
            (λ filled. record {
              effect = answers ids (events_rlp_msg raws);
              becomes = refl;
              allowed = (refl, (ground arith, omega arith));
            }))

    on_get_pack_infos_effect :
        (s : Session set) (request : GetPackInfosData)
        → HasEffect s (on_get_pack_infos set view downloading link s request)
    unfolding on_get_pack_infos send_pack_infos_rlp note_each
    on_get_pack_infos_effect s request =
        checked_effect s (check_len_limits (length request.indexes)) _ (λ fits.
          let few = check_len_limits-eq-none (length request.indexes) fits in
          elim (Option-cases (view.packs_num request.epoch)) [
            | inl missing ↦ rw missing (nothing_done s none)
            | inr (packs, pinned) ↦
                let raws =
                  collect_pack_infos (view.pack_info_rlp request.epoch) packs 0 request.indexes in
                let short =
                  length-collect_pack_infos request.indexes (view.pack_info_rlp request.epoch) packs
                    0 in
                rw pinned (
                  if_effect s (length raws == 0) (none, s) _ (nothing_done s none)
                    (λ filled. record {
                      effect = answers [] (pack_infos_rlp_msg request.epoch packs raws);
                      becomes = refl;
                      allowed = (refl, (ground arith, omega arith));
                    }))
          ])

    on_get_pack_effect :
        (s : Session set) (request : GetPackData)
        → HasEffect s (on_get_pack set view downloading link s request)
    unfolding on_get_pack send_pack note_each
    on_get_pack_effect s request =
        let ids = collect_pack 0 (view.pack_events request.epoch request.index) in
        let short =
          length-collect_pack (view.pack_events request.epoch request.index) 0 (omega arith) in
        if_effect s (ltb view.node_epoch request.epoch || length ids == 0) (none, s) _
          (nothing_done s none)
          (λ filled. record {
            effect = answers [] (pack_msg request.epoch request.index ids);
            becomes = refl;
            allowed = (refl, (ground arith, omega arith));
          })

    note_infos_effect :
        (infos : List PackInfo) (epoch : ℕ) (s : Session set)
        → (ids : List EventId) × (calls : List NodeCall) × ((note_infos set view downloading epoch s
              infos).1
            ≡ apply_effect s (marks ids calls))
    unfolding note_infos
    note_infos_effect [] epoch s = ([], [], marks-nil s)
    note_infos_effect (info ∷ infos) epoch s =
        let call = notify_pack_info epoch info.index info.heads in
        let (ids, calls, rest) =
          note_infos_effect infos epoch (apply_effect s (marks info.heads (call ∷ []))) in
        elim (Bool-cases (length info.heads == 0)) [
          | inl bare ↦ ([], [], rw bare (marks-nil s))
          | inr filled ↦ (
            info.heads ++ ids,
            call ∷ calls,
            rw filled (rest ∙ marks-after s info.heads ids (call ∷ []) calls),
          )
        ]

    on_pack_infos_effect :
        (s : Session set) (message : Option PackInfosData)
        → HasEffect s (on_pack_infos set view downloading s message)
    unfolding on_pack_infos mark_events
    on_pack_infos_effect s message =
        if_effect s (not (downloading s.calls)) (none, s) _ (nothing_done s none)
          (λ _. decoded_effect s message _ (λ infos.
            checked_effect s (check_len_limits (length infos.infos)) _ (λ _.
              let total = notify_packs_num infos.epoch infos.total_num_of_packs in
              let (ids, calls, rest) =
                note_infos_effect infos.infos infos.epoch (with_calls set s (total ∷ [])) in
              record {
                effect = marks ids (total ∷ calls);
                becomes = rest ∙ marks-after s [] ids (total ∷ []) calls;
                allowed = tt;
              })))

    on_pack_effect :
        (s : Session set) (message : Option PackData)
        → HasEffect s (on_pack set view downloading s message)
    unfolding on_pack
    on_pack_effect s message =
        if_effect s (not (downloading s.calls)) (none, s) _ (nothing_done s none)
          (λ _. decoded_effect s message _ (λ pack.
            checked_effect s (check_len_limits (length pack.ids)) _ (λ _.
              if_effect s (length pack.ids == 0) _ _ (nothing_done s _) (λ _. record {
                effect = marks pack.ids (notify_pack pack.epoch pack.index pack.ids ∷ []);
                becomes = refl;
                allowed = tt;
              }))))

    -- Every incoming message or read error changes the session as one of the effects does.
    pub handle_msg_effect :
        (s : Session set) (reading : Reading)
        → HasEffect s (handle_msg set view downloading link s reading)
    unfolding handle_msg on_code
    handle_msg_effect s (inl err) = nothing_done s (some err)
    handle_msg_effect s (inr msg) =
        if_effect s (ltb protocol_max_msg_size msg.size) _ _ (nothing_done s _) (λ _.
          if_effect s (msg.code == 0x00) _ _ (nothing_done s _) (λ _.
            if_effect s (msg.code == 0xf0) _ _
              (decoded_effect s msg.as_progress _ (on_progress_effect s))
              (λ _.
                if_effect s (msg.code == 0xf1) _ _ (on_new_event_hashes_effect s msg.as_event_ids)
                  (λ _. if_effect s (msg.code == 0xf3) _ _ (on_events_effect s msg.as_events) (λ _.
                    if_effect s (msg.code == 0xf2) _ _
                      (decoded_effect s msg.as_event_ids _ (on_get_events_effect s))
                      (λ _.
                        if_effect s (msg.code == 0xf4) _ _
                          (decoded_effect s msg.as_get_pack_infos _ (on_get_pack_infos_effect s))
                          (λ _.
                            if_effect s (msg.code == 0xf6) _ _
                              (decoded_effect s msg.as_get_pack _ (on_get_pack_effect s))
                              (λ _.
                                if_effect s (msg.code == 0xf5) _ _
                                  (on_pack_infos_effect s msg.as_pack_infos)
                                  (λ _.
                                    if_effect s (msg.code == 0xf7) _ _
                                      (on_pack_effect s msg.as_pack)
                                      (λ _. nothing_done s _))))))))))
