-- ===== src/Gossip/Handler.antt =====
-- handleMsg of gossip/handler.go. What the handler reads of the store, the fetcher and the
-- downloader is an argument; its calls of these are kept in their order.
pub mod Serving
pub mod Effects
pub mod Invariants
use go_mini_opera.Prelude.{
  ◌≡◌, refl, ℕ, zero, suc, ◌+◌, ◌-◌, ◌*◌, ◌≤◌, ◌⊎◌, inl, inr, Bool, true, false, not, ◌&&◌, ◌||◌,
  Option, none, some, List, [], ◌∷◌, ◌++◌, ltb, leb, ◌==◌, if◌then◌else◌, length,
}
use go_mini_opera.Inter.Event.{Event}
use go_mini_opera.Utils.Migration.{Str}
use go_mini_opera.Gossip.Heads.{EventId, is_some}
use go_mini_opera.Gossip.Packs.{PackInfo}
use go_mini_opera.Gossip.EventSets.{EventSet}
use go_mini_opera.Gossip.Peers.{
  Peer, PeerProgress, Raw, Result, Link, ErrCode, PeerError, err_resp, err_msg_too_large,
  err_decode, err_invalid_msg_code, err_extra_status_msg, err_empty_message, soft_limit_items,
  set_progress, mark_events, event_ids, send_events_rlp, send_pack_infos_rlp, send_pack,
}
use go_mini_opera.Gossip.Incoming.{
  Incoming, Reading, PackInfosData, PackData, GetPackInfosData, GetPackData, protocol_max_msg_size,
}

abbrev pub soft_response_limit_size : ℕ
soft_response_limit_size = 2 * 1024 * 1024

abbrev pub hard_limit_items : ℕ
hard_limit_items = soft_limit_items * 4

-- `checkLenLimits`.
unfoldable pub check_len_limits : ℕ → Result
check_len_limits size =
    if leb size 0
    then some (err_resp err_empty_message)
    else (if ltb hard_limit_items size then some (err_resp err_msg_too_large) else none)

-- What the handler reads of the store and of the fetcher.
pub record NodeView : Type 0 where
  pub node_epoch : ℕ
  pub fetcher_overloaded : Bool
  pub event_rlp : EventId → Option Raw
  pub packs_num : ℕ → Option ℕ
  pub pack_info_rlp : ℕ → ℕ → Option Raw
  pub pack_events : ℕ → ℕ → List EventId

-- The calls of the fetcher and the downloader.
pub data NodeCall : Type 0 where
  register_peer : Str → (epoch my_epoch : ℕ) → NodeCall
  notify_pack_info : (epoch index : ℕ) → List EventId → NodeCall
  notify_packs_num : (epoch total : ℕ) → NodeCall
  notify_pack : (epoch index : ℕ) → List EventId → NodeCall
  fetcher_notify : List EventId → NodeCall
  fetcher_enqueue : List Event → NodeCall

-- `pm.downloader.Peer(p.id) != nil`, after the calls that were made.
abbrev pub Downloading : Type 0
Downloading = List NodeCall → Bool

pub record Session (set : EventSet) : Type 0 where
  pub peer : Peer set
  pub synced : Bool
  pub calls : List NodeCall

-- The loop over the requested ids: the raw events found, their ids, and when it stops.
unfoldable pub collect_events : (EventId → Option Raw) → ℕ → List EventId → List Raw × List EventId
collect_events event_rlp size [] = ([], [])
collect_events event_rlp size (id ∷ ids) = elim (event_rlp id) [
  | some raw ↦
      let (raws, found) = collect_events event_rlp (size + length raw) ids in
      if leb soft_response_limit_size (size + length raw)
      then (raw ∷ [], id ∷ [])
      else (raw ∷ raws, id ∷ found)
  | none ↦
      let rest = collect_events event_rlp size ids in
      if leb soft_response_limit_size size then ([], []) else rest
]

-- The loop over the requested indexes.
unfoldable pub collect_pack_infos : (ℕ → Option Raw) → (packs : ℕ) → ℕ → List ℕ → List Raw
collect_pack_infos info_rlp packs size [] = []
collect_pack_infos info_rlp packs size (index ∷ indexes) =
    let skipped = collect_pack_infos info_rlp packs size indexes in
    if leb packs index then skipped else elim (info_rlp index) [
      | some raw ↦
          let rest = collect_pack_infos info_rlp packs (size + length raw) indexes in
          if leb soft_response_limit_size (size + length raw) then raw ∷ [] else raw ∷ rest
      | none ↦ if leb soft_response_limit_size size then [] else skipped
    ]

-- The loop over the events of a pack, from the position `i`.
unfoldable pub collect_pack : ℕ → List EventId → List EventId
collect_pack i [] = []
collect_pack i (id ∷ ids) =
    let rest = collect_pack (suc i) ids in if leb soft_limit_items i then id ∷ [] else id ∷ rest

module _ (set : EventSet) where
  abbrev pub with_calls : Session set → List NodeCall → Session set
  with_calls s cs = record s { calls = s.calls ++ cs }

  abbrev pub with_peer : Session set → Peer set → Session set
  with_peer s p = record s { peer = p }

  -- A message that does not decode, and one that does.
  abbrev pub on_decoded {ℓ} :
      {A : Type ℓ} → Option A → Session set → (A → Result × Session set) → Result × Session set
  on_decoded none s run = (some (err_resp err_decode), s)
  on_decoded (some a) s run = run a

  -- `if err := m; err != nil { return err }`.
  abbrev pub checked : Result → Session set → Result × Session set → Result × Session set
  checked (some err) s run = (some err, s)
  checked none s run = run

  module _ (view : NodeView) (downloading : Downloading) where
    -- The case of ProgressMsg.
    unfoldable pub on_progress : Session set → PeerProgress → Result × Session set
    on_progress s progress =
        let registered = record s {
          peer = set_progress set s.peer progress;
          synced = if progress.epoch == view.node_epoch then true else s.synced;
          calls = s.calls ++ (register_peer s.peer.peer_id progress.epoch view.node_epoch ∷ []);
        } in
        let info = progress.last_pack_info in
        (
          none,
          if downloading registered.calls && ltb 0 info.index
              then with_calls registered
                  (notify_pack_info progress.epoch info.index info.heads ∷ [])
              else registered,
        )

    -- The case of NewEventHashesMsg.
    unfoldable pub on_new_event_hashes : Session set → Option (List EventId) → Result × Session set
    on_new_event_hashes s message =
        if view.fetcher_overloaded || not s.synced
        then (none, s)
        else on_decoded message s (λ announces. checked (check_len_limits (length announces)) s (
          none,
          with_calls (with_peer s (mark_events set s.peer announces))
              (fetcher_notify announces ∷ []),
        ))

    -- The case of EventsMsg.
    unfoldable pub on_events : Session set → Option (List Event) → Result × Session set
    on_events s message =
        if view.fetcher_overloaded
        then (none, s)
        else on_decoded message s (λ events. checked (check_len_limits (length events)) s (
          none,
          with_calls (with_peer s (mark_events set s.peer (event_ids events)))
              (fetcher_enqueue events ∷ []),
        ))

    -- The case of GetEventsMsg.
    unfoldable pub on_get_events : Link → Session set → List EventId → Result × Session set
    on_get_events link s requests = checked (check_len_limits (length requests)) s (
        let (raws, ids) = collect_events view.event_rlp 0 requests in
        if length raws == 0
        then (none, s)
        else (none, with_peer s (send_events_rlp set link s.peer raws ids).1))

    -- The case of GetPackInfosMsg.
    unfoldable pub on_get_pack_infos : Link → Session set → GetPackInfosData → Result × Session set
    on_get_pack_infos link s request =
        checked (check_len_limits (length request.indexes)) s (elim (view.packs_num request.epoch) [
          | none ↦ (none, s)
          | some packs ↦
              let raws =
                collect_pack_infos (view.pack_info_rlp request.epoch) packs 0 request.indexes in
              if length raws == 0 then (none, s) else (
                none,
                with_peer s (send_pack_infos_rlp set link s.peer request.epoch packs raws).1,
              )
        ])

    -- The case of GetPackMsg.
    unfoldable pub on_get_pack : Link → Session set → GetPackData → Result × Session set
    on_get_pack link s request =
        let ids = collect_pack 0 (view.pack_events request.epoch request.index) in
        if ltb view.node_epoch request.epoch || length ids == 0
        then (none, s)
        else (none, with_peer s (send_pack set link s.peer request.epoch request.index ids).1)

    -- The loop over the infos of PackInfosMsg.
    unfoldable pub note_infos : ℕ → Session set → List PackInfo → Result × Session set
    note_infos epoch s [] = (none, s)
    note_infos epoch s (info ∷ infos) =
        let noted =
          with_calls (with_peer s (mark_events set s.peer info.heads))
            (notify_pack_info epoch info.index info.heads ∷ []) in
        let rest = note_infos epoch noted infos in
        if length info.heads == 0 then (some (err_resp err_empty_message), s) else rest

    -- The case of PackInfosMsg.
    unfoldable pub on_pack_infos : Session set → Option PackInfosData → Result × Session set
    on_pack_infos s message =
        if not (downloading s.calls)
        then (none, s)
        else on_decoded message s (λ data'. checked (check_len_limits (length data'.infos)) s (
            note_infos data'.epoch
              (with_calls s (notify_packs_num data'.epoch data'.total_num_of_packs ∷ []))
              data'.infos))

    -- The case of PackMsg.
    unfoldable pub on_pack : Session set → Option PackData → Result × Session set
    on_pack s message =
        if not (downloading s.calls)
        then (none, s)
        else on_decoded message s (λ pack. checked (check_len_limits (length pack.ids)) s (
            if length pack.ids == 0 then (some (err_resp err_decode), s) else (
              none,
              with_calls (with_peer s (mark_events set s.peer pack.ids))
                  (notify_pack pack.epoch pack.index pack.ids ∷ []),
            )))

    -- The switch on the message's code.
    unfoldable pub on_code : Link → Session set → Incoming → Result × Session set
    on_code link s msg =
        if msg.code == 0x00
        then (some (err_resp err_extra_status_msg), s)
        else (if msg.code == 0xf0
            then on_decoded msg.as_progress s (on_progress s)
            else (if msg.code == 0xf1
                then on_new_event_hashes s msg.as_event_ids
                else (if msg.code == 0xf3
                    then on_events s msg.as_events
                    else (if msg.code == 0xf2
                        then on_decoded msg.as_event_ids s (on_get_events link s)
                        else (if msg.code == 0xf4
                            then on_decoded msg.as_get_pack_infos s (on_get_pack_infos link s)
                            else (if msg.code == 0xf6
                                then on_decoded msg.as_get_pack s (on_get_pack link s)
                                else (if msg.code == 0xf5
                                    then on_pack_infos s msg.as_pack_infos
                                    else (if msg.code == 0xf7
                                        then on_pack s msg.as_pack
                                        else (some (err_resp err_invalid_msg_code), s)))))))))

    -- `handleMsg`.
    unfoldable pub handle_msg : Link → Session set → Reading → Result × Session set
    handle_msg link s (inl err) = (some err, s)
    handle_msg link s (inr msg) =
        if ltb protocol_max_msg_size msg.size
        then (some (err_resp err_msg_too_large), s)
        else on_code link s msg
