-- ===== src/Gossip/Peers.antt =====
-- gossip/peer.go and the message types of gossip/protocol.go: one peer. What p2p.Send returns is an
-- argument; the messages that were sent are kept in their order. The entry of the server pool and
-- the locks are left out.
pub mod Known
pub mod Requests
use go_mini_opera.Prelude.{
  ℕ, zero, suc, ◌+◌, ◌-◌, ◌*◌, ◌%◌, ◌^◌, Bool, true, false, not, ◌&&◌, ◌||◌, Option, none, some,
  List, [], ◌∷◌, ◌++◌, map, ltb, leb, ◌==◌, if◌then◌else◌, length, take, drop,
}
use go_mini_opera.Inter.Event.{Event}
use go_mini_opera.Utils.Migration.{Str}
use go_mini_opera.Gossip.Heads.{EventId}
use go_mini_opera.Gossip.Packs.{PackInfo}
use go_mini_opera.Gossip.EventSets.{EventSet}

pub record PeerProgress : Type 0 where
  pub epoch : ℕ
  pub num_of_blocks : ℕ
  pub last_pack_info : PackInfo
  pub last_block : EventId

pub record StatusData : Type 0 where
  pub protocol_version : ℕ
  pub network_id : ℕ
  pub genesis : List ℕ

-- A raw RLP value.
abbrev pub Raw : Type 0
Raw = List ℕ

pub data ErrCode : Type 0 where
  err_msg_too_large err_decode err_invalid_msg_code err_protocol_version_mismatch : ErrCode
  err_network_id_mismatch err_genesis_mismatch err_no_status_msg err_extra_status_msg : ErrCode
  err_suspended_peer err_empty_message : ErrCode

-- An error of p2p, told apart by a number, one of errResp, or one of the peer set.
pub data PeerError : Type 0 where
  link_error : ℕ → PeerError
  err_resp : ErrCode → PeerError
  peers_closed already_registered not_registered : PeerError
  disc_read_timeout disc_too_many_peers : PeerError

-- A Go error: `none` is nil.
abbrev pub Result : Type 0
Result = Option PeerError

-- What a peer is sent, by its message code.
pub data Message : Type 0 where
  status_msg : StatusData → Message
  progress_msg : PeerProgress → Message
  new_event_hashes_msg get_events_msg : List EventId → Message
  events_msg : List Event → Message
  events_rlp_msg : List Raw → Message
  get_pack_infos_msg : (epoch : ℕ) → List ℕ → Message
  pack_infos_rlp_msg : (epoch total : ℕ) → List Raw → Message
  get_pack_msg : (epoch index : ℕ) → Message
  pack_msg : (epoch index : ℕ) → List EventId → Message

-- What p2p.Send returns for a message, after those that were sent.
abbrev pub Link : Type 0
Link = List Message → Message → Result

abbrev pub max_known_events : ℕ
max_known_events = 16384

abbrev pub max_queued_props : ℕ
max_queued_props = 128

abbrev pub max_queued_anns : ℕ
max_queued_anns = 128

-- `softLimitItems` of gossip/handler.go.
abbrev pub soft_limit_items : ℕ
soft_limit_items = 250

abbrev pub no_pack_info : PackInfo
no_pack_info = record { index = 0; size = 0; num_of_events = 0; heads = [] }

-- The zero value; a hash of 32 bytes is written as the empty one.
abbrev pub no_progress : PeerProgress
no_progress = record {
  epoch = 0;
  num_of_blocks = 0;
  last_pack_info = no_pack_info;
  last_block = [];
}

pub record Peer (set : EventSet) : Type 0 where
  pub peer_id : Str
  pub version : ℕ
  pub known_events : set.Set
  pub queued_props : List (List Event)
  pub queued_anns : List (List EventId)
  -- `term` is closed.
  pub terminated : Bool
  pub progress : PeerProgress
  pub sent : List Message

pub record PeerInfo : Type 0 where
  pub version : ℕ
  pub epoch : ℕ
  pub num_of_blocks : ℕ

-- `PeerProgress.Less`.
unfoldable pub progress_less : PeerProgress → PeerProgress → Bool
progress_less a b =
    if not (a.epoch == b.epoch)
    then ltb a.epoch b.epoch
    else (if not (a.num_of_blocks == b.num_of_blocks)
        then ltb a.num_of_blocks b.num_of_blocks
        else ltb a.last_pack_info.index b.last_pack_info.index)

abbrev pub event_ids : List Event → List EventId
event_ids events = map (λ (e : Event). e.id) events

-- `end` of the request at `start`, of so many ids.
abbrev pub request_end : ℕ → ℕ → ℕ
request_end start n = if ltb (start + soft_limit_items) n then start + soft_limit_items else n

module _ (set : EventSet) where
  -- `newPeer`; the first eight bytes of the node's id, printed, are an argument.
  unfoldable pub new_peer : ℕ → Str → Peer set
  new_peer v id = record {
    peer_id = id;
    version = v;
    known_events = set.empty;
    queued_props = [];
    queued_anns = [];
    terminated = false;
    progress = no_progress;
    sent = [];
  }

  unfoldable pub info : Peer set → PeerInfo
  info p = record {
    version = p.version;
    epoch = p.progress.epoch;
    num_of_blocks = p.progress.num_of_blocks;
  }

  unfoldable pub close_peer : Peer set → Peer set
  close_peer p = record p { terminated = true }

  unfoldable pub set_progress : Peer set → PeerProgress → Peer set
  set_progress p x = record p { progress = x }

  -- `InterestedIn`; `event_epoch` is `h.Epoch()`.
  unfoldable pub interested_in : (event_epoch : EventId → ℕ) → Peer set → EventId → Bool
  interested_in event_epoch p h =
      let e = event_epoch h in
      not (e == 0)
      && (not (p.progress.epoch == 0)
          && ((e == p.progress.epoch || e == (p.progress.epoch + 1) % 2 ^ 32)
              && not (set.contains p.known_events h)))

  -- `for p.knownEvents.Cardinality() >= maxKnownEvents { p.knownEvents.Pop() }`.
  unfoldable pub shrink : (fuel : ℕ) → set.Set → set.Set
  shrink zero s = s
  shrink (suc fuel) s =
      let rest = shrink fuel (set.pop s) in
      if leb max_known_events (set.cardinality s) then rest else s

  -- The loop with fuel for every element.
  unfoldable pub make_room : set.Set → set.Set
  make_room s = shrink (set.cardinality s) s

  -- `for _, id := range ids { p.knownEvents.Add(id) }`.
  unfoldable pub add_all : set.Set → List EventId → set.Set
  add_all s [] = s
  add_all s (id ∷ ids) = add_all (set.add s id) ids

  unfoldable pub mark_event : Peer set → EventId → Peer set
  mark_event p id = record p { known_events = set.add (make_room p.known_events) id }

  -- The loops of the handler that call MarkEvent.
  unfoldable pub mark_events : Peer set → List EventId → Peer set
  mark_events p [] = p
  mark_events p (id ∷ ids) = mark_events (mark_event p id) ids

  -- The additions that SendNewEventHashes and the two asynchronous methods make.
  unfoldable pub note_all : Peer set → List EventId → Peer set
  note_all p ids = record p { known_events = make_room (add_all p.known_events ids) }

  -- Those of SendEvents and SendEventsRLP, which make room after each one.
  unfoldable pub note_each : Peer set → List EventId → Peer set
  note_each p [] = p
  note_each p (id ∷ ids) =
      note_each (record p { known_events = make_room (set.add p.known_events id) }) ids

  -- `p2p.Send`.
  unfoldable pub send : Link → Peer set → Message → Result × Peer set
  send link p m = elim (link p.sent m) [
    | none ↦ (none, record p { sent = p.sent ++ (m ∷ []) })
    | some err ↦ (some err, p)
  ]

  unfoldable pub send_new_event_hashes : Link → Peer set → List EventId → Result × Peer set
  send_new_event_hashes link p hashes = send link (note_all p hashes) (new_event_hashes_msg hashes)

  unfoldable pub send_events : Link → Peer set → List Event → Result × Peer set
  send_events link p events = send link (note_each p (event_ids events)) (events_msg events)

  unfoldable pub send_events_rlp : Link → Peer set → List Raw → List EventId → Result × Peer set
  send_events_rlp link p events ids = send link (note_each p ids) (events_rlp_msg events)

  unfoldable pub send_pack_infos_rlp : Link → Peer set → ℕ → ℕ → List Raw → Result × Peer set
  send_pack_infos_rlp link p epoch total raws = send link p (pack_infos_rlp_msg epoch total raws)

  unfoldable pub send_pack : Link → Peer set → ℕ → ℕ → List EventId → Result × Peer set
  send_pack link p epoch index ids = send link p (pack_msg epoch index ids)

  unfoldable pub send_progress : Link → Peer set → PeerProgress → Result × Peer set
  send_progress link p progress = send link p (progress_msg progress)

  unfoldable pub request_pack_infos : Link → Peer set → ℕ → List ℕ → Result × Peer set
  request_pack_infos link p epoch indexes = send link p (get_pack_infos_msg epoch indexes)

  unfoldable pub request_pack : Link → Peer set → ℕ → ℕ → Result × Peer set
  request_pack link p epoch index = send link p (get_pack_msg epoch index)

  -- `AsyncSendNewEventHashes` and `AsyncSendEvents`: a full queue drops them.
  unfoldable pub async_send_new_event_hashes : Peer set → List EventId → Peer set
  async_send_new_event_hashes p ids =
      if ltb (length p.queued_anns) max_queued_anns
      then note_all (record p { queued_anns = p.queued_anns ++ (ids ∷ []) }) ids
      else p

  unfoldable pub async_send_events : Peer set → List Event → Peer set
  async_send_events p events =
      if ltb (length p.queued_props) max_queued_props
      then note_all (record p { queued_props = p.queued_props ++ (events ∷ []) }) (event_ids events)
      else p

  -- The case of `broadcast` that takes queued events, and the one that takes queued ids.
  unfoldable pub broadcast_events : Link → Peer set → Option (Result × Peer set)
  broadcast_events link p = elim p.queued_props [
    | [] ↦ none
    | events ∷ queued ↦ some (send_events link (record p { queued_props = queued }) events)
  ]

  unfoldable pub broadcast_ids : Link → Peer set → Option (Result × Peer set)
  broadcast_ids link p = elim p.queued_anns [
    | [] ↦ none
    | ids ∷ queued ↦ some (send_new_event_hashes link (record p { queued_anns = queued }) ids)
  ]

  -- `if err != nil { return err }`, and otherwise `rest`.
  abbrev pub unless_failed :
      Result × Peer set → (Peer set → Option (Result × Peer set)) → Option (Result × Peer set)
  unless_failed (some err, p) rest = some (some err, p)
  unless_failed (none, p) rest = rest p

  -- The loop of `RequestEvents` from `start`.
  unfoldable pub request_from :
      (fuel : ℕ) → Link → Peer set → List EventId → ℕ → Option (Result × Peer set)
  request_from zero link p ids start = none
  request_from (suc fuel) link p ids start =
      let batch = take (request_end start (length ids) - start) (drop start ids) in
      if not (ltb start (length ids))
      then some (none, p)
      else unless_failed (send link p (get_events_msg batch))
          (λ p'. request_from fuel link p' ids (start + soft_limit_items))

  unfoldable pub request_events : Link → Peer set → List EventId → Option (Result × Peer set)
  request_events link p ids = request_from (suc (length ids)) link p ids 0
