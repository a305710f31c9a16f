-- ===== src/Gossip/PeerExamples.antt =====
-- Two peers over a set that is a list, a node that holds one event, and what they exchange.
use go_mini_opera.Prelude.{
  ◌+◌, ◌<◌, ◌≡◌, refl, inl, inr, Bool, true, false, none, some, List, [], ◌∷◌, if◌then◌else◌,
  length, Bool-cases, arith, leb, not, ◌&&◌,
}
use go_mini_opera.Inter.Examples.{event}
use go_mini_opera.Utils.Migration.{str_eq}
use go_mini_opera.Utils.Migration.Resume.{str_eq_refl}
use go_mini_opera.Gossip.Heads.{EventId}
use go_mini_opera.Gossip.EventSets.{EventSet, EventSetLaws}
use go_mini_opera.Gossip.Peers.{
  Peer, PeerProgress, Link, no_progress, no_pack_info, request_events, send, send_progress,
  note_each, make_room, shrink, close_peer, err_resp, err_extra_status_msg, status_msg,
  progress_msg, mark_events, send_new_event_hashes, send_events, send_events_rlp, async_send_events,
  async_send_new_event_hashes,
}
use go_mini_opera.Gossip.Peers.Known.{IsBounded, peer-IsBounded}
use go_mini_opera.Gossip.Peers.Requests.{Requests, request_events_lem}
use go_mini_opera.Gossip.PeerSets.{
  PeerSet, registers, unregisters, closes, peer_run, peer_act, close_all, close_shared, best_peer,
  find_peer, peer_of, unregister, register, delete_peer, peers_num,
}
use go_mini_opera.Gossip.PeerSets.Best.{Picks, best_peer_lem}
use go_mini_opera.Gossip.PeerSets.Registry.{
  IsRegistry, peer_run-IsRegistry, unregister_lem, Unregisters,
}
use go_mini_opera.Gossip.Incoming.{
  Incoming, from_sender, from_reader, await, read_status, check_status, send_status, handshake,
  handshake_lem, IsSameStatus, own_status,
}
use go_mini_opera.Gossip.Handler.{
  NodeView, Downloading, Session, collect_events, handle_msg, on_code, on_get_events,
  check_len_limits,
}
use go_mini_opera.Gossip.Handler.Serving.{Serves, collect_events-Serves}
use go_mini_opera.Gossip.Handler.Invariants.{Answers, handle_msg-Answers}
use go_mini_opera.Gossip.Lifecycle.{
  ProgressView, Turn, Others, handle, handle_loop, remove_peer, my_progress,
}
use go_mini_opera.Gossip.Lifecycle.Removal.{Returns, handle_lem}
use go_mini_opera.Gossip.Lifecycle.Sessions.{IsSafe, handle_loop-IsSafe}
use go_mini_opera.Gossip.Broadcast.{ProtocolConfig}

abbrev holds : List EventId → EventId → Bool
holds [] id = false
holds (x ∷ ids) id = if str_eq x id then true else holds ids id

abbrev without_first : List EventId → List EventId
without_first [] = []
without_first (x ∷ ids) = ids

abbrev list_set : EventSet
list_set = record {
  Set = List EventId;
  empty = [];
  add = λ s id. if holds s id then s else id ∷ s;
  contains = holds;
  cardinality = λ s. length s;
  pop = without_first;
}

without_first-length : (s : List EventId) → 0 < length s → length (without_first s) + 1 ≡ length s
without_first-length [] h = absurd (omega arith)
without_first-length (x ∷ s) h = omega arith

list_set-EventSetLaws : EventSetLaws list_set
list_set-EventSetLaws = record {
  contains-add_self = λ s id. elim (Bool-cases (holds s id)) [
    | inl old ↦ rw old old
    | inr fresh ↦ rw (fresh, str_eq_refl id) refl
  ];
  cardinality-add = λ s id. elim (Bool-cases (holds s id)) [
    | inl old ↦ rw old (omega arith)
    | inr fresh ↦ rw fresh (omega arith)
  ];
  cardinality-pop = without_first-length;
}

abbrev fine : Link
fine = λ sent m. none

abbrev far_progress : PeerProgress
far_progress = record {
  epoch = 3;
  num_of_blocks = 9;
  last_pack_info = record no_pack_info { index = 2 };
  last_block = [];
}

abbrev alice : Peer list_set
alice = record {
  peer_id = 1 ∷ [];
  version = 62;
  known_events = [];
  queued_props = [];
  queued_anns = [];
  terminated = false;
  progress = no_progress;
  sent = [];
}

abbrev bob : Peer list_set
bob = record alice { peer_id = 2 ∷ []; progress = far_progress }

abbrev both : PeerSet list_set
both = record { peers = alice ∷ bob ∷ []; closed = false }

peer-IsBounded_example :
    IsBounded list_set (mark_events list_set alice (event.id ∷ []))
    × IsBounded list_set (send_new_event_hashes list_set fine alice (event.id ∷ [])).1
    × IsBounded list_set (send_events list_set fine alice (event ∷ [])).1
    × IsBounded list_set (send_events_rlp list_set fine alice ((7 ∷ []) ∷ []) (event.id ∷ [])).1
    × IsBounded list_set (async_send_events list_set alice (event ∷ []))
    × IsBounded list_set (async_send_new_event_hashes list_set alice (event.id ∷ []))
peer-IsBounded_example =
    peer-IsBounded list_set list_set-EventSetLaws fine alice (event.id ∷ []) (event ∷ [])
      ((7 ∷ []) ∷ []) (omega arith)

request_events_lem_example :
    Requests list_set fine
      ((1 ∷ []) ∷ (2 ∷ []) ∷ [])
      0
      alice
      (request_events list_set fine alice ((1 ∷ []) ∷ (2 ∷ []) ∷ []))
request_events_lem_example = request_events_lem list_set fine ((1 ∷ []) ∷ (2 ∷ []) ∷ []) alice

best_peer_lem_example : Picks list_set (alice ∷ bob ∷ []) none no_progress (best_peer list_set both)
best_peer_lem_example = best_peer_lem list_set both

peer_run-IsRegistry_example :
    IsRegistry list_set
      (peer_run list_set both
        (unregisters (1 ∷ []) ∷ registers alice ∷ closes ∷ registers bob ∷ [])).peers
unfolding find_peer str_eq
peer_run-IsRegistry_example =
    peer_run-IsRegistry list_set
      (unregisters (1 ∷ []) ∷ registers alice ∷ closes ∷ registers bob ∷ []) both
      (tt, (refl, (tt, (refl, tt)))) (refl, refl, (refl, refl, tt))

unregister_lem_example : Unregisters list_set both (1 ∷ []) (2 ∷ [])
unfolding find_peer str_eq
unregister_lem_example =
    unregister_lem list_set both (1 ∷ []) (2 ∷ []) (refl, refl, (refl, refl, tt))

abbrev no_message : Incoming
no_message = record {
  code = 0;
  size = 40;
  as_status = some (own_status list_set fine alice 5 []);
  as_progress = none;
  as_event_ids = none;
  as_events = none;
  as_get_pack_infos = none;
  as_pack_infos = none;
  as_get_pack = none;
  as_pack = none;
}

handshake_lem_example :
    IsSameStatus 62 5 [] (inr no_message)
    × ((handshake list_set fine alice 5 far_progress []
          (inr no_message)
          (from_reader ∷ from_sender ∷ [])).1
        ≡ record alice {
          sent = status_msg (own_status list_set fine alice 5 []) ∷ progress_msg far_progress ∷ [];
        })
unfolding handshake send_status send_progress send await read_status check_status str_eq
handshake_lem_example =
    handshake_lem list_set fine alice 5 far_progress [] (inr no_message)
      (from_reader ∷ from_sender ∷ []) refl

abbrev view : NodeView
view = record {
  node_epoch = 3;
  fetcher_overloaded = false;
  event_rlp = λ id. if str_eq id event.id then some (7 ∷ 8 ∷ []) else none;
  packs_num = λ epoch. none;
  pack_info_rlp = λ epoch index. none;
  pack_events = λ epoch index. [];
}

abbrev asked : Incoming
asked = record no_message { code = 0xf2; as_event_ids = some ((9 ∷ []) ∷ event.id ∷ []) }

abbrev session : Session list_set
session = record { peer = alice; synced = true; calls = [] }

collect_events-Serves_example :
    Serves view.event_rlp 0
      ((9 ∷ []) ∷ event.id ∷ [])
      (collect_events view.event_rlp 0 ((9 ∷ []) ∷ event.id ∷ []))
collect_events-Serves_example =
    collect_events-Serves view.event_rlp ((9 ∷ []) ∷ event.id ∷ []) 0 (omega arith)

abbrev idle : Downloading
idle = λ calls. false

handle_msg-Answers_example :
    Answers list_set view fine session (handle_msg list_set view idle fine session (inr asked))
handle_msg-Answers_example = handle_msg-Answers list_set view fine idle session (inr asked)

abbrev turns : List (Turn list_set)
turns =
    record { view = view; downloading = idle; reading = inr asked }
    ∷ record { view = view; downloading = idle; reading = inr no_message }
    ∷ []

handle_loop-IsSafe_example :
    IsSafe list_set list_set-EventSetLaws fine session (handle_loop list_set fine session turns)
handle_loop-IsSafe_example =
    handle_loop-IsSafe list_set list_set-EventSetLaws fine turns session (omega arith)

abbrev progress_view : ProgressView
progress_view = record {
  latest_block = 9;
  atropos_of = λ block. [];
  store_epoch = 3;
  packs_num_or_default = λ epoch. 1;
  pack_info_or_default = λ epoch index. no_pack_info;
}

abbrev only_bob : PeerSet list_set
only_bob = record { peers = bob ∷ []; closed = false }

-- While the handler of alice is at work, another peer joins, and the set is closed.
abbrev carol : Peer list_set
carol = record alice { peer_id = 3 ∷ [] }

abbrev others : Others list_set
others = record {
  before_register = registers carol ∷ [];
  before_remove = unregisters (2 ∷ []) ∷ closes ∷ [];
}

handle_lem_example :
    Returns list_set others only_bob
      (leb 10 (peers_num list_set only_bob) && not false)
      (handshake list_set fine alice 5
        (my_progress progress_view)
        (progress_view.atropos_of 0)
        (inr no_message)
        (from_reader ∷ from_sender ∷ []))
      (handle list_set fine others only_bob 10 false 5 progress_view true alice
        (inr no_message)
        (from_reader ∷ from_sender ∷ [])
        turns)
unfolding handle handshake send_status send_progress send await read_status check_status str_eq
    peers_num register find_peer my_progress handle_loop handle_msg on_code on_get_events
    check_len_limits collect_events send_events_rlp note_each make_room shrink remove_peer
    unregister delete_peer peer_of close_peer close_shared peer_run peer_act close_all
handle_lem_example =
    handle_lem list_set others only_bob fine true turns 10 false 5 progress_view alice
      (inr no_message) (from_reader ∷ from_sender ∷ []) {err = some (err_resp err_extra_status_msg)}
      refl

abbrev config : ProtocolConfig
config = record { latency_importance = 60; throughput_importance = 40 }
