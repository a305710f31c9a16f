-- ===== src/Gossip/Examples.antt =====
-- Tables that are lists of keys and values, and a service over them.
use go_mini_opera.Prelude.{
  ℕ, ◌+◌, ◌≡◌, ◌≢◌, refl, sym, ap, ◌∙◌, arith, Bool, true, false, Option, none, some, List, [], ◌∷◌,
  ◌==◌, if◌then◌else◌, Bool-cases, ◌⊎◌, inl, inr, ◌&&◌,
}
use go_mini_opera.Inter.Event.{Event}
use go_mini_opera.Inter.Examples.{event}
use go_mini_opera.EventCheck.Errors.{CheckError, not_relevant}
use go_mini_opera.Utils.Migration.{str_eq}
use go_mini_opera.Utils.Migration.Resume.{str_eq_refl, str_eq_ne}
use go_mini_opera.Gossip.Kv.{Kv, KvLaws}
use go_mini_opera.Gossip.Heads.{
  EventId, EpochKv, EpochTables, is_head, track_event, IsIn, IsEventOf,
}
use go_mini_opera.Gossip.Heads.Tracking.{true_ne_false, Tracks, track_event-Tracks}
use go_mini_opera.Gossip.Packs.{
  PackInfo, PackKv, PackTables, get_packs_num, get_pack_info, get_pack_info_or_default,
  get_packs_num_or_default, packs_on_new_event,
}
use go_mini_opera.Gossip.Packs.Filling.{
  IsOpen, Stays, Seals, packs_on_new_event-cases, packs_on_new_event-IsOpen,
}
use go_mini_opera.Gossip.Processing.{
  ServiceKv, Service, Consensus, rejected, process_event, has_event, set_event, run_engine,
  after_engine, after_commit, commit, on_connected,
}
use go_mini_opera.Gossip.Processing.Rollback.{SameTables, process_event-failed}
use go_mini_opera.Gossip.Processing.Consistency.{
  IsConsistent, now_connected, process_event-IsConsistent,
}

-- A table is its look-up function; `same` compares the keys.
abbrev table_kv : {K : Type 0} (V : Type 0) (same : K → K → Bool) → Kv K V
table_kv {K = K} V same = record {
  Table = K → Option V;
  get = λ t k. t k;
  put = λ t k v j. if same j k then some v else t j;
  delete = λ t k j. if same j k then none else t j;
}

table_kv-KvLaws :
    {K V : Type 0} (same : K → K → Bool)
    → ((k : K) → same k k ≡ true)
    → ((j k : K) → j ≢ k → same j k ≡ false)
    → KvLaws (table_kv V same)
table_kv-KvLaws same reflexive differ = record {
  get-put_self = λ t k v. rw (reflexive k) refl;
  get-put_ne = λ t k j v h. rw (differ j k h) refl;
  get-delete_self = λ t k. rw (reflexive k) refl;
  get-delete_ne = λ t k j h. rw (differ j k h) refl;
}

abbrev nat_eq : ℕ → ℕ → Bool
nat_eq a b = a == b

abbrev pair_eq : ℕ × ℕ → ℕ × ℕ → Bool
pair_eq (a, b) (c, d) = a == c && b == d

abbrev triple_eq : ℕ × ℕ × EventId → ℕ × ℕ × EventId → Bool
triple_eq (a, b, c) (x, y, z) = a == x && (b == y && str_eq c z)

nat_laws : {V : Type 0} → KvLaws (table_kv V nat_eq)
nat_laws = table_kv-KvLaws nat_eq (λ k. ground arith) (λ j k h. ground arith)

pair_eq_ne : (j k : ℕ × ℕ) → j ≢ k → pair_eq j k ≡ false
pair_eq_ne (a, b) (c, d) h = elim (Bool-cases (a == c && b == d)) [
  | inr differ ↦ differ
  | inl same ↦ let e : a ≡ c = ground arith in let f : b ≡ d = ground arith in absurd (h cc)
]

pair_eq_refl : (k : ℕ × ℕ) → pair_eq k k ≡ true
pair_eq_refl (a, b) = ground arith

pair_laws : {V : Type 0} → KvLaws (table_kv V pair_eq)
pair_laws = table_kv-KvLaws pair_eq pair_eq_refl pair_eq_ne

id_laws : {V : Type 0} → KvLaws (table_kv V str_eq)
id_laws = table_kv-KvLaws str_eq str_eq_refl str_eq_ne

abbrev epoch_kv : EpochKv
epoch_kv = record { heads = table_kv (List ℕ) str_eq; tips = table_kv EventId nat_eq }

abbrev no_tables : EpochTables epoch_kv
no_tables = record { heads = λ id. none; tips = λ v. none }

-- An event without parents, and its child.
abbrev leaf : Event
leaf = record event { base = record event.base { parents = []; id = 1 ∷ [] } }

abbrev child : Event
child = record event { base = record event.base { parents = (1 ∷ []) ∷ []; id = 2 ∷ [] } }

no_events : Tracks epoch_kv id_laws no_tables []
unfolding is_head
no_events = record {
  heads = λ id. ((λ h. absurd (true_ne_false (sym h))), λ h. absurd h.event);
  closed = λ id h. h;
}

abbrev leaf_tables : EpochTables epoch_kv
leaf_tables = track_event epoch_kv no_tables leaf

leaf-Tracks : Tracks epoch_kv id_laws leaf_tables (leaf ∷ [])
leaf-Tracks =
    track_event-Tracks epoch_kv id_laws no_tables [] leaf no_events (λ h. h) (λ id h. absurd h)

leaf_not_child : ¬ IsEventOf (leaf ∷ []) child.id
leaf_not_child (inl same) = absurd cc
leaf_not_child (inr h) = h

leaf_parents : (id : EventId) → IsIn id child.parents → IsEventOf (leaf ∷ []) id
leaf_parents id (inl same) = inl same
leaf_parents id (inr h) = inr h

track_event-Tracks_example :
    Tracks epoch_kv id_laws (track_event epoch_kv leaf_tables child) (child ∷ leaf ∷ [])
track_event-Tracks_example =
    track_event-Tracks epoch_kv id_laws leaf_tables (leaf ∷ []) child leaf-Tracks leaf_not_child
      leaf_parents

abbrev pack_kv : PackKv
pack_kv = record {
  infos = table_kv PackInfo pair_eq;
  nums = table_kv ℕ nat_eq;
  packs = table_kv (List ℕ) triple_eq;
}

-- A store whose third pack has room for one more event.
abbrev nearly_full : PackTables pack_kv
nearly_full = record {
  infos = λ k.
      if pair_eq k (5, 3)
      then some (record { index = 3; size = 1000; num_of_events = 249; heads = [] })
      else none;
  nums = λ k. some 3;
  packs = λ k. none;
  sent = 3 ∷ [];
}

nearly_full-IsOpen : IsOpen pack_kv pair_laws nat_laws nearly_full 5
unfolding get_packs_num_or_default get_packs_num get_pack_info get_pack_info_or_default
nearly_full-IsOpen = record { below = (omega arith, omega arith); last = λ i later. ground arith }

packs_on_new_event-cases_example :
    Stays pack_kv pair_laws nat_laws nearly_full
      (packs_on_new_event pack_kv nearly_full ((2 ∷ []) ∷ []) event 5)
      5
      (get_packs_num_or_default pack_kv nearly_full 5)
      event
    ⊎ Seals pack_kv pair_laws nat_laws nearly_full
        (packs_on_new_event pack_kv nearly_full ((2 ∷ []) ∷ []) event 5)
        ((2 ∷ []) ∷ [])
        5
        (get_packs_num_or_default pack_kv nearly_full 5)
        event
unfolding get_packs_num_or_default get_packs_num
packs_on_new_event-cases_example =
    packs_on_new_event-cases pack_kv pair_laws nat_laws nearly_full ((2 ∷ []) ∷ []) event 5
      nearly_full-IsOpen (omega arith) (omega arith)

packs_on_new_event-IsOpen_example :
    IsOpen pack_kv pair_laws nat_laws
      (packs_on_new_event pack_kv nearly_full ((2 ∷ []) ∷ []) event 5)
      5
unfolding get_packs_num_or_default get_packs_num
packs_on_new_event-IsOpen_example =
    packs_on_new_event-IsOpen pack_kv pair_laws nat_laws nearly_full ((2 ∷ []) ∷ []) event 5
      nearly_full-IsOpen (omega arith) (omega arith)

abbrev service_kv : ServiceKv
service_kv = record {
  events = table_kv Event str_eq;
  epoch = epoch_kv;
  packs = pack_kv;
  Engine = ℕ;
}

-- An engine that connects every event or fails on each, and never seals the epoch.
abbrev consensus_with : Option CheckError → Consensus service_kv
consensus_with err = record {
  process = λ engine events epoch e. (err, engine + 1, epoch);
  epoch_check = λ epoch e. none;
  is_flush_needed = λ engine. true;
  flush = λ engine id. (none, engine + 10);
  get_heads = λ tables. (1 ∷ []) ∷ [];
  new_epoch_store = λ epoch. no_tables;
}

abbrev service : Service service_kv
service = record {
  stopped = false;
  epoch = 5;
  events = λ id. if str_eq id (1 ∷ []) then some leaf else none;
  epoch_store = leaf_tables;
  packs = nearly_full;
  engine = 0;
}

service-IsConsistent :
    IsConsistent service_kv (consensus_with none) id_laws id_laws service (leaf ∷ [])
unfolding has_event
service-IsConsistent = record { tracks = leaf-Tracks; stored = stored }
  where
    stored :
        (id : EventId)
        → IsEventOf (leaf ∷ []) id
        → has_event service_kv (consensus_with none) service id ≡ true
    stored id (inl same) =
        ap (λ x. has_event service_kv (consensus_with none) service x) same ∙ found
      where
        found : has_event service_kv (consensus_with none) service (1 ∷ []) ≡ true
        found = rw (str_eq_refl (1 ∷ [])) refl
    stored id (inr h) = absurd h

no_tables_empty :
    (n : ℕ) (id : EventId) → is_head epoch_kv ((consensus_with none).new_epoch_store n) id ≡ false
unfolding is_head
no_tables_empty n id = refl

abbrev connected_child : Service service_kv
connected_child = (process_event service_kv (consensus_with none) service child).1

process_event-IsConsistent_example :
    IsConsistent service_kv (consensus_with none) id_laws id_laws connected_child (
      now_connected service_kv
        (consensus_with none)
        id_laws
        id_laws
        service
        connected_child
        child
        (leaf ∷ []))
unfolding process_event has_event set_event run_engine after_engine after_commit commit on_connected
    str_eq
process_event-IsConsistent_example =
    process_event-IsConsistent service_kv (consensus_with none) id_laws id_laws no_tables_empty
      service connected_child child (leaf ∷ []) service-IsConsistent leaf_parents refl

abbrev refused_child : Service service_kv
refused_child = (process_event service_kv (consensus_with (some not_relevant)) service child).1

process_event-failed_example :
    SameTables service_kv (consensus_with (some not_relevant)) id_laws service refused_child
unfolding process_event has_event set_event run_engine after_engine after_commit commit on_connected
    str_eq
process_event-failed_example =
    process_event-failed service_kv (consensus_with (some not_relevant)) id_laws service
      refused_child child (rejected not_relevant) refl (λ c same. absurd cc)
