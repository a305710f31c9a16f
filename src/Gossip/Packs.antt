-- ===== src/Gossip/Packs.antt =====
-- gossip/pack.go and gossip/store_pack.go: the events of an epoch are numbered into packs, the last
-- of which is open. Log.Crit ends the process; the LRU cache only repeats the table.
pub mod Filling
use go_mini_opera.Prelude.{
  ℕ, ◌+◌, ◌*◌, ◌%◌, ◌^◌, ◌≤◌, ◌<◌, ◌≡◌, Bool, true, false, ◌||◌, Option, none, some, List, [], ◌∷◌,
  leb, if◌then◌else◌,
}
use go_mini_opera.Inter.Event.{Event}
use go_mini_opera.Gossip.Kv.{Kv}
use go_mini_opera.Gossip.Heads.{EventId}

pub record PackInfo : Type 0 where
  pub index : ℕ
  pub size : ℕ
  pub num_of_events : ℕ
  pub heads : List EventId

-- `softResponseLimitSize` and `softLimitItems` of gossip/handler.go.
abbrev pub max_pack_size : ℕ
max_pack_size = 2 * 1024 * 1024

abbrev pub max_pack_events_num : ℕ
max_pack_events_num = 250

-- The tables, by their keys before these are made into bytes.
pub record PackKv : Type 1 where
  pub infos : Kv (ℕ × ℕ) PackInfo
  pub nums : Kv ℕ ℕ
  pub packs : Kv (ℕ × ℕ × EventId) (List ℕ)

pub record PackTables (kv : PackKv) : Type 0 where
  pub infos : kv.infos.Table
  pub nums : kv.nums.Table
  pub packs : kv.packs.Table
  -- The numbers sent to `feed.newPack`, the last one first.
  pub sent : List ℕ

-- An idx.Pack is an uint32.
abbrev pub pack_suc : ℕ → ℕ
pack_suc i = (i + 1) % 2 ^ 32

abbrev pub or_default {ℓ} : {A : Type ℓ} → Option A → A → A
or_default none d = d
or_default (some a) d = a

-- The pack with one event more.
unfoldable pub grow : PackInfo → ℕ → Event → PackInfo
grow info i e = record info {
  index = i;
  num_of_events = (info.num_of_events + 1) % 2 ^ 32;
  size = (info.size + e.size % 2 ^ 32) % 2 ^ 32;
}

unfoldable pub is_full : PackInfo → Bool
is_full info = leb max_pack_events_num info.num_of_events || leb max_pack_size info.size

module _ (kv : PackKv) where
  -- `GetPackInfo` and `GetPackInfoOrDefault`.
  unfoldable pub get_pack_info : PackTables kv → ℕ → ℕ → Option PackInfo
  get_pack_info s epoch i = kv.infos.get s.infos (epoch, i)

  unfoldable pub get_pack_info_or_default : PackTables kv → ℕ → ℕ → PackInfo
  get_pack_info_or_default s epoch i =
      or_default (get_pack_info s epoch i)
        (record { index = i; size = 0; num_of_events = 0; heads = [] })

  -- `SetPackInfo`.
  unfoldable pub set_pack_info : PackTables kv → ℕ → ℕ → PackInfo → PackTables kv
  set_pack_info s epoch i info = record s { infos = kv.infos.put s.infos (epoch, i) info }

  -- `AddToPack`.
  unfoldable pub add_to_pack : PackTables kv → ℕ → ℕ → EventId → PackTables kv
  add_to_pack s epoch i id = record s { packs = kv.packs.put s.packs (epoch, i, id) [] }

  -- `GetPacksNum` and `GetPacksNumOrDefault`.
  unfoldable pub get_packs_num : PackTables kv → ℕ → Option ℕ
  get_packs_num s epoch = kv.nums.get s.nums epoch

  unfoldable pub get_packs_num_or_default : PackTables kv → ℕ → ℕ
  get_packs_num_or_default s epoch = or_default (get_packs_num s epoch) 1

  -- `SetPacksNum`.
  unfoldable pub set_packs_num : PackTables kv → ℕ → ℕ → PackTables kv
  set_packs_num s epoch num = record s { nums = kv.nums.put s.nums epoch num }

  -- `feed.newPack.Send`.
  unfoldable pub send_new_pack : PackTables kv → ℕ → PackTables kv
  send_new_pack s num = record s { sent = num ∷ s.sent }

  -- `packsOnNewEvent`; `heads` is what `GetHeads` returns.
  unfoldable pub packs_on_new_event : PackTables kv → List EventId → Event → ℕ → PackTables kv
  packs_on_new_event s heads e epoch =
      let pack_idx = get_packs_num_or_default s epoch in
      let pack_info = grow (get_pack_info_or_default s epoch pack_idx) pack_idx e in
      let added = add_to_pack s epoch pack_idx e.id in
      if is_full pack_info
      then set_pack_info
          (send_new_pack (set_packs_num added epoch (pack_suc pack_idx)) (pack_suc pack_idx)) epoch
          pack_idx (record pack_info { heads = heads })
      else set_pack_info added epoch pack_idx pack_info

  -- `packsOnNewEpoch`; the new epoch is not used.
  unfoldable pub packs_on_new_epoch : PackTables kv → List EventId → ℕ → ℕ → PackTables kv
  packs_on_new_epoch s heads old_epoch new_epoch =
      let pack_idx = get_packs_num_or_default s old_epoch in
      let pack_info = get_pack_info_or_default s old_epoch pack_idx in
      let pinned = set_pack_info s old_epoch pack_idx (record pack_info { heads = heads }) in
      send_new_pack (set_packs_num pinned old_epoch (pack_suc pack_idx)) (pack_suc pack_idx)
