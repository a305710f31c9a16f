-- ===== src/Gossip/Heads.antt =====
-- gossip/store_heads.go and the part of processEvent that keeps the heads and the last events of
-- an epoch. The epoch store is there from the start of the service, so the tests for nil are left out.
pub mod Tracking
use go_mini_opera.Prelude.{
  ℕ, ◌≡◌, ◌≢◌, refl, sym, ap, ◌∙◌, subst, ◌↔◌, ◌⊎◌, inl, inr, Bool, true, false, Option, none, some,
  List, [], ◌∷◌, map, All, Option-cases, Bool-cases,
}
use go_mini_opera.Inter.Event.{Event}
use go_mini_opera.Utils.Migration.{str_eq}
use go_mini_opera.Utils.Migration.Resume.{str_eq_sound}
use go_mini_opera.Gossip.Kv.{Kv, KvLaws}

abbrev pub EventId : Type 0
EventId = List ℕ

-- The tables of an epoch: the keys of Heads have empty values.
pub record EpochKv : Type 1 where
  pub heads : Kv EventId (List ℕ)
  pub tips : Kv ℕ EventId

pub record EpochTables (kv : EpochKv) : Type 0 where
  pub heads : kv.heads.Table
  pub tips : kv.tips.Table

abbrev pub is_some {ℓ} : {A : Type ℓ} → Option A → Bool
is_some none = false
is_some (some a) = true

module _ (kv : EpochKv) where
  -- `DelHead`, `AddHead` and `IsHead`.
  unfoldable pub del_head : EpochTables kv → EventId → EpochTables kv
  del_head es id = record es { heads = kv.heads.delete es.heads id }

  unfoldable pub add_head : EpochTables kv → EventId → EpochTables kv
  add_head es id = record es { heads = kv.heads.put es.heads id [] }

  unfoldable pub is_head : EpochTables kv → EventId → Bool
  is_head es id = is_some (kv.heads.get es.heads id)

  -- `SetLastEvent` and `GetLastEvent`.
  unfoldable pub set_last_event : EpochTables kv → ℕ → EventId → EpochTables kv
  set_last_event es creator id = record es { tips = kv.tips.put es.tips creator id }

  unfoldable pub get_last_event : EpochTables kv → ℕ → Option EventId
  get_last_event es creator = kv.tips.get es.tips creator

  -- The loop over the parents.
  unfoldable pub del_heads : EpochTables kv → List EventId → EpochTables kv
  del_heads es [] = es
  del_heads es (p ∷ ps) = del_heads (del_head es p) ps

  -- What processEvent does of an event that does not seal the epoch.
  unfoldable pub track_event : EpochTables kv → Event → EpochTables kv
  track_event es e = add_head (del_heads (set_last_event es e.creator e.id) e.parents) e.id

-- Membership of an id.
abbrev pub IsIn : EventId → List EventId → Type 0
IsIn id [] = ⊥
IsIn id (x ∷ xs) = (id ≡ x) ⊎ IsIn id xs

-- The id of one of the events, and the parent of one of them.
abbrev pub IsEventOf : List Event → EventId → Type 0
IsEventOf [] id = ⊥
IsEventOf (e ∷ es) id = (id ≡ e.id) ⊎ IsEventOf es id

abbrev pub IsParentOf : List Event → EventId → Type 0
IsParentOf [] id = ⊥
IsParentOf (e ∷ es) id = IsIn id e.parents ⊎ IsParentOf es id

-- A head is an event without descendants.
pub record IsHeadOf (es : List Event) (id : EventId) : Type 0 where
  pub event : IsEventOf es id
  pub childless : ¬ IsParentOf es id
