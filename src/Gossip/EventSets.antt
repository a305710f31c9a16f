-- ===== src/Gossip/EventSets.antt =====
-- The set of golang-set that holds the events known to a peer, and what the code relies on.
use go_mini_opera.Prelude.{ℕ, ◌+◌, ◌<◌, ◌≤◌, ◌≡◌, Bool, true}
use go_mini_opera.Gossip.Heads.{EventId}

pub record EventSet : Type 1 where
  pub Set : Type 0
  pub empty : Set
  pub add : Set → EventId → Set
  pub contains : Set → EventId → Bool
  pub cardinality : Set → ℕ
  -- It removes some element.
  pub pop : Set → Set

pub record EventSetLaws (set : EventSet) : Type 0 where
  pub contains-add_self : (s : set.Set) (id : EventId) → set.contains (set.add s id) id ≡ true
  pub cardinality-add :
      (s : set.Set) (id : EventId) → set.cardinality (set.add s id) ≤ set.cardinality s + 1
  pub cardinality-pop :
      (s : set.Set) → 0 < set.cardinality s → set.cardinality (set.pop s) + 1 ≡ set.cardinality s
