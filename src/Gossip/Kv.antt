-- ===== src/Gossip/Kv.antt =====
-- The tables of kvdb, which come from lachesis-base: the operations that the stores call, and what
-- they rely on. A failing database ends the process (`Log.Crit`), so no operation fails.
use go_mini_opera.Prelude.{◌≡◌, ◌≢◌, Option, none, some}

pub record Kv (K V : Type 0) : Type 1 where
  pub Table : Type 0
  pub get : Table → K → Option V
  pub put : Table → K → V → Table
  pub delete : Table → K → Table

-- A get sees the last put or delete of its key, and no other.
pub record KvLaws {K V : Type 0} (kv : Kv K V) : Type 0 where
  pub get-put_self : (t : kv.Table) (k : K) (v : V) → kv.get (kv.put t k v) k ≡ some v
  pub get-put_ne : (t : kv.Table) (k j : K) (v : V) → j ≢ k → kv.get (kv.put t k v) j ≡ kv.get t j
  pub get-delete_self : (t : kv.Table) (k : K) → kv.get (kv.delete t k) k ≡ none
  pub get-delete_ne : (t : kv.Table) (k j : K) → j ≢ k → kv.get (kv.delete t k) j ≡ kv.get t j
