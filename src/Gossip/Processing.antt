-- ===== src/Gossip/Processing.antt =====
-- processEvent of gossip/consensus_callbacks.go, with HasEvent, SetEvent and DelEvent of
-- gossip/store_event.go and resetEpochStore of gossip/store_epoch.go. The consensus engine, its
-- state, the epoch that it may seal and the pool of databases come from lachesis-base. The
-- emitter's notification is left out.
pub mod Steps
pub mod Rollback
pub mod Consistency
use go_mini_opera.Prelude.{ℕ, Bool, Option, none, some, List, ◌==◌, not, ◌&&◌, if◌then◌else◌}
use go_mini_opera.Inter.Event.{Event}
use go_mini_opera.EventCheck.Errors.{CheckError, already_connected}
use go_mini_opera.Gossip.Kv.{Kv}
use go_mini_opera.Gossip.Heads.{EventId, EpochKv, EpochTables, is_some, track_event}
use go_mini_opera.Gossip.Packs.{PackKv, PackTables, packs_on_new_event, packs_on_new_epoch}

pub record ServiceKv : Type 1 where
  pub events : Kv EventId Event
  pub epoch : EpochKv
  pub packs : PackKv
  -- The engine's own state, and that of the pool of databases.
  pub Engine : Type 0

pub record Service (kv : ServiceKv) : Type 0 where
  pub stopped : Bool
  -- `store.GetEpoch()`.
  pub epoch : ℕ
  pub events : kv.events.Table
  pub epoch_store : EpochTables kv.epoch
  pub packs : PackTables kv.packs
  pub engine : kv.Engine

-- What the service calls of lachesis-base.
pub record Consensus (kv : ServiceKv) : Type 0 where
  -- `engine.ProcessEvent`: its error, its state and the epoch after it.
  pub process : kv.Engine → kv.events.Table → ℕ → Event → Option CheckError × kv.Engine × ℕ
  -- `checkers.Epochcheck.Validate` in an epoch.
  pub epoch_check : ℕ → Event → Option CheckError
  -- `dbs.IsFlushNeeded` and `dbs.Flush` with a flush id.
  pub is_flush_needed : kv.Engine → Bool
  pub flush : kv.Engine → EventId → Option CheckError × kv.Engine
  -- The iteration of `GetHeads` over the keys of its table.
  pub get_heads : EpochTables kv.epoch → List EventId
  -- The database of a new epoch.
  pub new_epoch_store : ℕ → EpochTables kv.epoch

pub data ProcessError : Type 0 where
  -- errStopped.
  service_stopped : ProcessError
  rejected : CheckError → ProcessError
  -- An error of Commit.
  commit_failed : CheckError → ProcessError

module _ (kv : ServiceKv) (consensus : Consensus kv) where
  -- `HasEvent`, `SetEvent` and `DelEvent`.
  unfoldable pub has_event : Service kv → EventId → Bool
  has_event s id = is_some (kv.events.get s.events id)

  unfoldable pub set_event : Service kv → Event → Service kv
  set_event s e = record s { events = kv.events.put s.events e.id e }

  unfoldable pub del_event : Service kv → EventId → Service kv
  del_event s id = record s { events = kv.events.delete s.events id }

  -- `engine.ProcessEvent`.
  unfoldable pub run_engine : Service kv → Event → Option CheckError × Service kv
  run_engine s e =
      let (err, engine, epoch) = consensus.process s.engine s.events s.epoch e in
      (err, record s { engine = engine; epoch = epoch })

  -- `resetEpochStore`.
  unfoldable pub reset_epoch_store : Service kv → ℕ → Service kv
  reset_epoch_store s new_epoch = record s { epoch_store = consensus.new_epoch_store new_epoch }

  -- What follows a successful run of the engine.
  unfoldable pub on_connected : ℕ → Event → Service kv → Service kv
  on_connected old_epoch e s =
      let packed = record s {
        packs = packs_on_new_event kv.packs s.packs (consensus.get_heads s.epoch_store) e e.epoch;
      } in
      if s.epoch == old_epoch
      then record packed { epoch_store = track_event kv.epoch packed.epoch_store e }
      else reset_epoch_store
          (record packed {
            packs =
                packs_on_new_epoch kv.packs packed.packs (consensus.get_heads packed.epoch_store)
                  old_epoch s.epoch;
          })
          s.epoch

  -- `Commit` of gossip/store.go with a flush id.
  unfoldable pub commit : Service kv → EventId → Bool → Option CheckError × Service kv
  commit s flush_id immediately =
      if not immediately && not (consensus.is_flush_needed s.engine)
      then (none, s)
      else (let (err, engine) = consensus.flush s.engine flush_id in
          (err, record s { engine = engine }))

  -- The return of Commit's result.
  unfoldable pub after_commit : Option CheckError × Service kv → Option ProcessError × Service kv
  after_commit (none, s) = (none, s)
  after_commit (some err, s) = (some (commit_failed err), s)

  -- The test of the engine's error.
  unfoldable pub after_engine :
      ℕ → Event → Option CheckError × Service kv → Option ProcessError × Service kv
  after_engine old_epoch e (some err, s) = (some (rejected err), del_event s e.id)
  after_engine old_epoch e (none, s) =
      let connected = on_connected old_epoch e s in
      after_commit (commit connected e.id (not (connected.epoch == old_epoch)))

  -- `processEvent`.
  unfoldable pub process_event : Service kv → Event → Option ProcessError × Service kv
  process_event s e =
      if s.stopped
      then (some service_stopped, s)
      else (if has_event s e.id
          then (some (rejected already_connected), s)
          else elim (consensus.epoch_check s.epoch e) [
            | some err ↦ (some (rejected err), s)
            | none ↦ after_engine s.epoch e (run_engine (set_event s e) e)
          ])
