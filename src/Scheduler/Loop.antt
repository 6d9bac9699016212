-- ===== src/Scheduler/Loop.antt =====
-- `Run` of internal/scheduler/scheduler.go: how the queue is filled at the start, and one round
-- of the loop.
pub mod Hydrate
pub mod Tracking
use hambo.Base.{
  ℕ, String, Bool, true, false, List, [], ◌∷◌, Result, ok, err, Error, if◌then◌else◌, ◌>>=◌,
}
use hambo.Store.{Entry}
use hambo.Store.Tx.{Faults, view}
use hambo.Model.Container.{Container}
use hambo.Model.Database.{Database, Collections}
use hambo.Queue.{MemoryQueue, Taken, waits, shutdown, name_of, add, get, done}
use hambo.Queue.Timers.{System, add_after}
use hambo.Watch.{NodeWatcher}
use hambo.Scheduler.{Scheduled, needs_node, assign}

unfoldable pub hydrate : List (Entry Container) → MemoryQueue → MemoryQueue
hydrate [] q = q
hydrate (e ∷ es) q = hydrate es (if needs_node e.value then add e.key q else q)

-- `AddAfter`, if `assign` failed for whatever reason, and `Done`. The delay is left to the timer.
unfoldable pub conclude : Result (Unit {0}) → String → System → System
conclude (ok u) id s = record s { queue = done id s.queue }
conclude (err e) id s = let later = add_after id s in record later { queue = done id later.queue }

module _ {N C T : Type 0} (c : Collections N C T) where
  -- The start of `Run`: the pending containers are read and queued.
  unfoldable pub load_pending : Faults → Database N C T → MemoryQueue → Result MemoryQueue
  unfolding hydrate
  load_pending f db q = do
    entries ← view f (λ (d : Database N C T). c.containers.list_tx d.containers) db
    ok (hydrate entries q)

  process : Faults → ℕ → Taken → MemoryQueue → Scheduled N C T → Scheduled N C T
  unfolding conclude
  process f now waits q s = s
  process f now shutdown q s = s
  process f now (name_of id) q s =
      let (result, db, w) = assign c f now id s.database s.watcher in
      record {
        system = conclude result id (record s.system { queue = q });
        database = db;
        watcher = w;
      }

  -- One round of the loop, at the time `now`. A round that waits, or that finds the queue shut
  -- down, does nothing.
  unfoldable pub round : Faults → ℕ → Scheduled N C T → Scheduled N C T
  unfolding process
  round f now s = let (q, taken) = get s.system.queue in process f now taken q s
