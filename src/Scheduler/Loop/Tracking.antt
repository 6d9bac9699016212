-- ===== src/Scheduler/Loop/Tracking.antt =====
-- The containers that the loop of internal/scheduler/scheduler.go has yet to place.
use hambo.Base.{ℕ, String, Bool, true, ◌||◌, ◌≡◌, refl, arith, Result, ok, err}
use hambo.Base.Names
use hambo.Store.Tx.{Faults}
use hambo.Model.Container.{Container}
use hambo.Model.Database.{Database, Collections}
use hambo.Queue.{Taken, waits, shutdown, name_of, get}
use hambo.Queue.Invariant.{IsValid, get-IsValid, done-IsValid}
use hambo.Queue.Status.{get-sets}
use hambo.Queue.Timers.{System, add_after}
use hambo.Scheduler.{Scheduled, needs_node, assign}
use hambo.Scheduler.Loop.{conclude, process, round}

-- A name is queued or being processed, or a timer will add it again.
abbrev pub is_tracked : System → String → Bool
is_tracked s n =
    Names.contains s.queue.dirty n
    || Names.contains s.queue.processing n
    || Names.contains s.timers n

module _ {N C T : Type 0} (c : Collections N C T) where
  -- Every stored container that needs a node is tracked.
  abbrev pub Tracks : Scheduled N C T → Type 0
  Tracks s =
      (n : String) (current : Container)
      → c.containers.get_tx n s.database.containers ≡ ok current
      → needs_node current ≡ true
      → is_tracked s.system n ≡ true

  -- A round hands back the name that it took, and keeps the queue well formed.
  conclude-IsValid :
      (r : Result (Unit {0})) (id : String) (s : System)
      → Names.contains s.queue.processing id ≡ true
      → IsValid s.queue
      → IsValid (conclude r id s).queue
  unfolding conclude add_after
  conclude-IsValid (ok u) id s busy v = done-IsValid id s.queue busy v
  conclude-IsValid (err e) id s busy v = ground (arith, done-IsValid id s.queue busy v)

  process-IsValid :
      (f : Faults) (now : ℕ) (t : Taken) (s : Scheduled N C T)
      → (get s.system.queue).1 ≡ t
      → IsValid s.system.queue
      → IsValid (process c f now t (get s.system.queue).0 s).system.queue
  unfolding process
  process-IsValid f now waits s h v = v
  process-IsValid f now shutdown s h v = v
  process-IsValid f now (name_of id) s h v =
      conclude-IsValid (assign c f now id s.database s.watcher).0 id
        (record s.system { queue = (get s.system.queue).0 })
        (ground (arith, get-sets id id s.system.queue h)) (get-IsValid s.system.queue v)

  -- A round of the scheduler's loop keeps the queue well formed.
  pub round-IsValid :
      (f : Faults) (now : ℕ) (s : Scheduled N C T)
      → IsValid s.system.queue
      → IsValid (round c f now s).system.queue
  unfolding round
  round-IsValid f now s v = process-IsValid f now (get s.system.queue).1 s refl v
