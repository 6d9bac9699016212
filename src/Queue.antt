-- ===== src/Queue.antt =====
-- internal/queue/queue.go: the work queue of the scheduler. The lock makes each method atomic.
-- A call that waits on the condition variable changes nothing, and is made again when it wakes.
pub mod Invariant
pub mod Status
pub mod Fifo
pub mod Machine
pub mod Timers
use hambo.Base.{String, Bool, true, false, List, [], ◌∷◌, ◌++◌, if◌then◌else◌, ◌==◌}
use hambo.Base.Names

-- `shutdown_closed` says whether `shutdownCh` is closed.
pub record MemoryQueue : Type 0 where
  pub items : List String
  pub dirty : List String
  pub processing : List String
  pub shutting_down : Bool
  pub shutdown_closed : Bool

unfoldable pub new_memory_queue : MemoryQueue
new_memory_queue = record {
  items = [];
  dirty = [];
  processing = [];
  shutting_down = false;
  shutdown_closed = false;
}

unfoldable pub add : String → MemoryQueue → MemoryQueue
add name q =
    if q.shutting_down
    then q
    else if Names.contains q.dirty name
    then q
    else if Names.contains q.processing name
    then record q { dirty = Names.insert name q.dirty }
    else record q { dirty = Names.insert name q.dirty; items = q.items ++ name ∷ [] }

-- What `Get` does: it blocks, it reports the shutdown, or it hands out a name.
pub data Taken : Type 0 where
  waits : Taken
  shutdown : Taken
  name_of : String → Taken

take_first : List String → MemoryQueue → MemoryQueue × Taken
take_first [] q = (q, waits)
take_first (name ∷ rest) q = (
  record q {
    items = rest;
    dirty = Names.remove name q.dirty;
    processing = Names.insert name q.processing;
  },
  name_of name,
)

unfoldable pub get : MemoryQueue → MemoryQueue × Taken
unfolding take_first
get q = if q.shutting_down then (q, shutdown) else take_first q.items q

unfoldable pub done : String → MemoryQueue → MemoryQueue
done name q =
    let processing = Names.remove name q.processing in
    if Names.contains q.dirty name
    then record q { processing = processing; items = q.items ++ name ∷ [] }
    else record q { processing = processing }

-- `Shutdown`: closing `shutdownCh` a second time would panic, so the flag guards it.
unfoldable pub shut_down : MemoryQueue → MemoryQueue
shut_down q =
    if q.shutting_down then q else record q { shutting_down = true; shutdown_closed = true }
