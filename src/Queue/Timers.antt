-- ===== src/Queue/Timers.antt =====
-- `AddAfter` of internal/queue/queue.go: its goroutines beside the queue, and every interleaving
-- of their steps with the calls of the clients.
use hambo.Base.{String, true, List, [], ◌∷◌, ◌++◌, ◌≡◌, arith, if◌then◌else◌}
use hambo.Base.Names
use hambo.Queue.{MemoryQueue, new_memory_queue, add, get, done, shut_down}
use hambo.Queue.Invariant.{
  IsValid, new_memory_queue-IsValid, add-IsValid, get-IsValid, done-IsValid, shut_down-IsValid,
}

-- `timers` holds the name of each goroutine that waits for its timer or for the shutdown.
pub record System : Type 0 where
  pub queue : MemoryQueue
  pub timers : List String

unfoldable pub add_after : String → System → System
add_after name s = if s.queue.shutting_down then s else record s { timers = name ∷ s.timers }

-- A client calls `Done` only for a name that it was handed.
pub data Step : System → System → Type 0 where
  adds : (s : System) (n : String) → Step s (record s { queue = add n s.queue })
  adds_after : (s : System) (n : String) → Step s (add_after n s)
  gets : (s : System) → Step s (record s { queue = (get s.queue).0 })
  dones :
      (s : System) (n : String)
      → Names.contains s.queue.processing n ≡ true
      → Step s (record s { queue = done n s.queue })
  shuts_down : (s : System) → Step s (record s { queue = shut_down s.queue })
  fires :
      (s : System) (before after : List String) (n : String)
      → s.timers ≡ before ++ n ∷ after
      → Step s (record { queue = add n s.queue; timers = before ++ after })
  gives_up :
      (s : System) (before after : List String) (n : String)
      → s.timers ≡ before ++ n ∷ after
      → s.queue.shutdown_closed ≡ true
      → Step s (record s { timers = before ++ after })

pub data Reach (s : System) : System → Type 0 where
  here : Reach s s
  next : {t u : System} → Reach s t → Step t u → Reach s u

abbrev pub start : System
start = record { queue = new_memory_queue; timers = [] }

Step-IsValid : {s t : System} → Step s t → IsValid s.queue → IsValid t.queue
unfolding add_after
Step-IsValid (adds s n) v = add-IsValid n s.queue v
Step-IsValid (adds_after s n) v = ground arith
Step-IsValid (gets s) v = get-IsValid s.queue v
Step-IsValid (dones s n b) v = done-IsValid n s.queue b v
Step-IsValid (shuts_down s) v = shut_down-IsValid s.queue v
Step-IsValid (fires s before after n e) v = add-IsValid n s.queue v
Step-IsValid (gives_up s before after n e c) v = v

-- In every state that any interleaving of `Add`, `AddAfter`, `Get`, `Done`, `Shutdown` and the
-- timers reaches, where `Done` is called for a name being processed, the queue is well formed: its
-- items are, without repetition, exactly the dirty names that are not being processed, and its
-- channel is closed exactly if it is shutting down.
pub Reach-IsValid : {s : System} → Reach start s → IsValid s.queue
Reach-IsValid here = new_memory_queue-IsValid
Reach-IsValid (next r st) = Step-IsValid st (Reach-IsValid r)
