-- ===== src/Tests/Queues.antt =====
-- The work queue.
use hambo.Base.{true, List, [], ◌∷◌, ◌++◌, ◌≡◌, refl, dec_string}
use hambo.Base.Names
use hambo.Queue.{MemoryQueue, new_memory_queue, add, get, done}
use hambo.Queue.Invariant.{IsValid, new_memory_queue-IsValid, add-IsValid, get-IsValid}
use hambo.Queue.Status.{status, after_done}
use hambo.Queue.Machine.{apply-status}
use hambo.Queue.Fifo.{Call, apply, adds, gets, dones, taken, run, enqueued, run-items}
use hambo.Queue.Timers
use hambo.Queue.Timers.{System, Reach, start, Reach-IsValid}

one : MemoryQueue
unfolding add new_memory_queue Names.contains Names.insert dec_string
one = add "a" new_memory_queue

processing_one : MemoryQueue
unfolding one get Names.remove
processing_one = (get one).0

one-IsValid : IsValid one
unfolding one
one-IsValid = add-IsValid "a" new_memory_queue new_memory_queue-IsValid

-- A name that is added twice is queued once.
added_twice : (add "a" one).items ≡ "a" ∷ []
unfolding one
added_twice = refl

-- A name that is added while it is processed waits for `Done`.
added_meanwhile :
    ((add "a" processing_one).items ≡ []) × ((done "a" (add "a" processing_one)).items ≡ "a" ∷ [])
unfolding processing_one done
added_meanwhile = (refl, refl)

processing_one-IsValid : IsValid processing_one
unfolding processing_one
processing_one-IsValid = get-IsValid one one-IsValid

a_is_processing : Names.contains (add "a" processing_one).processing "a" ≡ true
unfolding processing_one
a_is_processing = refl

-- A name that was added meanwhile stands in the queue after `Done`.
apply-status_example :
    status (done "a" (add "a" processing_one)) "a"
    ≡ after_done (status (add "a" processing_one) "a")
unfolding apply dec_string
apply-status_example =
    apply-status (dones "a") (add "a" processing_one) "a"
      (add-IsValid "a" processing_one processing_one-IsValid) a_is_processing

abbrev calls : List Call
calls = adds "a" ∷ adds "b" ∷ gets ∷ adds "a" ∷ gets ∷ dones "a" ∷ []

fifo_run :
    (taken calls new_memory_queue ≡ "a" ∷ "b" ∷ [])
    × ((run calls new_memory_queue).items ≡ "a" ∷ [])
unfolding taken run apply one get done Names.remove
fifo_run = (refl, refl)

run-items_example :
    taken calls new_memory_queue ++ (run calls new_memory_queue).items
    ≡ new_memory_queue.items ++ enqueued calls new_memory_queue
run-items_example = run-items calls new_memory_queue

abbrev timer_run : Reach start (record start { queue = add "a" start.queue })
timer_run = Timers.next Timers.here (Timers.adds start "a")

Reach-IsValid_example : IsValid (add "a" new_memory_queue)
Reach-IsValid_example = Reach-IsValid timer_run
