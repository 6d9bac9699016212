-- ===== src/Queue/Fifo.antt =====
-- The order in which the queue of internal/queue/queue.go hands names out, over any run of calls.
use mathlib.Core.List.{append_assoc, append-nil}
use hambo.Base.{String, List, [], ◌∷◌, ◌++◌, ◌≡◌, refl, sym, ap, ◌∙◌, arith, if◌then◌else◌}
use hambo.Queue.{
  MemoryQueue, Taken, waits, shutdown, name_of, add, get, take_first, done, shut_down,
}
use hambo.Queue.Status.{Status, idle, queued, busy, again, marked}

pub data Call : Type 0 where
  adds : String → Call
  gets : Call
  dones : String → Call
  shuts_down : Call

unfoldable pub apply : Call → MemoryQueue → MemoryQueue
apply (adds n) q = add n q
apply gets q = (get q).0
apply (dones n) q = done n q
apply shuts_down q = shut_down q

unfoldable pub run : List Call → MemoryQueue → MemoryQueue
run [] q = q
run (c ∷ cs) q = run cs (apply c q)

abbrev names_of : Taken → List String
names_of waits = []
names_of shutdown = []
names_of (name_of n) = n ∷ []

abbrev taken_by : Call → MemoryQueue → List String
taken_by gets q = names_of (get q).1
taken_by _ q = []

-- The names that a run hands out, oldest first.
unfoldable pub taken : List Call → MemoryQueue → List String
taken [] q = []
taken (c ∷ cs) q = taken_by c q ++ taken cs (apply c q)

-- By how the name is marked: `Add` queues an idle name, `Done` one that was added meanwhile.
abbrev queued_by_add : String → Status → List String
queued_by_add n idle = n ∷ []
queued_by_add n _ = []

abbrev queued_by_done : String → Status → List String
queued_by_done n idle = []
queued_by_done n busy = []
queued_by_done n queued = n ∷ []
queued_by_done n again = n ∷ []

abbrev enqueued_by : Call → MemoryQueue → List String
enqueued_by (adds n) q = if q.shutting_down then [] else queued_by_add n (marked q n)
enqueued_by (dones n) q = queued_by_done n (marked q n)
enqueued_by _ q = []

-- The names that a run puts at the end of the queue, in order.
unfoldable pub enqueued : List Call → MemoryQueue → List String
enqueued [] q = []
enqueued (c ∷ cs) q = enqueued_by c q ++ enqueued cs (apply c q)

take_first-items :
    (items : List String) (q : MemoryQueue)
    → q.items ≡ items
    → names_of (take_first items q).1 ++ (take_first items q).0.items ≡ q.items
unfolding take_first
take_first-items [] q e = refl
take_first-items (m ∷ rest) q e = sym e

apply-items :
    (c : Call) (q : MemoryQueue) → taken_by c q ++ (apply c q).items ≡ q.items ++ enqueued_by c q
unfolding apply add get done shut_down marked
apply-items (adds n) q = ground (arith, append-nil q.items)
apply-items gets q = ground (arith, append-nil q.items, take_first-items q.items q refl)
apply-items (dones n) q = ground (arith, append-nil q.items)
apply-items shuts_down q = ground (arith, append-nil q.items)

-- The queue is first in, first out: for any calls of `Add`, `Get`, `Done` and `Shutdown`, the names
-- that `Get` handed out, followed by the items that are left, are the items at the start followed
-- by the names that `Add` and `Done` put in line, in that order.
pub run-items :
    (cs : List Call) (q : MemoryQueue) → taken cs q ++ (run cs q).items ≡ q.items ++ enqueued cs q
unfolding taken run enqueued
run-items [] q = sym (append-nil q.items)
run-items (c ∷ cs) q =
    append_assoc (taken_by c q) (taken cs (apply c q)) (run cs (apply c q)).items
    ∙ ap (◌++◌ (taken_by c q)) (run-items cs (apply c q))
    ∙ sym (append_assoc (taken_by c q) (apply c q).items (enqueued cs (apply c q)))
    ∙ ap (λ xs. xs ++ enqueued cs (apply c q)) (apply-items c q)
    ∙ append_assoc q.items (enqueued_by c q) (enqueued cs (apply c q))
