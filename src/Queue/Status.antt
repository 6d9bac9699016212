-- ===== src/Queue/Status.antt =====
-- The queue of internal/queue/queue.go seen as one small state machine for each name.
use hambo.Base.{
  String, Bool, true, false, not, List, [], ◌∷◌, ◌≡◌, refl, arith, if◌then◌else◌, ◌==◌, count,
  nat_eq,
}
use hambo.Base.Names
use hambo.Queue.{MemoryQueue, name_of, add, get, take_first, done}
use hambo.Queue.Invariant.{IsValid}

-- `again` is a name that was added while it was being processed.
pub data Status : Type 0 where
  idle queued busy again : Status

abbrev pub status_of : Bool → Bool → Status
status_of false false = idle
status_of true false = queued
status_of false true = busy
status_of true true = again

-- What the sets `dirty` and `processing` say of a name.
unfoldable pub marked : MemoryQueue → String → Status
marked q n = status_of (Names.contains q.dirty n) (Names.contains q.processing n)

-- Where a name stands: in `items`, in `processing` and perhaps marked as dirty, or nowhere.
unfoldable pub status : MemoryQueue → String → Status
status q n =
    if Names.contains q.processing n
    then (if Names.contains q.dirty n then again else busy)
    else if Names.contains q.items n
    then queued
    else idle

contains-count : (n : String) (xs : List String) → Names.contains xs n ≡ not (nat_eq (count n xs) 0)
unfolding Names.contains count
contains-count n [] = refl
contains-count n (x ∷ xs) = ground (arith, contains-count n xs)

-- In a well-formed queue a name stands where the sets say that it does.
pub status-marked : (q : MemoryQueue) (n : String) → IsValid q → status q n ≡ marked q n
unfolding status marked
status-marked q n v = ground (arith, contains-count n q.items, v.queued n)

abbrev pub after_add : Status → Status
after_add idle = queued
after_add queued = queued
after_add busy = again
after_add again = again

abbrev pub after_get : Status → Status
after_get idle = busy
after_get queued = busy
after_get busy = busy
after_get again = busy

abbrev pub after_done : Status → Status
after_done idle = idle
after_done queued = queued
after_done busy = idle
after_done again = queued

-- On a queue that is not shut down, `Add` takes an idle name to queued and a name being processed
-- to one that is to be processed again, leaves a name alone that is queued or to be processed
-- again, and marks no other name.
pub marked-add :
    (name n : String) (q : MemoryQueue)
    → q.shutting_down ≡ false
    → marked (add name q) n ≡ (if n == name then after_add (marked q n) else marked q n)
unfolding marked add
marked-add name n q h = ground (arith, Names.contains-insert n name q.dirty)

-- `Done` takes a name being processed to idle, and one that was added meanwhile to queued, and
-- marks no other name.
pub marked-done :
    (name n : String) (q : MemoryQueue)
    → marked (done name q) n ≡ (if n == name then after_done (marked q n) else marked q n)
unfolding marked done
marked-done name n q = ground (arith, Names.contains-remove n name q.processing)

marked-take_first :
    (items : List String) (name n : String) (q : MemoryQueue)
    → (take_first items q).1 ≡ name_of name
    → marked (take_first items q).0 n ≡ (if n == name then after_get (marked q n) else marked q n)
unfolding marked take_first
marked-take_first [] name n q h = absurd (ground arith)
marked-take_first (m ∷ rest) name n q h =
    ground (arith, Names.contains-insert n m q.processing, Names.contains-remove n m q.dirty)

-- If `Get` hands out a name, that name is being processed afterwards and not to be processed again,
-- and no other name's mark changes.
pub marked-get :
    (name n : String) (q : MemoryQueue)
    → (get q).1 ≡ name_of name
    → marked (get q).0 n ≡ (if n == name then after_get (marked q n) else marked q n)
unfolding get
marked-get name n q h = ground (arith, marked-take_first q.items name n q)

take_first-sets :
    (items : List String) (name n : String) (q : MemoryQueue)
    → (take_first items q).1 ≡ name_of name
    → (Names.contains (take_first items q).0.dirty n
        ≡ (if n == name then false else Names.contains q.dirty n))
      × (Names.contains (take_first items q).0.processing n
          ≡ (if n == name then true else Names.contains q.processing n))
      × ((take_first items q).0.shutting_down ≡ q.shutting_down)
unfolding take_first
take_first-sets [] name n q h = absurd (ground arith)
take_first-sets (m ∷ rest) name n q h = (
  ground (arith, Names.contains-remove n m q.dirty),
  ground (arith, Names.contains-insert n m q.processing),
  refl,
)

-- What handing out a name does to the two sets.
pub get-sets :
    (name n : String) (q : MemoryQueue)
    → (get q).1 ≡ name_of name
    → (Names.contains (get q).0.dirty n ≡ (if n == name then false else Names.contains q.dirty n))
      × (Names.contains (get q).0.processing n
          ≡ (if n == name then true else Names.contains q.processing n))
      × ((get q).0.shutting_down ≡ q.shutting_down)
unfolding get
get-sets name n q h = ground (arith, take_first-sets q.items name n q)
