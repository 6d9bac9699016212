-- ===== src/Queue/Invariant.antt =====
-- The well-formedness of the queue (internal/queue/queue.go), method by method.
use hambo.Base.{
  ◌+◌, String, Bool, true, false, not, ◌&&◌, List, [], ◌∷◌, ◌++◌, ◌≡◌, ap, refl, arith, count,
  count-append, if◌then◌else◌, ◌==◌,
}
use hambo.Base.Names
use hambo.Queue.{MemoryQueue, name_of, new_memory_queue, add, get, take_first, done, shut_down}

-- Whether a name ought to stand in `items`: it is dirty and nobody processes it.
abbrev pub is_due : MemoryQueue → String → Bool
is_due q n = Names.contains q.dirty n && not (Names.contains q.processing n)

-- Each due name stands in `items` once, and no other name does. The channel is closed by the
-- shutdown alone.
pub record IsValid (q : MemoryQueue) : Type 0 where
  pub queued : (n : String) → count n q.items ≡ (if is_due q n then 1 else 0)
  pub closed : q.shutdown_closed ≡ q.shutting_down

count-snoc :
    (n m : String) (xs : List String)
    → count n (xs ++ m ∷ []) ≡ (if m == n then count n xs + 1 else count n xs)
unfolding count
count-snoc n m xs = ground (arith, count-append n xs (m ∷ []))

pub new_memory_queue-IsValid : IsValid new_memory_queue
unfolding new_memory_queue count Names.contains
new_memory_queue-IsValid = record { queued = λ n. ground arith; closed = ground arith }

pub add-IsValid : (name : String) (q : MemoryQueue) → IsValid q → IsValid (add name q)
unfolding add
add-IsValid name q v = record {
  queued = λ n. ground (
    arith,
    v.queued n,
    v.queued name,
    count-snoc n name q.items,
    Names.contains-insert n name q.dirty,
  );
  closed = ground (arith, v.closed);
}

take_first-queued :
    (items : List String) (q : MemoryQueue)
    → q.items ≡ items
    → IsValid q
    → (n : String)
    → count n (take_first items q).0.items ≡ (if is_due (take_first items q).0 n then 1 else 0)
unfolding take_first count
take_first-queued [] q e v n = ground (arith, v.queued n)
take_first-queued (m ∷ rest) q e v n = ground (
  arith,
  v.queued n,
  ap (count n) e,
  Names.contains-remove n m q.dirty,
  Names.contains-insert n m q.processing,
)

take_first-closed :
    (items : List String) (q : MemoryQueue)
    → ((take_first items q).0.shutdown_closed ≡ q.shutdown_closed)
      × ((take_first items q).0.shutting_down ≡ q.shutting_down)
unfolding take_first
take_first-closed [] q = (refl, refl)
take_first-closed (m ∷ rest) q = (refl, refl)

pub get-IsValid : (q : MemoryQueue) → IsValid q → IsValid (get q).0
unfolding get
get-IsValid q v = record {
  queued = λ n. ground (arith, v.queued n, take_first-queued q.items q refl v n);
  closed = ground (arith, v.closed, take_first-closed q.items q);
}

pub done-IsValid :
    (name : String) (q : MemoryQueue)
    → Names.contains q.processing name ≡ true
    → IsValid q
    → IsValid (done name q)
unfolding done
done-IsValid name q busy v = record {
  queued = λ n. ground (
    arith,
    v.queued n,
    v.queued name,
    count-snoc n name q.items,
    Names.contains-remove n name q.processing,
  );
  closed = ground (arith, v.closed);
}

pub shut_down-IsValid : (q : MemoryQueue) → IsValid q → IsValid (shut_down q)
unfolding shut_down
shut_down-IsValid q v = record {
  queued = λ n. ground (arith, v.queued n);
  closed = ground (arith, v.closed);
}

-- In a valid queue `Get` never hands out a name that is already being processed.
take_first-fresh :
    (items : List String) (q : MemoryQueue) (n : String)
    → q.items ≡ items
    → IsValid q
    → (take_first items q).1 ≡ name_of n
    → (Names.contains q.processing n ≡ false) × (Names.contains q.dirty n ≡ true)
unfolding take_first count
take_first-fresh [] q n e v h = absurd (ground arith)
take_first-fresh (m ∷ rest) q n e v h = ground (arith, v.queued m, ap (count m) e)

-- On a well-formed queue, the name that `Get` hands out is dirty and is not being processed
-- already, so no name is processed twice at a time.
pub get-fresh :
    (q : MemoryQueue) (n : String)
    → IsValid q
    → (get q).1 ≡ name_of n
    → (Names.contains q.processing n ≡ false) × (Names.contains q.dirty n ≡ true)
unfolding get
get-fresh q n v h = ground (arith, take_first-fresh q.items q n refl v)
