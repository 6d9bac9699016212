-- ===== src/Queue/Machine.antt =====
-- Every call on the queue of internal/queue/queue.go, as a step of one small machine per name.
use hambo.Base.{
  String, Bool, List, [], ◌∷◌, ◌≡◌, refl, arith, if◌then◌else◌, ◌==◌, Bool-cases, inl, inr, ◌⊎◌,
  true, ap, sym, ◌∙◌,
}
use hambo.Queue.{MemoryQueue, Taken, waits, shutdown, name_of, add, get, take_first, shut_down}
use hambo.Base.Names
use hambo.Queue.Invariant.{IsValid, add-IsValid, get-IsValid, done-IsValid, shut_down-IsValid}
use hambo.Queue.Status.{
  Status, status, marked, after_add, after_get, after_done, marked-add, marked-done, marked-get,
  status-marked,
}
use hambo.Queue.Fifo.{Call, adds, gets, dones, shuts_down, apply}

-- What handing out does to a name.
abbrev pub next_taken : Taken → String → Status → Status
next_taken (name_of m) n s = if n == m then after_get s else s
next_taken _ n s = s

-- What a call does to a name, by the name that `Get` hands out and by whether the queue is open.
abbrev pub next : Call → Taken → Bool → String → Status → Status
next (adds m) t closed n s = if closed then s else if n == m then after_add s else s
next gets t closed n s = next_taken t n s
next (dones m) t closed n s = if n == m then after_done s else s
next shuts_down t closed n s = s

-- A call of `Get` that hands out nothing changes nothing.
take_first_cases :
    (items : List String) (q : MemoryQueue)
    → (take_first items q ≡ (q, waits)) ⊎ ((m : String) × ((take_first items q).1 ≡ name_of m))
unfolding take_first
take_first_cases [] q = inl refl
take_first_cases (m ∷ rest) q = inr (m, refl)

get_cases : (q : MemoryQueue) → ((get q).0 ≡ q) ⊎ ((m : String) × ((get q).1 ≡ name_of m))
unfolding get
get_cases q = ground (arith, take_first_cases q.items q)

taken-marked :
    (t : Taken) (q : MemoryQueue) (n : String)
    → (get q).1 ≡ t
    → marked (get q).0 n ≡ next_taken t n (marked q n)
taken-marked (name_of m) q n h = marked-get m n q h
taken-marked waits q n h = ground (arith, get_cases q)
taken-marked shutdown q n h = ground (arith, get_cases q)

apply-marked :
    (c : Call) (q : MemoryQueue) (n : String)
    → marked (apply c q) n ≡ next c (get q).1 q.shutting_down n (marked q n)
unfolding apply add shut_down marked
apply-marked (adds m) q n = elim (Bool-cases q.shutting_down) [
  | inl closed ↦ ground arith
  | inr open_queue ↦ ground (arith, marked-add m n q open_queue)
]
apply-marked gets q n = taken-marked (get q).1 q n refl
apply-marked (dones m) q n = marked-done m n q
apply-marked shuts_down q n = ground arith

-- A call of `Done` is for a name that is being processed.
abbrev pub is_proper : Call → MemoryQueue → Bool
is_proper (dones m) q = Names.contains q.processing m
is_proper _ q = true

apply-IsValid :
    (c : Call) (q : MemoryQueue) → is_proper c q ≡ true → IsValid q → IsValid (apply c q)
unfolding apply
apply-IsValid (adds m) q p v = add-IsValid m q v
apply-IsValid gets q p v = get-IsValid q v
apply-IsValid (dones m) q p v = done-IsValid m q p v
apply-IsValid shuts_down q p v = shut_down-IsValid q v

-- On a well-formed queue, every call, where `Done` is called for a name being processed, is a step
-- of one machine for each name, with the statuses idle, queued, busy and to be processed again,
-- where queued says that the name stands in the items and is not being processed: `Add`, on a queue
-- that is not shut down, queues an idle name and marks a busy one to be processed again; `Get`
-- makes the name that it hands out busy; `Done` makes a busy name idle and queues one that was
-- marked; all else, and a shutdown, leaves the status of a name.
pub apply-status :
    (c : Call) (q : MemoryQueue) (n : String)
    → IsValid q
    → is_proper c q ≡ true
    → status (apply c q) n ≡ next c (get q).1 q.shutting_down n (status q n)
apply-status c q n v p =
    status-marked (apply c q) n (apply-IsValid c q p v)
    ∙ apply-marked c q n
    ∙ ap (next c (get q).1 q.shutting_down n) (sym (status-marked q n v))
