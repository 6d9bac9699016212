-- ===== src/Scheduler/Loop/Hydrate.antt =====
-- The queue at the start of `Run` (internal/scheduler/scheduler.go).
use hambo.Base.{
  String, Bool, true, false, ◌&&◌, ◌||◌, List, [], ◌∷◌, ◌≡◌, refl, arith, if◌then◌else◌, ◌==◌,
}
use hambo.Base.Names
use hambo.Store.{Entry}
use hambo.Model.Container.{Container}
use hambo.Queue.{MemoryQueue, add}
use hambo.Queue.Invariant.{IsValid, add-IsValid}
use hambo.Scheduler.{needs_node}
use hambo.Scheduler.Loop.{hydrate}

-- Whether a listing has a container of this ID that needs a node.
unfoldable pub is_listed : String → List (Entry Container) → Bool
is_listed k [] = false
is_listed k (e ∷ es) = let later = is_listed k es in (e.key == k && needs_node e.value) || later

add-dirty :
    (n m : String) (q : MemoryQueue)
    → q.shutting_down ≡ false
    → Names.contains (add m q).dirty n ≡ (if n == m then true else Names.contains q.dirty n)
unfolding add
add-dirty n m q h = ground (arith, Names.contains-insert n m q.dirty)

add-shutting_down : (m : String) (q : MemoryQueue) → (add m q).shutting_down ≡ q.shutting_down
unfolding add
add-shutting_down m q = ground arith

-- On a queue that is not shut down, the names that are dirty after the start of `Run` are those
-- that were before and the IDs of the listed containers that need a node.
pub hydrate-dirty :
    (k : String) (es : List (Entry Container)) (q : MemoryQueue)
    → q.shutting_down ≡ false
    → Names.contains (hydrate es q).dirty k ≡ (is_listed k es || Names.contains q.dirty k)
unfolding hydrate is_listed
hydrate-dirty k [] q h = refl
hydrate-dirty k (e ∷ es) q h = ground (
  arith,
  hydrate-dirty k es (add e.key q),
  hydrate-dirty k es q h,
  add-dirty k e.key q h,
  add-shutting_down e.key q,
)

pub hydrate-IsValid :
    (es : List (Entry Container)) (q : MemoryQueue) → IsValid q → IsValid (hydrate es q)
unfolding hydrate
hydrate-IsValid [] q v = v
hydrate-IsValid (e ∷ es) q v = hydrate-IsValid es _ (ground (arith, add-IsValid e.key q v))
