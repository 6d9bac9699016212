-- ===== src/Tests/Scheduling.antt =====
-- The scheduler on a database with two nodes.
use hambo.Base.{
  differ, if◌then◌else◌, false, List, [], ◌∷◌, ◌≡◌, refl, ok, err, Error, dec_string, some, arith,
  ◌⊎◌, All,
}
use hambo.Base.Names
use hambo.Store.{Entry}
use hambo.Store.Memory.{Memory, find, erase, put, entries}
use hambo.Store.Collection.{get_tx, update_tx, list_tx, decode_all, decode_entry}
use hambo.Model.Container.{Container, pending, running}
use hambo.Model.Node.{Node, is_reachable}
use hambo.Model.Token.{Metadata}
use hambo.Queue.{new_memory_queue, add}
use hambo.Queue.Invariant.{IsValid, add-IsValid, new_memory_queue-IsValid}
use hambo.Watch.{new_node_watcher}
use hambo.Scheduler.{
  Captured, Scheduled, err_no_reachable_nodes, assign, assign_tx, select, tally, consider, count_of,
  bump,
}
use hambo.Scheduler.Choice.{IsNamed}
use hambo.Scheduler.Assign.{Outcome, assign_tx-Outcome}
use hambo.Scheduler.Effect.{assign-effect, told}
use hambo.Scheduler.Progress.{Placed, IsWritable, assign_tx-Placed}
use hambo.Tests.Fixtures.{
  Db, collections, collections-AreLawful, no_faults, node_named, container_on, busy_db,
}

abbrev node_entries : List (Entry Node)
node_entries =
    record { key = "a"; value = node_named "a" } ∷ record { key = "b"; value = node_named "b" } ∷ []

abbrev container_entries : List (Entry Container)
container_entries =
    record { key = "c1"; value = container_on "c1" "a" running }
    ∷ record { key = "c2"; value = container_on "c2" "" pending }
    ∷ []

abbrev placed_db : Db
placed_db = record busy_db {
  containers =
      some (("c2", container_on "c2" "b" pending) ∷ ("c1", container_on "c1" "a" running) ∷ []);
}

node_entries-IsNamed : All IsNamed node_entries
unfolding dec_string
node_entries-IsNamed = (differ "a" "" refl, (differ "b" "" refl, tt))

assign_tx-Outcome_example :
    Outcome collections 110 "c2"
      (container_on "c2" "" pending)
      node_entries
      container_entries
      (record { retry = false; assigned_node_id = "b" })
      busy_db
      placed_db
unfolding assign_tx get_tx update_tx list_tx find put erase entries decode_all decode_entry select
    tally consider count_of bump dec_string is_reachable
assign_tx-Outcome_example =
    assign_tx-Outcome collections collections-AreLawful 110 "c2" (container_on "c2" "" pending)
      node_entries container_entries (record { retry = false; assigned_node_id = "b" }) busy_db
      placed_db refl refl refl refl node_entries-IsNamed refl

scheduled : Scheduled (Memory Node) (Memory Container) (Memory Metadata)
unfolding add dec_string Names.insert Names.contains
scheduled = record {
  system = record { queue = add "c2" new_memory_queue; timers = [] };
  database = busy_db;
  watcher = new_node_watcher;
}

scheduled-IsValid : IsValid scheduled.system.queue
unfolding scheduled add
scheduled-IsValid = add-IsValid "c2" new_memory_queue new_memory_queue-IsValid

assign-effect_example :
    ((e : Error) × (assign collections no_faults 110 "c2" busy_db new_node_watcher
        ≡ (err e, busy_db, new_node_watcher)))
    ⊎ ((v : Captured) × (db' : Db) × (assign_tx collections 110 "c2" busy_db ≡ ok (v, db'))
        × (assign collections no_faults 110 "c2" busy_db new_node_watcher ≡ (
          (if v.retry then err err_no_reachable_nodes else ok tt),
          db',
          told v new_node_watcher,
        )))
assign-effect_example = assign-effect collections no_faults 110 "c2" busy_db new_node_watcher

busy_db-IsWritable : IsWritable collections "c2" busy_db
unfolding update_tx find put erase dec_string
busy_db-IsWritable value = (some (("c2", value) ∷ ("c1", container_on "c1" "a" running) ∷ []), refl)

assign_tx-Placed_example :
    Placed collections 110 "c2"
      (container_on "c2" "" pending)
      node_entries
      container_entries
      busy_db
unfolding get_tx find list_tx entries erase decode_all decode_entry dec_string is_reachable
assign_tx-Placed_example =
    assign_tx-Placed collections collections-AreLawful 110 "c2" (container_on "c2" "" pending)
      node_entries container_entries busy_db refl refl refl refl node_entries-IsNamed
      busy_db-IsWritable (λ none_of. absurd (ground (arith, none_of.0)))
