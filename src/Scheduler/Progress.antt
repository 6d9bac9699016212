-- ===== src/Scheduler/Progress.antt =====
-- `assign` of internal/scheduler/scheduler.go where a node can take the container.
use hambo.Base.{
  ℕ, String, true, false, List, [], ◌≡◌, refl, ◌∙◌, arith, ok, All, Bool-cases, inl, inr, ◌==◌,
  ◌&&◌,
}
use hambo.Store.{Entry}
use hambo.Model.Container.{Container}
use hambo.Model.Node.{Node}
use hambo.Model.Database.{Database, Collections, AreLawful}
use hambo.Scheduler.{
  Captured, needs_node, placed, unplaced, select, tally, assign_tx, assign_found, choose, finish,
  give_up, place, write_container, no_nodes_reason, no_nodes_message,
}
use hambo.Scheduler.Choice.{Chosen, IsNamed, Ineligible}
use hambo.Scheduler.Assign.{places, waits, Writes, assign_tx-Outcome}

module _ {N C T : Type 0} (c : Collections N C T) where
  -- Whatever is stored for a container, the write works.
  abbrev pub IsWritable : String → Database N C T → Type 0
  IsWritable id db =
      (value : Container) → (s : C) × (c.containers.update_tx id value db.containers ≡ ok s)

  -- The container was placed on the node that the loop chooses.
  pub data Placed (now : ℕ) (id : String) (current : Container) (ns : List (Entry Node))
      (cs : List (Entry Container)) (db : Database N C T) : Type 0 where
    placed_on :
        (n : String) (least : ℕ) (db' : Database N C T)
        → Chosen now cs ns (n, least)
        → assign_tx c now id db ≡ ok (record { retry = false; assigned_node_id = n }, db')
        → Writes c id (placed current n) db db'
        → Placed now id current ns cs db

  write_container_ok :
      (id : String) (value : Container) (db : Database N C T)
      → IsWritable id db
      → (db' : Database N C T) × (write_container c id value db ≡ ok db')
  unfolding write_container
  write_container_ok id value db writable =
      let (s, p) = writable value in (record db { containers = s }, rw p refl)

  finish_ok :
      (id : String) (current : Container) (db : Database N C T) (n : String)
      → IsWritable id db
      → (v : Captured) × (db' : Database N C T) × (finish c id current db n ≡ ok (v, db'))
  unfolding finish give_up place
  finish_ok id current db n writable =
      let (db1, p) = write_container_ok id (unplaced current) db writable in
      let (db2, q) = write_container_ok id (placed current n) db writable in
      elim (Bool-cases (n == "")) [
        | inl e ↦
            elim (Bool-cases
              (current.reason == no_nodes_reason && current.message == no_nodes_message)) [
                | inl same ↦ (record { retry = true; assigned_node_id = "" }, db, ground arith)
                | inr other ↦ (record { retry = true; assigned_node_id = "" }, db1, ground arith)
              ]
        | inr e ↦ (record { retry = false; assigned_node_id = n }, db2, ground arith)
      ]

  -- If a stored container needs a node, the nodes and the containers can be listed, every listed
  -- node has a non-empty ID, some listed node is reachable and ready, and the container can be
  -- written, then the transaction of `assign` succeeds and places the container on the first of the
  -- reachable and ready nodes that carry the fewest containers that have not exited.
  pub assign_tx-Placed :
      AreLawful c
      → (now : ℕ) (id : String) (current : Container) (ns : List (Entry Node))
        (cs : List (Entry Container)) (db : Database N C T)
      → c.containers.get_tx id db.containers ≡ ok current
      → needs_node current ≡ true
      → c.nodes.list_tx db.nodes ≡ ok ns
      → c.containers.list_tx db.containers ≡ ok cs
      → All IsNamed ns
      → IsWritable id db
      → ¬ (All (Ineligible now) ns)
      → Placed now id current ns cs db
  unfolding assign_tx assign_found choose
  assign_tx-Placed lawful now id current ns cs db found need nodes_are containers_are named writable
        some_node =
      let (v, db', p) = finish_ok id current db (select now (tally cs []) ns ("", 0)).0 writable in
      let ran : assign_tx c now id db ≡ ok (v, db') = ground arith in
      elim (assign_tx-Outcome c lawful now id current ns cs v db db' found need nodes_are
        containers_are named ran) [
          | waits none_of is w ↦ absurd (some_node none_of)
          | places n least chosen not_empty is w ↦
              placed_on n least db' chosen (ran ∙ ground (arith, is)) w
        ]
