-- ===== src/Scheduler/Names.antt =====
-- The names of containers under the transaction of `assign` (internal/scheduler/scheduler.go).
use hambo.Base.{ℕ, String, [], ◌≡◌, refl, arith, ok, Result-cases, Bool-cases, inl, inr, ◌==◌, ◌&&◌}
use hambo.Model.Container.{Container}
use hambo.Model.Database.{Database, Collections, AreLawful}
use hambo.Model.Names.{KeepsNames, KeepsNames-refl, update-KeepsNames}
use hambo.Scheduler.{
  Captured, needs_node, placed, unplaced, select, tally, assign_tx, assign_found, choose, finish,
  give_up, place, write_container, no_nodes_reason, no_nodes_message,
}

module _ {N C T : Type 0} (c : Collections N C T) (lawful : AreLawful c) where
  write_container-KeepsNames :
      (id : String) (current value : Container) (db db' : Database N C T)
      → c.containers.get_tx id db.containers ≡ ok current
      → value.name ≡ current.name
      → write_container c id value db ≡ ok db'
      → KeepsNames c db.containers db'.containers
  unfolding write_container
  write_container-KeepsNames id current value db db' found same h =
      elim (Result-cases (c.containers.update_tx id value db.containers)) [
        | inr (e, p) ↦ absurd (ground arith)
        | inl (s, p) ↦
            update-KeepsNames c lawful id current value db.containers db'.containers found same
              (ground arith)
      ]

  give_up-KeepsNames :
      (id : String) (current : Container) (v : Captured) (db db' : Database N C T)
      → c.containers.get_tx id db.containers ≡ ok current
      → give_up c id current db ≡ ok (v, db')
      → KeepsNames c db.containers db'.containers
  unfolding give_up
  give_up-KeepsNames id current v db db' found h =
      elim (Bool-cases (current.reason == no_nodes_reason && current.message == no_nodes_message)) [
        | inl same ↦ KeepsNames-refl c db.containers db'.containers (ground arith)
        | inr other ↦ elim (Result-cases (write_container c id (unplaced current) db)) [
          | inr (e, p) ↦ absurd (ground arith)
          | inl (a, p) ↦
              write_container-KeepsNames id current (unplaced current) db db' found refl
                (ground arith)
        ]
      ]

  place-KeepsNames :
      (id : String) (current : Container) (n : String) (v : Captured) (db db' : Database N C T)
      → c.containers.get_tx id db.containers ≡ ok current
      → place c id current db n ≡ ok (v, db')
      → KeepsNames c db.containers db'.containers
  unfolding place
  place-KeepsNames id current n v db db' found h =
      elim (Result-cases (write_container c id (placed current n) db)) [
        | inr (e, p) ↦ absurd (ground arith)
        | inl (a, p) ↦
            write_container-KeepsNames id current (placed current n) db db' found refl
              (ground arith)
      ]

  finish-KeepsNames :
      (id : String) (current : Container) (n : String) (v : Captured) (db db' : Database N C T)
      → c.containers.get_tx id db.containers ≡ ok current
      → finish c id current db n ≡ ok (v, db')
      → KeepsNames c db.containers db'.containers
  unfolding finish
  finish-KeepsNames id current n v db db' found h = elim (Bool-cases (n == "")) [
    | inl e ↦ give_up-KeepsNames id current v db db' found (ground arith)
    | inr e ↦ place-KeepsNames id current n v db db' found (ground arith)
  ]

  pub assign_tx-KeepsNames :
      (now : ℕ) (id : String) (v : Captured) (db db' : Database N C T)
      → assign_tx c now id db ≡ ok (v, db')
      → KeepsNames c db.containers db'.containers
  unfolding assign_tx assign_found choose
  assign_tx-KeepsNames now id v db db' h =
      elim (Result-cases (c.containers.get_tx id db.containers)) [
        | inr (e, p) ↦ KeepsNames-refl c db.containers db'.containers (ground arith)
        | inl (current, p) ↦ elim (Bool-cases (needs_node current)) [
          | inr un ↦ KeepsNames-refl c db.containers db'.containers (ground arith)
          | inl need ↦ elim (Result-cases (c.nodes.list_tx db.nodes)) [
            | inr (e, q) ↦ absurd (ground arith)
            | inl (ns, q) ↦ elim (Result-cases (c.containers.list_tx db.containers)) [
              | inr (e, r) ↦ absurd (ground arith)
              | inl (cs, r) ↦
                  finish-KeepsNames id current (select now (tally cs []) ns ("", 0)).0 v db db' p
                    (ground arith)
            ]
          ]
        ]
      ]
