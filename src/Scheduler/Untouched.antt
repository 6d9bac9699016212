-- ===== src/Scheduler/Untouched.antt =====
-- The nodes under the transaction of `assign` (internal/scheduler/scheduler.go).
use hambo.Base.{ℕ, String, [], ◌≡◌, arith, ok, Result-cases, Bool-cases, inl, inr}
use hambo.Model.Container.{Container}
use hambo.Model.Database.{Database, Collections}
use hambo.Scheduler.{
  Captured, needs_node, placed, unplaced, select, tally, assign_tx, assign_found, choose, finish,
  give_up, place, write_container,
}

module _ {N C T : Type 0} (c : Collections N C T) where
  write_container-nodes :
      (id : String) (value : Container) (db db' : Database N C T)
      → write_container c id value db ≡ ok db'
      → db'.nodes ≡ db.nodes
  unfolding write_container
  write_container-nodes id value db db' h =
      elim (Result-cases (c.containers.update_tx id value db.containers)) [
        | inr (e, p) ↦ absurd (ground arith)
        | inl (s, p) ↦ ground arith
      ]

  finish-nodes :
      (id : String) (current : Container) (n : String) (v : Captured) (db db' : Database N C T)
      → finish c id current db n ≡ ok (v, db')
      → db'.nodes ≡ db.nodes
  unfolding finish give_up place
  finish-nodes id current n v db db' h =
      elim (Result-cases (write_container c id (unplaced current) db)) [
        | inr (e, p) ↦ elim (Result-cases (write_container c id (placed current n) db)) [
          | inr (x, q) ↦ ground arith
          | inl (b, q) ↦ ground (arith, write_container-nodes id (placed current n) db b q)
        ]
        | inl (a, p) ↦ elim (Result-cases (write_container c id (placed current n) db)) [
          | inr (x, q) ↦ ground (arith, write_container-nodes id (unplaced current) db a p)
          | inl (b, q) ↦ ground (
            arith,
            write_container-nodes id (unplaced current) db a p,
            write_container-nodes id (placed current n) db b q,
          )
        ]
      ]

  pub assign_tx-nodes :
      (now : ℕ) (id : String) (v : Captured) (db db' : Database N C T)
      → assign_tx c now id db ≡ ok (v, db')
      → db'.nodes ≡ db.nodes
  unfolding assign_tx assign_found choose
  assign_tx-nodes now id v db db' h = elim (Result-cases (c.containers.get_tx id db.containers)) [
    | inr (e, p) ↦ ground arith
    | inl (current, p) ↦ elim (Bool-cases (needs_node current)) [
      | inr un ↦ ground arith
      | inl need ↦ elim (Result-cases (c.nodes.list_tx db.nodes)) [
        | inr (e, q) ↦ absurd (ground arith)
        | inl (ns, q) ↦ elim (Result-cases (c.containers.list_tx db.containers)) [
          | inr (e, r) ↦ absurd (ground arith)
          | inl (cs, r) ↦
              finish-nodes id current (select now (tally cs []) ns ("", 0)).0 v db db'
                (ground arith)
        ]
      ]
    ]
  ]
