-- ===== src/Scheduler/Effect.antt =====
-- What a whole call of `assign` (internal/scheduler/scheduler.go) does, errors included.
use hambo.Base.{
  ℕ, String, true, false, List, ◌≡◌, ◌≢◌, sym, ap, ◌∙◌, arith, if◌then◌else◌, ◌==◌, ok, err, Error,
  All, Result-cases, Bool-cases, inl, inr, ◌⊎◌, dec_string, if_pos, if_neg,
}
use hambo.Store.{Entry}
use hambo.Store.Tx.{Faults, write_tx-atomic}
use hambo.Model.Container.{Container}
use hambo.Model.Node.{Node}
use hambo.Model.Database.{Database, Collections, AreLawful}
use hambo.Watch.{NodeWatcher, notify}
use hambo.Watch.Wakeups.{notify_ok}
use hambo.Scheduler.{
  Captured, needs_node, assign_tx, assign, after_tx, announce, assign_found, choose,
  err_no_reachable_nodes,
}
use hambo.Scheduler.Choice.{IsNamed}
use hambo.Scheduler.Assign.{Outcome, places, waits, assign_tx-Outcome}

abbrev pub told : Captured → NodeWatcher → NodeWatcher
told v w = if v.assigned_node_id == "" then w else (notify v.assigned_node_id w).1

module _ {N C T : Type 0} (c : Collections N C T) where
  after_tx_ok :
      (v : Captured) (db : Database N C T) (w : NodeWatcher)
      → after_tx c (ok v, db) w
        ≡ ((if v.retry then err err_no_reachable_nodes else ok tt), db, told v w)
  unfolding after_tx announce
  after_tx_ok v db w = elim (dec_string v.assigned_node_id "") [
    | yes p ↦ rw (if_pos (dec_string v.assigned_node_id "") p)
    | no p ↦ rw (if_neg (dec_string v.assigned_node_id "") p, notify_ok v.assigned_node_id w p)
  ]

  -- Either `assign` ends with an error, with the database as it was and no watcher notified, or the
  -- database is what its transaction made, the watcher of the chosen node, if one was chosen, is
  -- notified, and the error asks for a retry exactly if the transaction does.
  pub assign-effect :
      (f : Faults) (now : ℕ) (id : String) (db : Database N C T) (w : NodeWatcher)
      → ((e : Error) × (assign c f now id db w ≡ (err e, db, w)))
        ⊎ ((v : Captured) × (db' : Database N C T) × (assign_tx c now id db ≡ ok (v, db'))
            × (assign c f now id db w
                ≡ ((if v.retry then err err_no_reachable_nodes else ok tt), db', told v w)))
  unfolding assign
  assign-effect f now id db w = elim (write_tx-atomic f (assign_tx c now id) db) [
    | inl (e, p) ↦ inl (e, rw (p, after_tx))
    | inr (v, db', p, q) ↦ inr (v, db', p, rw q (after_tx_ok v db' w))
  ]

  -- A transaction on a container that does not need a node changes nothing.
  assign_tx-idle :
      (now : ℕ) (id : String) (db db' : Database N C T) (v : Captured)
      → ((current : Container)
          → c.containers.get_tx id db.containers ≡ ok current
          → needs_node current ≡ false)
      → assign_tx c now id db ≡ ok (v, db')
      → db' ≡ db
  unfolding assign_tx assign_found
  assign_tx-idle now id db db' v idle h =
      elim (Result-cases (c.containers.get_tx id db.containers)) [
        | inl (current, p) ↦ ground (arith, idle current p)
        | inr (e, p) ↦ ground arith
      ]

  -- The listings, without which no node is chosen.
  assign_tx-lists :
      (now : ℕ) (id : String) (current : Container) (db db' : Database N C T) (v : Captured)
      → c.containers.get_tx id db.containers ≡ ok current
      → needs_node current ≡ true
      → assign_tx c now id db ≡ ok (v, db')
      → (ns : List (Entry Node)) × (cs : List (Entry Container)) × (c.nodes.list_tx db.nodes
          ≡ ok ns)
        × (c.containers.list_tx db.containers ≡ ok cs)
  unfolding assign_tx choose
  assign_tx-lists now id current db db' v found need h =
      elim (Result-cases (c.nodes.list_tx db.nodes)) [
        | inr (e, p) ↦ absurd (ground arith)
        | inl (ns, p) ↦ elim (Result-cases (c.containers.list_tx db.containers)) [
          | inr (e, q) ↦ absurd (ground arith)
          | inl (cs, q) ↦ (ns, cs, p, q)
        ]
      ]

  -- The nodes that the database holds have IDs.
  abbrev pub HasNames : Database N C T → Type 0
  HasNames db = (ns : List (Entry Node)) → c.nodes.list_tx db.nodes ≡ ok ns → All IsNamed ns

  -- No container but `id` is touched, and `id` needs no node if there is nothing to retry.
  pub record Settles (id : String) (v : Captured) (db db' : Database N C T) : Type 0 where
    pub others :
        (j : String)
        → j ≢ id
        → c.containers.get_tx j db'.containers ≡ c.containers.get_tx j db.containers
    pub settled :
        (current : Container)
        → v.retry ≡ false
        → c.containers.get_tx id db'.containers ≡ ok current
        → needs_node current ≡ false

  module _ (lawful : AreLawful c) where
    Outcome-Settles :
        (now : ℕ) (id : String) (current : Container) (ns : List (Entry Node))
        (cs : List (Entry Container)) (v : Captured) (db db' : Database N C T)
        → Outcome c now id current ns cs v db db'
        → Settles id v db db'
    Outcome-Settles now id current ns cs v db db' (places n least chosen some_node is w) = record {
      others = λ j ne. ground (arith, w.written j);
      settled = λ cur r g. ground (arith, w.written id);
    }
    Outcome-Settles now id current ns cs v db db' (waits none_of is w) = record {
      others = λ j ne. ground (arith, w.written j);
      settled = λ cur r g. absurd (ground arith);
    }

    pub assign_tx-Settles :
        (now : ℕ) (id : String) (db db' : Database N C T) (v : Captured)
        → HasNames db
        → assign_tx c now id db ≡ ok (v, db')
        → Settles id v db db'
    assign_tx-Settles now id db db' v named h =
        elim (Result-cases (c.containers.get_tx id db.containers)) [
          | inr (e, p) ↦
              unmoved (assign_tx-idle now id db db' v (λ cur g. absurd (ground arith)) h)
                (λ cur g. absurd (ground arith))
          | inl (current, p) ↦ elim (Bool-cases (needs_node current)) [
            | inr un ↦
                unmoved (assign_tx-idle now id db db' v (λ cur g. ground arith) h)
                  (λ cur g. ground arith)
            | inl need ↦
                let l = assign_tx-lists now id current db db' v p need h in
                Outcome-Settles now id current l.0 l.1 v db db' (
                  assign_tx-Outcome c lawful now id current l.0 l.1 v db db' p need l.2 l.3
                    (named l.0 l.2) h)
          ]
        ]
      where
        unmoved :
            db' ≡ db
            → ((cur : Container)
                → c.containers.get_tx id db.containers ≡ ok cur
                → needs_node cur ≡ false)
            → Settles id v db db'
        unmoved e idle = record {
          others = λ j ne. ap (λ (d : Database N C T). c.containers.get_tx j d.containers) e;
          settled = λ cur r g.
              idle cur
                (ap (λ (d : Database N C T). c.containers.get_tx id d.containers) (sym e) ∙ g);
        }
