-- ===== src/Scheduler/Assign.antt =====
-- What the transaction of `assign` (internal/scheduler/scheduler.go) does to the database.
use hambo.Base.{
  ℕ, String, true, false, List, ◌≡◌, ◌≢◌, refl, subst, arith, if◌then◌else◌, ◌==◌, ok, All,
  Result-cases, Bool-cases, inl, inr, ◌&&◌,
}
use hambo.Store.{Entry}
use hambo.Model.Container.{Container}
use hambo.Model.Node.{Node}
use hambo.Model.Database.{Database, Collections, AreLawful}
use hambo.Scheduler.{
  Captured, needs_node, unplaced, placed, assign_tx, finish, give_up, place, write_container,
  no_nodes_reason, no_nodes_message,
}
use hambo.Scheduler.Load.{load}
use hambo.Scheduler.Choice.{Chosen, IsNamed, Ineligible, nobody, best, select-Chosen}

module _ {N C T : Type 0} (c : Collections N C T) where
  -- Only the container `id` differs, and it is `value`.
  pub record Writes (id : String) (value : Container) (db db' : Database N C T) : Type 0 where
    pub written :
        (j : String)
        → c.containers.get_tx j db'.containers
          ≡ (if j == id then ok value else c.containers.get_tx j db.containers)
    pub same_nodes : db'.nodes ≡ db.nodes
    pub same_tokens : db'.tokens ≡ db.tokens

  -- What a transaction that succeeds on a container in need of a node has done.
  pub data Outcome (now : ℕ) (id : String) (current : Container) (ns : List (Entry Node))
      (cs : List (Entry Container)) (v : Captured) (db db' : Database N C T) : Type 0 where
    places :
        (n : String) (least : ℕ)
        → Chosen now cs ns (n, least)
        → n ≢ ""
        → v ≡ record { retry = false; assigned_node_id = n }
        → Writes id (placed current n) db db'
        → Outcome now id current ns cs v db db'
    waits :
        All (Ineligible now) ns
        → v ≡ record { retry = true; assigned_node_id = "" }
        → Writes id (unplaced current) db db'
        → Outcome now id current ns cs v db db'

  module _ (lawful : AreLawful c) where
    write_container-Writes :
        (id : String) (value : Container) (db db' : Database N C T)
        → write_container c id value db ≡ ok db'
        → Writes id value db db'
    unfolding write_container
    write_container-Writes id value db db' h =
        elim (Result-cases (c.containers.update_tx id value db.containers)) [
          | inr (e, p) ↦ absurd (ground arith)
          | inl (s, p) ↦ record {
            written =
                λ j. ground (arith, lawful.containers.update-get id j value db.containers s p);
            same_nodes = ground arith;
            same_tokens = ground arith;
          }
        ]

    unplaced-Writes :
        (id : String) (current : Container) (db : Database N C T)
        → c.containers.get_tx id db.containers ≡ ok current
        → current.reason ≡ no_nodes_reason
        → current.message ≡ no_nodes_message
        → Writes id (unplaced current) db db
    unplaced-Writes id current db found r m = record {
      written = λ j. ground arith;
      same_nodes = refl;
      same_tokens = refl;
    }

    give_up-Writes :
        (id : String) (current : Container) (db db' : Database N C T) (v : Captured)
        → c.containers.get_tx id db.containers ≡ ok current
        → give_up c id current db ≡ ok (v, db')
        → (v ≡ record { retry = true; assigned_node_id = "" }) × Writes id (unplaced current) db db'
    unfolding give_up
    give_up-Writes id current db db' v found h =
        elim (Bool-cases
          (current.reason == no_nodes_reason && current.message == no_nodes_message)) [
            | inl e ↦ (
              ground arith,
              subst (Writes id (unplaced current) db) (ground arith)
                  (unplaced-Writes id current db found (ground arith) (ground arith)),
            )
            | inr e ↦ elim (Result-cases (write_container c id (unplaced current) db)) [
              | inl (db'', p) ↦
                  (ground arith, write_container-Writes id (unplaced current) db db' (ground arith))
              | inr (x, p) ↦ absurd (ground arith)
            ]
          ]

    place-Writes :
        (id : String) (current : Container) (db db' : Database N C T) (v : Captured) (n : String)
        → place c id current db n ≡ ok (v, db')
        → (v ≡ record { retry = false; assigned_node_id = n }) × Writes id (placed current n) db db'
    unfolding place
    place-Writes id current db db' v n h =
        elim (Result-cases (write_container c id (placed current n) db)) [
          | inl (db'', p) ↦
              (ground arith, write_container-Writes id (placed current n) db db' (ground arith))
          | inr (x, p) ↦ absurd (ground arith)
        ]

    finish-Outcome :
        (now : ℕ) (id : String) (current : Container) (ns : List (Entry Node))
        (cs : List (Entry Container)) (v : Captured) (db db' : Database N C T) (s : String × ℕ)
        → c.containers.get_tx id db.containers ≡ ok current
        → Chosen now cs ns s
        → finish c id current db s.0 ≡ ok (v, db')
        → Outcome now id current ns cs v db db'
    unfolding finish
    finish-Outcome now id current ns cs v db db' s found (nobody none_of start) h =
        let g = give_up-Writes id current db db' v found (ground arith) in waits none_of g.0 g.1
    finish-Outcome now id current ns cs v db db' s found
          (best before after e split named ok_e is hb ha) h =
        let g = place-Writes id current db db' v e.value.id (ground arith) in
        places e.value.id (load e.value.id cs) (best before after e split named ok_e refl hb ha)
          named g.0 g.1

    -- If the transaction of `assign` succeeds on a stored container that needs a node, and every
    -- listed node has a non-empty ID, then either it assigns the container to the first listed node
    -- among those that are reachable and ready and carry the fewest containers that have not
    -- exited, or no listed node is reachable and ready, the container holds the reason and the
    -- message of the scheduler, and a retry is asked for. No other container, no node and no token
    -- changes.
    pub assign_tx-Outcome :
        (now : ℕ) (id : String) (current : Container) (ns : List (Entry Node))
        (cs : List (Entry Container)) (v : Captured) (db db' : Database N C T)
        → c.containers.get_tx id db.containers ≡ ok current
        → needs_node current ≡ true
        → c.nodes.list_tx db.nodes ≡ ok ns
        → c.containers.list_tx db.containers ≡ ok cs
        → All IsNamed ns
        → assign_tx c now id db ≡ ok (v, db')
        → Outcome now id current ns cs v db db'
    unfolding assign_tx
    assign_tx-Outcome now id current ns cs v db db' found need nodes_are containers_are named h =
        finish-Outcome now id current ns cs v db db' _ found (select-Chosen now cs ns named)
          (ground arith)
