-- ===== src/Scheduler.antt =====
-- internal/scheduler/scheduler.go: which node runs a container.
pub mod Load
pub mod Choice
pub mod Assign
pub mod Effect
pub mod Progress
pub mod Untouched
pub mod Names
pub mod Loop
use hambo.Base.{
  ℕ, suc, ◌+◌, String, Bool, true, false, not, ◌&&◌, ◌||◌, List, [], ◌∷◌, Option, none, some,
  Result, ok, err, Error, not_found, failure, already_exists, errdef, if◌then◌else◌, ◌==◌, ltb,
  ◌>>=◌, ◌>>◌,
}
use hambo.Store.{Entry, Table}
use hambo.Store.Tx.{Faults, write_tx}
use hambo.Model.Container.{Container, State, pending, running, exited, is_pending, is_exited}
use hambo.Model.Node.{Node, is_reachable}
use hambo.Model.Database.{Database, Collections}
use hambo.Queue.Timers.{System}
use hambo.Watch.{NodeWatcher, notify}

-- `counts`, a `map[string]int` from node IDs; a missing key counts 0.
abbrev pub Counts : Type 0
Counts = List (String × ℕ)

unfoldable pub count_of : String → Counts → ℕ
count_of n [] = 0
count_of n ((m, k) ∷ rest) = let found = count_of n rest in if m == n then k else found

-- `counts[n]++`
unfoldable pub bump : String → Counts → Counts
bump n [] = (n, 1) ∷ []
bump n ((m, k) ∷ rest) =
    let others = bump n rest in if m == n then (m, k + 1) ∷ rest else (m, k) ∷ others

abbrev pub holds_node : Container → Bool
holds_node c = not (c.node_id == "") && not (is_exited c.state)

unfoldable pub tally : List (Entry Container) → Counts → Counts
tally [] counts = counts
tally (e ∷ es) counts =
    tally es (if holds_node e.value then bump e.value.node_id counts else counts)

abbrev pub is_eligible : ℕ → Node → Bool
is_eligible now n = is_reachable n now && n.runtime_ready

-- One round of the loop over the nodes, over `selectedNodeID` and `selectedCount`.
unfoldable pub consider : ℕ → Counts → Node → String × ℕ → String × ℕ
consider now counts n (selected, least) =
    if is_eligible now n
    then (if selected == "" || ltb (count_of n.id counts) least
        then (n.id, count_of n.id counts)
        else (selected, least))
    else (selected, least)

unfoldable pub select : ℕ → Counts → List (Entry Node) → String × ℕ → String × ℕ
select now counts [] s = s
select now counts (e ∷ es) s = select now counts es (consider now counts e.value s)

-- The variables that the transaction of `assign` sets for the code after it.
pub record Captured : Type 0 where
  pub retry : Bool
  pub assigned_node_id : String

abbrev pub nothing : Captured
nothing = record { retry = false; assigned_node_id = "" }

abbrev pub no_nodes_reason : String
no_nodes_reason = "NoReachableNodes"

abbrev pub no_nodes_message : String
no_nodes_message = "No reachable node is available. Scheduler will retry."

abbrev is_none : {A : Type 0} → Option A → Bool
is_none none = true
is_none (some a) = false

abbrev pub needs_node : Container → Bool
needs_node c = c.node_id == "" && is_none c.deletion_requested_at && is_pending c.state

abbrev pub unplaced : Container → Container
unplaced c = record c { reason = no_nodes_reason; message = no_nodes_message }

abbrev pub placed : Container → String → Container
placed c node_id = record c { node_id = node_id; reason = ""; message = "" }

abbrev pub err_no_reachable_nodes : Error
err_no_reachable_nodes = failure "no reachable nodes"

-- The loop of `Run` with all that it works on.
pub record Scheduled (N C T : Type 0) : Type 0 where
  pub system : System
  pub database : Database N C T
  pub watcher : NodeWatcher

module _ {N C T : Type 0} (c : Collections N C T) where
  write_container : String → Container → Database N C T → Result (Database N C T)
  write_container id value db = do
    containers ← c.containers.update_tx id value db.containers
    ok (record db { containers = containers })

  -- The end of the transaction once the loop has run: no node was found,
  give_up : String → Container → Database N C T → Result (Captured × Database N C T)
  unfolding write_container
  give_up id current db =
      if current.reason == no_nodes_reason && current.message == no_nodes_message
      then ok (record { retry = true; assigned_node_id = "" }, db)
      else (write_container id (unplaced current) db >>= λ db'.
          ok (record { retry = true; assigned_node_id = "" }, db'))

  -- or one was.
  place : String → Container → Database N C T → String → Result (Captured × Database N C T)
  unfolding write_container
  place id current db selected = do
    db' ← write_container id (placed current selected) db
    ok (record { retry = false; assigned_node_id = selected }, db')

  finish : String → Container → Database N C T → String → Result (Captured × Database N C T)
  unfolding give_up place
  finish id current db selected =
      if selected == "" then give_up id current db else place id current db selected

  choose : ℕ → String → Container → Database N C T → Result (Captured × Database N C T)
  unfolding finish
  choose now id current db = do
    nodes ← c.nodes.list_tx db.nodes
    containers ← c.containers.list_tx db.containers
    finish id current db (select now (tally containers []) nodes ("", 0)).0

  assign_found : ℕ → String → Result Container → Database N C T → Result (Captured × Database N C T)
  unfolding choose
  assign_found now id (err not_found) db = ok (nothing, db)
  assign_found now id (err e) db = err e
  assign_found now id (ok current) db =
      if needs_node current then choose now id current db else ok (nothing, db)

  -- The function that `assign` hands to `WriteTx`, at the time `now`.
  unfoldable pub assign_tx : ℕ → String → Database N C T → Result (Captured × Database N C T)
  unfolding assign_found
  assign_tx now id db = assign_found now id (c.containers.get_tx id db.containers) db

  announce : Captured → NodeWatcher → Result (Unit {0}) × NodeWatcher
  announce v w = if v.assigned_node_id == "" then (ok tt, w) else notify v.assigned_node_id w

  after_tx :
      Result Captured × Database N C T
      → NodeWatcher
      → Result (Unit {0}) × Database N C T × NodeWatcher
  unfolding announce
  after_tx (err e, db) w = (err e, db, w)
  after_tx (ok v, db) w =
      let (told, w') = announce v w in
      ((told >> (if v.retry then err err_no_reachable_nodes else ok tt)), db, w')

  unfoldable pub assign :
      Faults
      → ℕ
      → String
      → Database N C T
      → NodeWatcher
      → Result (Unit {0}) × Database N C T × NodeWatcher
  unfolding assign_tx after_tx
  assign f now id db w = after_tx (write_tx f (assign_tx now id) db) w
