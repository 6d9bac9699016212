-- ===== src/Tests/Fixtures.antt =====
-- A database in memory that the tests share.
use hambo.Base.{String, true, [], ◌∷◌, none, some}
use hambo.Store.Memory.{Memory, memory_table, memory_table-IsLawful}
use hambo.Store.Tx.{Faults}
use hambo.Model.Container.{Container, State, pending, running}
use hambo.Model.Node.{Node}
use hambo.Model.Token.{Metadata}
use hambo.Model.Database.{Database, Collections, AreLawful}

abbrev pub Db : Type 0
Db = Database (Memory Node) (Memory Container) (Memory Metadata)

abbrev pub collections : Collections (Memory Node) (Memory Container) (Memory Metadata)
collections = record { nodes = memory_table; containers = memory_table; tokens = memory_table }

pub collections-AreLawful : AreLawful collections
collections-AreLawful = record {
  nodes = memory_table-IsLawful;
  containers = memory_table-IsLawful;
  tokens = memory_table-IsLawful;
}

abbrev pub no_faults : Faults
no_faults = record { begins = true; commits = true }

-- A node that was seen at the time 100.
abbrev pub node_named : String → Node
node_named id = record {
  id = id;
  name = id;
  runtime_ready = true;
  last_seen_at = some 100;
  status_session_id = "s1";
  status_sequence = 4;
}

abbrev pub container_on : String → String → State → Container
container_on id node_id state = record {
  id = id;
  name = id;
  image = "busybox";
  node_id = node_id;
  state = state;
  exit_code = none;
  reason = "";
  message = "";
  created_at = 7;
  deletion_requested_at = none;
}

abbrev pub unused_token : Metadata
unused_token = record { expires_at = 1000; enrollment = none }

-- Two nodes; the first runs a container, and another container waits for a node.
abbrev pub busy_db : Db
busy_db = record {
  nodes = some (("a", node_named "a") ∷ ("b", node_named "b") ∷ []);
  containers =
      some (("c1", container_on "c1" "a" running) ∷ ("c2", container_on "c2" "" pending) ∷ []);
  tokens = some (("h", unused_token) ∷ []);
}
