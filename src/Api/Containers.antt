-- ===== src/Api/Containers.antt =====
-- `createContainerHandler` of internal/api/containers.go.
pub mod Names
use hambo.Base.{
  ℕ, String, Bool, true, false, List, [], ◌∷◌, ◌++◌, Option, none, some, Result, ok, err, Error,
  duplicate_name, failure, not_found, already_exists, errdef, if◌then◌else◌, ◌==◌, ◌>>=◌,
}
use hambo.Base.Text.{trim_space}
use hambo.Store.{Entry, Table}
use hambo.Store.Tx.{Faults, write_tx}
use hambo.Model.Container.{Container, pending, generate_container_id}
use hambo.Model.Database.{Database, Collections}
use hambo.Queue.{MemoryQueue, add}
use hambo.Api.Http.{
  Response, Incoming, Reading, read, answered, read_json, write_json, write_error_json,
  write_validation_error_json, ContainerResponse, container_created,
}

pub record CreateContainerRequest : Type 0 where
  pub name : String
  pub image : String

unfoldable pub trimmed : CreateContainerRequest → CreateContainerRequest
unfolding trim_space
trimmed r = record { name = trim_space r.name; image = trim_space r.image }

-- The map `fields`, whose keys JSON gives in order.
empty_fields : CreateContainerRequest → List (String × String)
empty_fields r =
    (if r.image == "" then ("image", "must not be empty") ∷ [] else [])
    ++ (if r.name == "" then ("name", "must not be empty") ∷ [] else [])

abbrev pub created : String → CreateContainerRequest → ℕ → Container
created id r now = record {
  id = id;
  name = r.name;
  image = r.image;
  node_id = "";
  state = pending;
  exit_code = none;
  reason = "";
  message = "";
  created_at = now;
  deletion_requested_at = none;
}

abbrev response_of : Container → ContainerResponse
response_of c = record {
  id = c.id;
  name = c.name;
  image = c.image;
  node_id = c.node_id;
  state = c.state;
  exit_code = c.exit_code;
  reason = c.reason;
  message = c.message;
  created_at = c.created_at;
  deletion_requested_at = c.deletion_requested_at;
}

-- The loop over the stored containers.
unfoldable pub has_name : String → List (Entry Container) → Bool
has_name name [] = false
has_name name (e ∷ es) = let rest = has_name name es in if e.value.name == name then true else rest

module _ {N C T : Type 0} (c : Collections N C T) where
  store_new : Container → Bool → Database N C T → Result (Unit {0} × Database N C T)
  store_new new true db = err duplicate_name
  store_new new false db = do
    containers ← c.containers.create_tx new.id new db.containers
    ok (tt, record db { containers = containers })

  unfoldable pub create_tx : Container → Database N C T → Result (Unit {0} × Database N C T)
  unfolding store_new has_name
  create_tx new db = do
    entries ← c.containers.list_tx db.containers
    store_new new (has_name new.name entries) db

  -- The answer, and the queue: the new container is to be scheduled.
  conclude :
      Container
      → Result (Unit {0}) × Database N C T
      → MemoryQueue
      → Response × Database N C T × MemoryQueue
  conclude new (ok u, db) q =
      (write_json 201 (container_created (response_of new)), db, add new.id q)
  conclude new (err duplicate_name, db) q =
      (write_error_json 409 "container name already exists", db, q)
  conclude new (err e, db) q = (write_error_json 500 "could not create container", db, q)

  accept :
      Faults
      → ℕ
      → List ℕ
      → CreateContainerRequest
      → List (String × String)
      → Database N C T
      → MemoryQueue
      → Response × Database N C T × MemoryQueue
  unfolding conclude
  accept f now bytes r (e ∷ es) db q = (write_validation_error_json (e ∷ es), db, q)
  accept f now bytes r [] db q =
      let new = created (generate_container_id bytes) r now in
      conclude new (write_tx f (create_tx new) db) q

  handle :
      Faults
      → ℕ
      → List ℕ
      → Reading CreateContainerRequest
      → Database N C T
      → MemoryQueue
      → Response × Database N C T × MemoryQueue
  unfolding accept trimmed empty_fields
  handle f now bytes (answered r) db q = (r, db, q)
  handle f now bytes (read request) db q =
      let r = trimmed request in accept f now bytes r (empty_fields r) db q

  -- `bytes` are those that `GenerateContainerID` draws.
  unfoldable pub create_container_handler :
      Faults
      → ℕ
      → List ℕ
      → Incoming CreateContainerRequest
      → Database N C T
      → MemoryQueue
      → Response × Database N C T × MemoryQueue
  unfolding handle
  create_container_handler f now bytes i db q = handle f now bytes (read_json i) db q
