-- ===== src/Api/WatchNode.antt =====
-- `watchNodeHandler` of internal/api/nodes.go: the assignments of a node, as they change.
pub mod Snapshot
use hambo.Base.{
  ℕ, String, Bool, true, false, not, ◌&&◌, List, [], ◌∷◌, Option, none, some, Result, ok, err,
  Error, if◌then◌else◌, ◌==◌,
}
use hambo.Store.{Entry}
use hambo.Store.Tx.{Faults, view}
use hambo.Model.Container.{Container}
use hambo.Model.Database.{Database, Collections}
use hambo.Watch.{NodeWatcher, watch}
use hambo.Api.Http.{Response, write_error_json}

pub record ContainerAssignment : Type 0 where
  pub id : String
  pub name : String
  pub image : String
  pub deletion_requested_at : Option ℕ

abbrev pub assignment : Container → ContainerAssignment
assignment c = record {
  id = c.id;
  name = c.name;
  image = c.image;
  deletion_requested_at = c.deletion_requested_at;
}

-- The loop over the stored containers.
unfoldable pub snapshot : String → List (Entry Container) → List ContainerAssignment
snapshot node_id [] = []
snapshot node_id (e ∷ es) =
    let rest = snapshot node_id es in
    if e.value.node_id == node_id then assignment e.value ∷ rest else rest

-- The request is answered, or a stream is started for the node.
pub data Opened : Type 0 where
  answered : Response → Opened
  streams : String → Opened

-- What comes before the loop. `flushes` says whether the response writer is an `http.Flusher`.
unfoldable pub open_watch : Option String → Bool → Opened
open_watch none flushes = answered (write_error_json 500 "could not watch node assignments")
open_watch (some node_id) flushes =
    if flushes
    then streams node_id
    else answered (write_error_json 500 "could not start node watch")

-- Whether the loop goes on after a round that writes: the snapshot was written, and the channel was
-- closed before the request was over.
unfoldable pub goes_on : Bool → Bool → Bool
goes_on written over = written && not over

-- What a round of the handler's loop comes to: the request ends, or the snapshot is written and
-- the round waits for the channel.
pub data Round : Type 0 where
  ends : Round
  writes : List ContainerAssignment → ℕ → Round

module _ {N C T : Type 0} (c : Collections N C T) where
  send : String → ℕ → Result (List (Entry Container)) → Round
  unfolding snapshot
  send node_id channel (err e) = ends
  send node_id channel (ok entries) = writes (snapshot node_id entries) channel

  read : Faults → String → Database N C T → Result ℕ → Round
  unfolding send
  read f node_id db (err e) = ends
  read f node_id db (ok channel) =
      send node_id channel (view f (λ (d : Database N C T). c.containers.list_tx d.containers) db)

  -- One round. The channel is taken first, at the watcher `w`; the containers are read after it,
  -- from a database `db` that may be newer. `cancelled` is `r.Context().Err() != nil`.
  unfoldable pub round : Faults → Bool → String → NodeWatcher → Database N C T → Round × NodeWatcher
  unfolding read
  round f cancelled node_id w db =
      if cancelled
      then (ends, w)
      else (let (channel, w') = watch node_id w in (read f node_id db channel, w'))
