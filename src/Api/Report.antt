-- ===== src/Api/Report.antt =====
-- `reportNodeStatusHandler` of internal/api/nodes.go: a worker reports its containers.
pub mod Effect
pub mod Handler
pub mod Names
pub mod Progress
pub mod Sequence
use hambo.Base.{
  ℕ, ◌<>◌, String, Bool, true, false, not, ◌&&◌, ◌||◌, List, [], ◌∷◌, Option, none, some, Result,
  ok, err, Error, not_found, already_exists, errdef, failure, conflict, permission_denied,
  invalid_argument, unauthenticated, missing, method_not_allowed, internal, unavailable, Kind,
  if◌then◌else◌, ◌==◌, leb, nat_eq, ◌>>=◌,
}
use hambo.Base.Int.{ℤ}
use hambo.Base.Text.{trim_space}
use hambo.Store.{Table}
use hambo.Store.Tx.{Faults, write_tx}
use hambo.Model.Container.{
  Container, State, pending, running, exited, other, is_pending, is_running, is_exited,
}
use hambo.Model.Node.{Node}
use hambo.Model.Database.{Database, Collections}
use hambo.Api.Http.{
  Response, Incoming, Reading, read, answered, read_json, write_error_json,
  write_validation_error_json, empty,
}

pub record ContainerStatusReport : Type 0 where
  pub id : String
  pub state : State
  pub exit_code : Option ℤ
  pub reason : String
  pub message : String

-- `sequence` is a uint64.
pub record ReportNodeStatusRequest : Type 0 where
  pub session_id : String
  pub sequence : ℕ
  pub runtime_ready : Bool
  pub containers : List ContainerStatusReport

-- A report that is older than what is known of its container.
unfoldable pub is_backward : State → State → Bool
is_backward current reported =
    (is_exited current && not (is_exited reported)) || (is_running current && is_pending reported)

abbrev pub reported : Container → ContainerStatusReport → Container
reported c r = record c {
  state = r.state;
  exit_code = r.exit_code;
  reason = r.reason;
  message = r.message;
}

abbrev pub not_assigned : Error
not_assigned = errdef permission_denied "container is not assigned to the reporting node"

abbrev pub old_session : Error
old_session = errdef conflict "conflict"

module _ {N C T : Type 0} (c : Collections N C T) where
  record_report : String → ContainerStatusReport → Container → C → Result C
  record_report node_id r current containers =
      if current.node_id == node_id
      then (if is_backward current.state r.state
          then ok containers
          else c.containers.update_tx r.id (reported current r) containers)
      else err not_assigned

  apply_found : String → ContainerStatusReport → Result Container → C → Result C
  unfolding record_report
  apply_found node_id r (err not_found) containers = ok containers
  apply_found node_id r (err e) containers = err e
  apply_found node_id r (ok current) containers = record_report node_id r current containers

  -- One round of the loop over the reported containers.
  unfoldable pub apply_report : String → ContainerStatusReport → C → Result C
  unfolding apply_found
  apply_report node_id r containers =
      apply_found node_id r (c.containers.get_tx r.id containers) containers

  unfoldable pub apply_reports : String → List ContainerStatusReport → C → Result C
  apply_reports node_id [] containers = ok containers
  apply_reports node_id (r ∷ rs) containers = do
    containers' ← apply_report node_id r containers
    apply_reports node_id rs containers'

  abbrev pub seen : ℕ → ReportNodeStatusRequest → Node → Node
  seen now request n = record n {
    last_seen_at = some now;
    runtime_ready = request.runtime_ready;
    status_sequence = request.sequence;
  }

  record_status :
      ℕ → String → ReportNodeStatusRequest → Node → Database N C T → Result (Database N C T)
  record_status now node_id request current db = do
    containers ← apply_reports node_id request.containers db.containers
    nodes ← c.nodes.update_tx node_id (seen now request current) db.nodes
    ok (record db { nodes = nodes; containers = containers })

  check_report :
      ℕ → String → ReportNodeStatusRequest → Node → Database N C T → Result (Database N C T)
  unfolding record_status
  check_report now node_id request current db =
      if request.session_id == current.status_session_id
      then (if leb request.sequence current.status_sequence
          then ok db
          else record_status now node_id request current db)
      else err old_session

  -- The transaction of the handler, at the time `now`.
  unfoldable pub report_tx :
      ℕ → String → ReportNodeStatusRequest → Database N C T → Result (Database N C T)
  unfolding check_report
  report_tx now node_id request db = do
    current ← c.nodes.get_tx node_id db.nodes
    check_report now node_id request current db
