-- ===== src/Api/Report/Handler.antt =====
-- The request of `reportNodeStatusHandler` (internal/api/nodes.go): its checks, and its answers.
use hambo.Base.{
  ℕ, ◌<>◌, String, Bool, true, false, not, ◌&&◌, List, [], ◌∷◌, Option, none, some, Result, ok, err,
  not_found, errdef, conflict, permission_denied, if◌then◌else◌, ◌==◌, nat_eq, ◌>>=◌, inl, inr, ◌≡◌,
  ◌≢◌, refl,
}
use hambo.Base.Text.{trim_space}
use hambo.Store.Tx.{Faults, write_tx, write_tx-atomic}
use hambo.Model.Container.{State, pending, running, exited, other, is_exited}
use hambo.Model.Database.{Database, Collections}
use hambo.Api.Http.{
  Response, Incoming, Reading, read, answered, read_json, write_json, write_error_json,
  write_validation_error_json, empty,
}
use hambo.Api.Report.{ContainerStatusReport, ReportNodeStatusRequest, report_tx}

-- The text of a `ContainerState` of api/types.go.
unfoldable pub state_text : State → String
state_text pending = "pending"
state_text running = "running"
state_text exited = "exited"
state_text (other s) = s

abbrev is_supported : State → Bool
is_supported (other s) = false
is_supported _ = true

abbrev has_value : {A : Type 0} → Option A → Bool
has_value none = false
has_value (some a) = true

-- `quoted` is the verb `%q` of package fmt.
module _ (quoted : String → String) where
  -- The message of the field `containers`, for the first report that is refused.
  check_container : ContainerStatusReport → Option String
  unfolding state_text
  check_container r =
      if trim_space r.id == ""
      then some "container ID must not be empty"
      else if not (is_supported r.state)
      then some (
          "container "
          <> quoted r.id
          <> " has an unsupported state "
          <> quoted (state_text r.state))
      else if has_value r.exit_code && not (is_exited r.state)
      then some ("container " <> quoted r.id <> ": exit code requires exited state")
      else none

  first_of_two : Option String → Option String → Option String
  first_of_two none later = later
  first_of_two (some m) later = some m

  unfoldable pub check_containers : List ContainerStatusReport → Option String
  unfolding check_container first_of_two
  check_containers [] = none
  check_containers (r ∷ rs) = first_of_two (check_container r) (check_containers rs)

  refusal : Option String → Option Response
  refusal none = none
  refusal (some m) = some (write_validation_error_json (("containers", m) ∷ []))

  -- `none` for a request that is accepted.
  unfoldable pub validate : ReportNodeStatusRequest → Option Response
  unfolding refusal check_containers
  validate request =
      if trim_space request.session_id == ""
      then some (write_validation_error_json (("session_id", "must not be empty") ∷ []))
      else if nat_eq request.sequence 0
      then some (write_validation_error_json (("sequence", "must be greater than zero") ∷ []))
      else refusal (check_containers request.containers)

  -- The answer for the transaction's error.
  unfoldable pub answer : Result (Unit {0}) → Response
  answer (ok u) = write_json 204 empty
  answer (err (errdef conflict m)) =
      write_error_json 409 "node reporting session is no longer current; create a new session"
  answer (err (errdef permission_denied m)) =
      write_error_json 403 "cannot update a container not assigned to this node"
  answer (err not_found) = write_error_json 404 "node not found"
  answer (err e) = write_error_json 500 "could not record node status"

  module _ {N C T : Type 0} (c : Collections N C T) (f : Faults) (now : ℕ) where
    abbrev tx :
        String → ReportNodeStatusRequest → Database N C T → Result (Unit {0} × Database N C T)
    tx node_id request db = do db' ← report_tx c now node_id request db; ok (tt, db')

    process :
        Option Response
        → String
        → ReportNodeStatusRequest
        → Database N C T
        → Response × Database N C T
    unfolding answer
    process (some r) node_id request db = (r, db)
    process none node_id request db =
        let (result, db') = write_tx f (tx node_id request) db in (answer result, db')

    handle : Reading ReportNodeStatusRequest → String → Database N C T → Response × Database N C T
    unfolding process validate
    handle (answered r) node_id db = (r, db)
    handle (read request) node_id db = process (validate request) node_id request db

    -- The node's ID comes from the context, where the middleware has put it.
    unfoldable pub report_handler :
        Option String
        → Incoming ReportNodeStatusRequest
        → Database N C T
        → Response × Database N C T
    unfolding handle
    report_handler none i db = (write_error_json 500 "could not process node status", db)
    report_handler (some node_id) i db = handle (read_json i) node_id db

    -- Whatever goes wrong, the request has changed nothing.
    process-failed :
        (o : Option Response) (node_id : String) (request : ReportNodeStatusRequest)
        (db : Database N C T)
        → (process o node_id request db).0.status ≢ 204
        → (process o node_id request db).1 ≡ db
    unfolding process write_json
    process-failed (some r) node_id request db h = refl
    process-failed none node_id request db h = elim (write_tx-atomic f (tx node_id request) db) [
      | inl (e, p) ↦ rw p refl
      | inr (u, db', ran, p) ↦ absurd (h (rw p refl))
    ]

    handle-failed :
        (r : Reading ReportNodeStatusRequest) (node_id : String) (db : Database N C T)
        → (handle r node_id db).0.status ≢ 204
        → (handle r node_id db).1 ≡ db
    unfolding handle
    handle-failed (answered r) node_id db h = refl
    handle-failed (read request) node_id db h =
        process-failed (validate request) node_id request db h

    -- A status report that is answered with anything but 204 has left the database as it was.
    pub report_handler-failed :
        (node : Option String) (i : Incoming ReportNodeStatusRequest) (db : Database N C T)
        → (report_handler node i db).0.status ≢ 204
        → (report_handler node i db).1 ≡ db
    unfolding report_handler
    report_handler-failed none i db h = refl
    report_handler-failed (some node_id) i db h = handle-failed (read_json i) node_id db h
