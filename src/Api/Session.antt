-- ===== src/Api/Session.antt =====
-- `createNodeSessionHandler` of internal/api/nodes.go: a new run of a worker.
use hambo.Base.{
  ℕ, String, true, false, List, ◌≡◌, ◌≢◌, arith, Option, none, some, Result, ok, err, not_found,
  ◌>>=◌, Result-cases, inl, inr,
}
use hambo.Store.Tx.{Faults, write_tx}
use hambo.Model.Hex.{hex}
use hambo.Model.Node.{Node}
use hambo.Model.Database.{Database, Collections, AreLawful}
use hambo.Api.Http.{Response, write_json, write_error_json, session}
use hambo.Api.Report.{ReportNodeStatusRequest, report_tx, old_session}

abbrev pub renewed : String → Node → Node
renewed session_id n = record n {
  status_session_id = session_id;
  status_sequence = 0;
  runtime_ready = false;
}

module _ {N C T : Type 0} (c : Collections N C T) where
  -- `Modify` of the collection of nodes, with the handler's function.
  unfoldable pub session_tx : String → String → Database N C T → Result (Unit {0} × Database N C T)
  session_tx node_id session_id db = do
    current ← c.nodes.get_tx node_id db.nodes
    nodes ← c.nodes.update_tx node_id (renewed session_id current) db.nodes
    ok (tt, record db { nodes = nodes })

  answer : String → Result (Unit {0}) → Response
  answer session_id (ok u) = record (write_json 201 (session session_id)) { no_store = true }
  answer session_id (err not_found) = write_error_json 404 "node not found"
  answer session_id (err e) = write_error_json 500 "could not create node session"

  -- `bytes` are the sixteen that `rand.Read` draws for the session.
  unfoldable pub session_handler :
      Faults → Option String → List ℕ → Database N C T → Response × Database N C T
  unfolding answer session_tx
  session_handler f none bytes db = (write_error_json 500 "could not create node session", db)
  session_handler f (some node_id) bytes db =
      let (result, db') = write_tx f (session_tx node_id (hex bytes)) db in
      (answer (hex bytes) result, db')

  -- Once a new session was stored for a node, a status report of any other session is refused with
  -- a conflict.
  pub session_tx-supersedes :
      AreLawful c
      → (now : ℕ) (node_id session_id : String) (request : ReportNodeStatusRequest)
        (db db' : Database N C T)
      → session_tx node_id session_id db ≡ ok (tt, db')
      → request.session_id ≢ session_id
      → report_tx c now node_id request db' ≡ err old_session
  unfolding session_tx report_tx
  session_tx-supersedes lawful now node_id session_id request db db' h ne =
      elim (Result-cases (c.nodes.get_tx node_id db.nodes)) [
        | inr (e, p) ↦ absurd (ground arith)
        | inl (n, p) ↦
            elim (Result-cases (c.nodes.update_tx node_id (renewed session_id n) db.nodes)) [
              | inr (e, q) ↦ absurd (ground arith)
              | inl (ns, q) ↦ ground (
                arith,
                lawful.nodes.update-get node_id node_id (renewed session_id n) db.nodes ns q,
              )
            ]
      ]
