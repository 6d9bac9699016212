-- ===== src/Worker/Heartbeat/Superseded.antt =====
-- A report on its way: the loop of internal/worker/worker.go, the handler of internal/api/nodes.go,
-- and back through client.
use hambo.Base.{
  ℕ, String, true, false, [], ◌∷◌, ◌≡◌, ◌≢◌, refl, ap, ◌∙◌, arith, Option, none, some, ok, err,
  errdef, conflict, dec_string,
}
use hambo.Base.Text.{trim_space}
use hambo.Store.Tx.{Faults, write_tx}
use hambo.Model.Database.{Database, Collections, AreLawful}
use hambo.Api.Http.{
  Response, Body, failed, ErrorResponse, Incoming, value, end_of_input, read, read_json,
  write_error_json, write_json,
}
use hambo.Api.Report.{ReportNodeStatusRequest, report_tx, old_session}
use hambo.Api.Report.Handler.{report_handler, validate, check_containers, answer}
use hambo.Api.Session.{session_tx, session_tx-supersedes}
use hambo.Client.{Exchange, do_call, read_response_error, decode_response_error, error_from_status}
use hambo.Worker.Heartbeat.{
  Beat, fails, report_of, beat, after_report, after_call, after_failure, is_fatal,
}

abbrev error_body : Body → Option ErrorResponse
error_body (failed e) = some e
error_body b = none

-- The call whose answer arrives as the server wrote it.
abbrev pub delivered : Response → Exchange (Unit {0})
delivered r = record {
  made = true;
  sent = true;
  status = r.status;
  failed = error_body r.body;
  output = some tt;
  cancelled = false;
  drained = true;
}

-- The request as `ReportNodeStatus` sends it.
abbrev pub as_json : ReportNodeStatusRequest → Incoming ReportNodeStatusRequest
as_json request = record {
  media_type = some "application/json";
  first = value request;
  rest = end_of_input;
}

abbrev pub no_longer_current : String
no_longer_current = "node reporting session is no longer current; create a new session"

conflict-fails :
    (session_id : String) (n : ℕ) (b : Beat)
    → n ≢ 0
    → b.over_after_ping ≡ false
    → b.over_after_report ≡ false
    → do_call b.call ≡ err (errdef conflict no_longer_current)
    → beat session_id n b
      ≡ (report_of session_id n b ∷ [], fails (errdef conflict no_longer_current))
unfolding beat after_report after_call after_failure is_fatal
conflict-fails session_id n b nz p r e = ground arith

delivered-conflict :
    do_call (delivered (write_error_json 409 no_longer_current))
    ≡ err (errdef conflict no_longer_current)
unfolding do_call read_response_error decode_response_error error_from_status write_error_json
    write_json
delivered-conflict = refl

read_json-as_json : (request : ReportNodeStatusRequest) → read_json (as_json request) ≡ read request
unfolding read_json dec_string
read_json-as_json request = refl

module _ {N C T : Type 0} (quoted : String → String) (c : Collections N C T) where
  accepted :
      (session_id : String) (n : ℕ) (b : Beat)
      → trim_space session_id ≢ ""
      → n ≢ 0
      → validate quoted (report_of session_id n b) ≡ none
  unfolding validate check_containers
  accepted session_id n b some_id nz = ground arith

  refused :
      (f : Faults) (now : ℕ) (node_id session_id : String) (n : ℕ) (b : Beat) (db : Database N C T)
      → f.begins ≡ true
      → trim_space session_id ≢ ""
      → n ≢ 0
      → report_tx c now node_id (report_of session_id n b) db ≡ err old_session
      → (report_handler quoted c f now (some node_id) (as_json (report_of session_id n b)) db).0
        ≡ write_error_json 409 no_longer_current
  unfolding report_handler answer write_tx
  refused f now node_id session_id n b db begins some_id nz h =
      rw
        (
          read_json-as_json (report_of session_id n b),
          accepted session_id n b some_id nz,
          begins,
          h,
        )
        refl

  -- Once a new session was stored for a node, a worker of another session, whose ID is not blank,
  -- is refused: if the server can begin a transaction and the answer to its next report arrives as
  -- the server wrote it, the heartbeat sends this report as its last and ends with a conflict.
  pub session_tx-ends_beat :
      AreLawful c
      → (f : Faults) (now : ℕ) (node_id old new : String) (n : ℕ) (b : Beat)
        (db db' : Database N C T)
      → f.begins ≡ true
      → trim_space old ≢ ""
      → n ≢ 0
      → old ≢ new
      → session_tx c node_id new db ≡ ok (tt, db')
      → b.over_after_ping ≡ false
      → b.over_after_report ≡ false
      → b.call
        ≡ delivered
            (report_handler quoted c f now (some node_id) (as_json (report_of old n b)) db').0
      → beat old n b ≡ (report_of old n b ∷ [], fails (errdef conflict no_longer_current))
  session_tx-ends_beat lawful f now node_id old new n b db db' begins some_id nz other h ping over
        call =
      conflict-fails old n b nz ping over (
        ap do_call (
          call
          ∙ ap delivered (
              refused f now node_id old n b db' begins some_id nz (
                session_tx-supersedes c lawful now node_id new (report_of old n b) db db' h other)))
        ∙ delivered-conflict)
