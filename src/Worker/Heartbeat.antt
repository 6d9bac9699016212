-- ===== src/Worker/Heartbeat.antt =====
-- `runHeartbeat` of internal/worker/worker.go, and how `Run` starts it.
pub mod Sequence
pub mod Superseded
use hambo.Base.{
  ℕ, ◌+◌, ◌%◌, ◌^◌, String, Bool, true, false, List, [], ◌∷◌, ◌++◌, Result, ok, err, Error, errdef,
  failure, Kind, conflict, invalid_argument, unauthenticated, permission_denied, missing,
  if◌then◌else◌, nat_eq, ◌>>=◌,
}
use hambo.Api.Report.{ReportNodeStatusRequest}
use hambo.Client.{Exchange, do_call}

-- What one round of the loop meets: whether Docker answers, the call of the report, and whether
-- the context is over after each of them and when the ticker is waited for.
pub record Beat : Type 0 where
  pub runtime_ready : Bool
  pub over_after_ping : Bool
  pub call : Exchange (Unit {0})
  pub over_after_report : Bool
  pub over_at_tick : Bool

-- How the loop ends; `goes_on` is the loop that waits for its next round with this sequence
-- number, a uint64.
pub data Ending : Type 0 where
  stops : Ending
  fails : Error → Ending
  goes_on : ℕ → Ending

unfoldable pub is_fatal : Error → Bool
is_fatal (errdef conflict m) = true
is_fatal (errdef invalid_argument m) = true
is_fatal (errdef unauthenticated m) = true
is_fatal (errdef permission_denied m) = true
is_fatal (errdef missing m) = true
is_fatal e = false

abbrev pub report_of : String → ℕ → Beat → ReportNodeStatusRequest
report_of session_id sequence b = record {
  session_id = session_id;
  sequence = sequence;
  runtime_ready = b.runtime_ready;
  containers = [];
}

-- `w.sequence++`, and the wait for the ticker.
next_tick : ℕ → Beat → Ending
next_tick sequence b = if b.over_at_tick then stops else goes_on ((sequence + 1) % 2 ^ 64)

after_failure : ℕ → Beat → Error → Ending
unfolding next_tick is_fatal
after_failure sequence b e = if is_fatal e then fails e else next_tick sequence b

after_call : ℕ → Beat → Result (Unit {0}) → Ending
unfolding after_failure
after_call sequence b (ok u) = next_tick sequence b
after_call sequence b (err e) = after_failure sequence b e

after_report : ℕ → Beat → Ending
unfolding after_call do_call
after_report sequence b =
    if b.over_after_report then stops else after_call sequence b (do_call b.call)

-- One round: the report that it sends, if any, and how it ends.
unfoldable pub beat : String → ℕ → Beat → List ReportNodeStatusRequest × Ending
unfolding after_report
beat session_id sequence b =
    if nat_eq sequence 0
    then ([], fails (failure "node status sequence exhausted"))
    else if b.over_after_ping
    then ([], stops)
    else (report_of session_id sequence b ∷ [], after_report sequence b)

-- The reports that the loop sends over the rounds that it meets from where it is, and where it
-- is after them.
unfoldable pub run_heartbeat : String → Ending → List Beat → List ReportNodeStatusRequest × Ending
unfolding beat
run_heartbeat session_id ending [] = ([], ending)
run_heartbeat session_id stops (b ∷ bs) = ([], stops)
run_heartbeat session_id (fails e) (b ∷ bs) = ([], fails e)
run_heartbeat session_id (goes_on sequence) (b ∷ bs) =
    let (sent, ending) = beat session_id sequence b in
    let (later, last) = run_heartbeat session_id ending bs in (sent ++ later, last)

-- `Run` creates a session and starts with the number 1.
unfoldable pub begin_heartbeat :
    Exchange String → List Beat → Result (List ReportNodeStatusRequest × Ending)
unfolding run_heartbeat do_call
begin_heartbeat session beats = do
  session_id ← do_call session
  ok (run_heartbeat session_id (goes_on 1) beats)
