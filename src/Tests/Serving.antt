-- ===== src/Tests/Serving.antt =====
-- Runs of cmd/hambo-server/serve.go.
use hambo.Base.{ℕ, true, List, [], ◌∷◌, some, ok, err, Error, failure, ◌≡◌, refl}
use hambo.Command.Serve.{ServeCalls, run}
use hambo.Command.Serve.Running.{
  server_closed, serve_sent, serve_received, failed, cancelling, schedule_sent, schedule_received,
  shutting_down, receiving, stopping, waiting, returned, Process, begun, scheduler_fails,
  scheduler_cancels, scheduler_sends, Steps, start, outside,
}
use hambo.Command.Serve.Running.Finishes.{OwnRun, here, by_own, Steps-finishes}

-- All is opened, and the listener's address is in use.
abbrev calls : ServeCalls ℕ ℕ ℕ ℕ
calls = record {
  ca = ok 0;
  makes_dir = ok tt;
  db = ok 1;
  close_db = failure "close db" ∷ [];
  sqlite = record {
    opens_write = true;
    pings_write = true;
    opens_read = true;
    pings_read = true;
    creates_tables = true;
  };
  nodes = ok 2;
  containers = ok 3;
  handler = λ ca db nodes containers. ok 4;
  listens = err (failure "listen");
  served = λ handler. [];
}

stops_at_listen : (run calls).1 ≡ failure "listen" ∷ failure "close db" ∷ []
unfolding run
stops_at_listen = refl

cause : Error
cause = failure "load containers"

-- The scheduler fails at its start, and cancels the context.
abbrev broken : Process
broken = record begun { scheduler = failed cause }

broken-steps : Steps 1 broken
broken-steps = outside start (scheduler_fails begun cause refl)

abbrev cancelled : Process
cancelled = record broken { scheduler = cancelling cause; cancelled = true }

abbrev sent : Process
sent = record cancelled { scheduler = schedule_sent (some cause) }

Steps-finishes_example :
    (t : Process) × (errors : List Error) × OwnRun sent t × (t.main ≡ returned errors)
Steps-finishes_example = Steps-finishes broken sent broken-steps refl (
    by_own (by_own here (scheduler_cancels broken cause refl))
      (scheduler_sends cancelled cause refl))

abbrev closing : Process
closing = record sent { main = shutting_down; closed = true }

abbrev closed : Process
closed = record closing { serve = serve_sent server_closed }

abbrev shut : Process
shut = record closed { main = receiving [] }

abbrev served : Process
served = record shut { main = stopping []; serve = serve_received server_closed }

abbrev stopped : Process
stopped = record served { main = waiting []; shut = true }

abbrev over : Process
over = record stopped { main = returned (cause ∷ []); scheduler = schedule_received (some cause) }
