-- ===== src/Command/Serve/Running.antt =====
-- The three goroutines of cmd/hambo-server/serve.go: the scheduler's, that of `ServeTLS`, and the one
-- that runs `runServer` and then waits for the scheduler. Every interleaving is a run of steps.
pub mod Ends
pub mod Finishes
pub mod Valid
pub mod Reports
use hambo.Base.{ℕ, suc, Bool, true, false, List, [], ◌∷◌, ◌++◌, Option, none, some, Error, ◌≡◌}

-- How `ServeTLS` ends: by `http.ErrServerClosed`, or by another error.
pub data ServeEnd : Type 0 where
  server_closed : ServeEnd
  serve_error : Error → ServeEnd

-- `errors.Is(err, http.ErrServerClosed)` makes the error nil.
unfoldable pub serve_errors : ServeEnd → List Error
serve_errors server_closed = []
serve_errors (serve_error e) = e ∷ []

-- The goroutine that serves, and its channel of one place.
pub data Serving : Type 0 where
  serving : Serving
  serve_sent : ServeEnd → Serving
  serve_received : ServeEnd → Serving

-- The goroutine of the scheduler, and its channel of one place: after an error it cancels the
-- context before it sends.
pub data Scheduling : Type 0 where
  scheduling : Scheduling
  failed : Error → Scheduling
  cancelling : Error → Scheduling
  schedule_sent : Option Error → Scheduling
  schedule_received : Option Error → Scheduling

unfoldable pub scheduler_errors : Option Error → List Error
scheduler_errors none = []
scheduler_errors (some e) = e ∷ []

-- Where `run` is: at the `select` of `runServer`, in `Shutdown`, at the receive after it, at the
-- queue's shutdown with the errors of `runServer`, at the receive from the scheduler, or over.
pub data Main : Type 0 where
  selecting : Main
  shutting_down : Main
  receiving : List Error → Main
  stopping : List Error → Main
  waiting : List Error → Main
  returned : List Error → Main

-- `cancelled` is that the context is done, `closed` that the HTTP server was shut down, `shut` that
-- the queue was.
pub record Process : Type 0 where
  pub main : Main
  pub serve : Serving
  pub scheduler : Scheduling
  pub cancelled : Bool
  pub closed : Bool
  pub shut : Bool

abbrev pub begun : Process
begun = record {
  main = selecting;
  serve = serving;
  scheduler = scheduling;
  cancelled = false;
  closed = false;
  shut = false;
}

-- The errors of `Shutdown`, and of `Close` after it fails.
unfoldable pub shutdown_errors : Option Error → Option Error → List Error
shutdown_errors none close_error = []
shutdown_errors (some e) none = e ∷ []
shutdown_errors (some e) (some c) = e ∷ c ∷ []

-- What comes from outside: a signal, and the failures of `ServeTLS` and of the scheduler.
pub data Outside : Process → Process → Type 0 where
  interrupt : (s : Process) → s.cancelled ≡ false → Outside s (record s { cancelled = true })
  serve_fails :
      (s : Process) (e : Error)
      → s.serve ≡ serving
      → Outside s (record s { serve = serve_sent (serve_error e) })
  scheduler_fails :
      (s : Process) (e : Error)
      → s.scheduler ≡ scheduling
      → Outside s (record s { scheduler = failed e })

-- What the goroutines do by themselves. `ServeTLS` returns once the HTTP server was shut down, and
-- the scheduler once the queue was; `Shutdown` returns at the end of its grace period at the latest.
pub data Own : Process → Process → Type 0 where
  serve_closes :
      (s : Process)
      → s.serve ≡ serving
      → s.closed ≡ true
      → Own s (record s { serve = serve_sent server_closed })
  scheduler_cancels :
      (s : Process) (e : Error)
      → s.scheduler ≡ failed e
      → Own s (record s { scheduler = cancelling e; cancelled = true })
  scheduler_sends :
      (s : Process) (e : Error)
      → s.scheduler ≡ cancelling e
      → Own s (record s { scheduler = schedule_sent (some e) })
  scheduler_ends :
      (s : Process)
      → s.scheduler ≡ scheduling
      → s.shut ≡ true
      → Own s (record s { scheduler = schedule_sent none })
  select_serve :
      (s : Process) (r : ServeEnd)
      → s.main ≡ selecting
      → s.serve ≡ serve_sent r
      → Own s (record s { main = stopping (serve_errors r); serve = serve_received r })
  select_done :
      (s : Process)
      → s.main ≡ selecting
      → s.cancelled ≡ true
      → Own s (record s { main = shutting_down; closed = true })
  shut_down :
      (s : Process) (shutdown_error close_error : Option Error)
      → s.main ≡ shutting_down
      → Own s (record s { main = receiving (shutdown_errors shutdown_error close_error) })
  receive_serve :
      (s : Process) (errors : List Error) (r : ServeEnd)
      → s.main ≡ receiving errors
      → s.serve ≡ serve_sent r
      → Own s (record s { main = stopping (errors ++ serve_errors r); serve = serve_received r })
  shut_queue :
      (s : Process) (errors : List Error)
      → s.main ≡ stopping errors
      → Own s (record s { main = waiting errors; shut = true })
  receive_scheduler :
      (s : Process) (errors : List Error) (o : Option Error)
      → s.main ≡ waiting errors
      → s.scheduler ≡ schedule_sent o
      → Own s (record s {
        main = returned (errors ++ scheduler_errors o);
        scheduler = schedule_received o;
      })

-- What `run` comes to, in so many steps.
pub data Steps : ℕ → Process → Type 0 where
  start : Steps 0 begun
  outside : {n : ℕ} {s t : Process} → Steps n s → Outside s t → Steps (suc n) t
  own : {n : ℕ} {s t : Process} → Steps n s → Own s t → Steps (suc n) t
