-- ===== src/Command/Serve/Running/Reports.antt =====
-- What `run` of cmd/hambo-server/serve.go returns.
use hambo.Base.{true, List, [], ◌++◌, Option, none, some, Error, ◌≡◌}
use hambo.Command.Serve.Running.{
  ServeEnd, Serving, serving, serve_sent, serve_received, Scheduling, scheduling, failed,
  cancelling, schedule_sent, schedule_received, Main, selecting, shutting_down, receiving, stopping,
  waiting, returned, Process, serve_errors, scheduler_errors, shutdown_errors,
}

-- The errors that `run` has gathered.
abbrev gathered : Main → Option (List Error)
gathered selecting = none
gathered shutting_down = none
gathered (receiving es) = some es
gathered (stopping es) = some es
gathered (waiting es) = some es
gathered (returned es) = some es

abbrev from_serve : Serving → List Error
from_serve (serve_received r) = serve_errors r
from_serve serving = []
from_serve (serve_sent r) = []

abbrev from_scheduler : Scheduling → List Error
from_scheduler (schedule_received o) = scheduler_errors o
from_scheduler (schedule_sent o) = []
from_scheduler scheduling = []
from_scheduler (failed e) = []
from_scheduler (cancelling e) = []

-- They are those of `Shutdown` and `Close`, then that of `ServeTLS`, then the scheduler's.
record Gathers (s : Process) (es : List Error) : Type 0 where
  shutdown_error : Option Error
  close_error : Option Error
  is :
      es
      ≡ (shutdown_errors shutdown_error close_error ++ from_serve s.serve)
        ++ from_scheduler s.scheduler

abbrev Keeps : Process → Type 0
Keeps s = (es : List Error) → gathered s.main ≡ some es → Gathers s es

-- All that has ended when `run` returns, and what it returns.
pub record Ended (s : Process) (errors : List Error) : Type 0 where
  pub serve_end : ServeEnd
  pub scheduler_end : Option Error
  pub shutdown_error : Option Error
  pub close_error : Option Error
  pub serve_ended : s.serve ≡ serve_received serve_end
  pub scheduler_ended : s.scheduler ≡ schedule_received scheduler_end
  pub queue_shut : s.shut ≡ true
  pub errors_are :
      errors
      ≡ (shutdown_errors shutdown_error close_error ++ serve_errors serve_end)
        ++ scheduler_errors scheduler_end
