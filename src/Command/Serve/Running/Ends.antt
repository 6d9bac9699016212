-- ===== src/Command/Serve/Running/Ends.antt =====
-- How far the process of cmd/hambo-server/serve.go is from its end.
use hambo.Base.{ℕ, ◌+◌, ◌<◌, Bool, true, false, arith}
use hambo.Command.Serve.Running.{
  Serving, serving, serve_sent, serve_received, Scheduling, scheduling, failed, cancelling,
  schedule_sent, schedule_received, Main, selecting, shutting_down, receiving, stopping, waiting,
  returned, Process, Own, serve_closes, scheduler_cancels, scheduler_sends, scheduler_ends,
  select_serve, select_done, shut_down, receive_serve, shut_queue, receive_scheduler,
}

abbrev main_left : Main → ℕ
main_left selecting = 5
main_left shutting_down = 4
main_left (receiving es) = 3
main_left (stopping es) = 2
main_left (waiting es) = 1
main_left (returned es) = 0

abbrev serve_left : Serving → ℕ
serve_left serving = 2
serve_left (serve_sent r) = 1
serve_left (serve_received r) = 0

abbrev scheduler_left : Scheduling → ℕ
scheduler_left scheduling = 4
scheduler_left (failed e) = 3
scheduler_left (cancelling e) = 2
scheduler_left (schedule_sent o) = 1
scheduler_left (schedule_received o) = 0

abbrev signal_left : Bool → ℕ
signal_left true = 0
signal_left false = 1

-- It falls with each step.
unfoldable pub left : Process → ℕ
left s =
    main_left s.main + serve_left s.serve + scheduler_left s.scheduler + signal_left s.cancelled

pub own-left : {s t : Process} → Own s t → left t < left s
unfolding left
own-left (serve_closes s h c) = ground arith
own-left (scheduler_cancels s e h) = ground arith
own-left (scheduler_sends s e h) = ground arith
own-left (scheduler_ends s h c) = ground arith
own-left (select_serve s r h c) = ground arith
own-left (select_done s h c) = ground arith
own-left (shut_down s a b h) = ground arith
own-left (receive_serve s es r h c) = ground arith
own-left (shut_queue s es h) = ground arith
own-left (receive_scheduler s es o h c) = ground arith
