-- ===== src/Command/Serve/Running/Valid.antt =====
-- Where the goroutines of cmd/hambo-server/serve.go are, together.
use hambo.Base.{ℕ, Bool, true, false, ◌≡◌, refl, arith}
use hambo.Command.Serve.Running.{
  Serving, serving, serve_sent, serve_received, Scheduling, scheduling, failed, cancelling,
  schedule_sent, schedule_received, Main, selecting, shutting_down, receiving, stopping, waiting,
  returned, Process, Outside, interrupt, serve_fails, scheduler_fails, Own, serve_closes,
  scheduler_cancels, scheduler_sends, scheduler_ends, select_serve, select_done, shut_down,
  receive_serve, shut_queue, receive_scheduler, Steps, start, outside, own,
}

abbrev pub is_served : Serving → Bool
is_served (serve_received r) = true
is_served serving = false
is_served (serve_sent r) = false

abbrev pub is_joined : Scheduling → Bool
is_joined (schedule_received o) = true
is_joined scheduling = false
is_joined (failed e) = false
is_joined (cancelling e) = false
is_joined (schedule_sent o) = false

abbrev pub past_server : Main → Bool
past_server (stopping es) = true
past_server (waiting es) = true
past_server (returned es) = true
past_server selecting = false
past_server shutting_down = false
past_server (receiving es) = false

abbrev pub past_queue : Main → Bool
past_queue (waiting es) = true
past_queue (returned es) = true
past_queue (stopping es) = false
past_queue selecting = false
past_queue shutting_down = false
past_queue (receiving es) = false

abbrev pub is_over : Main → Bool
is_over (returned es) = true
is_over (waiting es) = false
is_over (stopping es) = false
is_over selecting = false
is_over shutting_down = false
is_over (receiving es) = false

abbrev pub in_shutdown : Main → Bool
in_shutdown shutting_down = true
in_shutdown (receiving es) = true
in_shutdown (stopping es) = false
in_shutdown (waiting es) = false
in_shutdown (returned es) = false
in_shutdown selecting = false

abbrev pub has_failed : Scheduling → Bool
has_failed (cancelling e) = true
has_failed (schedule_sent o) = false
has_failed (schedule_received o) = false
has_failed scheduling = false
has_failed (failed e) = false

pub record IsValid (s : Process) : Type 0 where
  pub served : is_served s.serve ≡ past_server s.main
  pub joined : is_joined s.scheduler ≡ is_over s.main
  pub shut : past_queue s.main ≡ true → s.shut ≡ true
  pub closed : in_shutdown s.main ≡ true → s.closed ≡ true
  pub cancelled : has_failed s.scheduler ≡ true → s.cancelled ≡ true

Outside-IsValid : {s t : Process} → Outside s t → IsValid s → IsValid t
Outside-IsValid (interrupt s c) v = record {
  served = v.served;
  joined = v.joined;
  shut = v.shut;
  closed = v.closed;
  cancelled = λ h. refl;
}
Outside-IsValid (serve_fails s e h) v = record {
  served = ground (arith, v.served);
  joined = v.joined;
  shut = v.shut;
  closed = v.closed;
  cancelled = v.cancelled;
}
Outside-IsValid (scheduler_fails s e h) v = record {
  served = v.served;
  joined = ground (arith, v.joined);
  shut = v.shut;
  closed = v.closed;
  cancelled = λ f. ground arith;
}

pub own-IsValid : {s t : Process} → Own s t → IsValid s → IsValid t
own-IsValid (serve_closes s h c) v = record {
  served = ground (arith, v.served);
  joined = v.joined;
  shut = v.shut;
  closed = v.closed;
  cancelled = v.cancelled;
}
own-IsValid (scheduler_cancels s e h) v = record {
  served = v.served;
  joined = ground (arith, v.joined);
  shut = v.shut;
  closed = v.closed;
  cancelled = λ f. refl;
}
own-IsValid (scheduler_sends s e h) v = record {
  served = v.served;
  joined = ground (arith, v.joined);
  shut = v.shut;
  closed = v.closed;
  cancelled = λ f. ground arith;
}
own-IsValid (scheduler_ends s h c) v = record {
  served = v.served;
  joined = ground (arith, v.joined);
  shut = v.shut;
  closed = v.closed;
  cancelled = λ f. ground arith;
}
own-IsValid (select_serve s r h c) v = record {
  served = refl;
  joined = ground (arith, v.joined);
  shut = λ p. ground arith;
  closed = λ p. ground arith;
  cancelled = v.cancelled;
}
own-IsValid (select_done s h c) v = record {
  served = ground (arith, v.served);
  joined = ground (arith, v.joined);
  shut = λ p. ground arith;
  closed = λ p. refl;
  cancelled = v.cancelled;
}
own-IsValid (shut_down s a b h) v = record {
  served = ground (arith, v.served);
  joined = ground (arith, v.joined);
  shut = λ p. ground arith;
  closed = λ p. v.closed (ground arith);
  cancelled = v.cancelled;
}
own-IsValid (receive_serve s es r h c) v = record {
  served = refl;
  joined = ground (arith, v.joined);
  shut = λ p. ground arith;
  closed = λ p. ground arith;
  cancelled = v.cancelled;
}
own-IsValid (shut_queue s es h) v = record {
  served = ground (arith, v.served);
  joined = ground (arith, v.joined);
  shut = λ p. refl;
  closed = λ p. ground arith;
  cancelled = v.cancelled;
}
own-IsValid (receive_scheduler s es o h c) v = record {
  served = ground (arith, v.served);
  joined = refl;
  shut = λ p. v.shut (ground arith);
  closed = λ p. ground arith;
  cancelled = λ f. ground arith;
}

pub Steps-IsValid : {n : ℕ} {s : Process} → Steps n s → IsValid s
Steps-IsValid start = record {
  served = refl;
  joined = refl;
  shut = λ p. ground arith;
  closed = λ p. ground arith;
  cancelled = λ p. ground arith;
}
Steps-IsValid (outside before step) = Outside-IsValid step (Steps-IsValid before)
Steps-IsValid (own before step) = own-IsValid step (Steps-IsValid before)
