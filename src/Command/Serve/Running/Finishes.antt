-- ===== src/Command/Serve/Running/Finishes.antt =====
-- Once it must end, the process of cmd/hambo-server/serve.go ends by itself.
use hambo.Base.{
  ℕ, zero, suc, ◌≤◌, Bool, true, false, not, ◌||◌, List, none, Error, ◌≡◌, ◌⊎◌, inl, inr, refl,
  arith, Bool-cases,
}
use hambo.Command.Serve.Running.{
  Serving, serving, serve_sent, serve_received, Scheduling, scheduling, failed, cancelling,
  schedule_sent, schedule_received, Main, selecting, shutting_down, receiving, stopping, waiting,
  returned, Process, Outside, interrupt, serve_fails, scheduler_fails, Own, serve_closes,
  scheduler_cancels, scheduler_sends, scheduler_ends, select_serve, select_done, shut_down,
  receive_serve, shut_queue, receive_scheduler, Steps, outside, own,
}
use hambo.Command.Serve.Running.Valid.{IsValid, own-IsValid, Steps-IsValid, is_over}
use hambo.Command.Serve.Running.Ends.{left, own-left}

abbrev pub is_selecting : Main → Bool
is_selecting selecting = true
is_selecting shutting_down = false
is_selecting (receiving es) = false
is_selecting (stopping es) = false
is_selecting (waiting es) = false
is_selecting (returned es) = false

abbrev pub has_ended : Serving → Bool
has_ended (serve_sent r) = true
has_ended (serve_received r) = true
has_ended serving = false

abbrev pub is_failing : Scheduling → Bool
is_failing (failed e) = true
is_failing (cancelling e) = true
is_failing (schedule_sent o) = false
is_failing (schedule_received o) = false
is_failing scheduling = false

-- The context is done, `ServeTLS` has ended, the scheduler has failed, or the end has begun.
abbrev pub must_end : Process → Bool
must_end s = s.cancelled || has_ended s.serve || is_failing s.scheduler || not (is_selecting s.main)

own-must_end : {s t : Process} → Own s t → IsValid s → must_end s ≡ true → must_end t ≡ true
own-must_end (serve_closes s h c) v m = ground arith
own-must_end (scheduler_cancels s e h) v m = ground arith
own-must_end (scheduler_sends s e h) v m = ground (arith, v.cancelled (ground arith))
own-must_end (scheduler_ends s h c) v m = ground arith
own-must_end (select_serve s r h c) v m = ground arith
own-must_end (select_done s h c) v m = ground arith
own-must_end (shut_down s a b h) v m = ground arith
own-must_end (receive_serve s es r h c) v m = ground arith
own-must_end (shut_queue s es h) v m = ground arith
own-must_end (receive_scheduler s es o h c) v m = ground arith

abbrev Next : Process → Type 0
Next s = (is_over s.main ≡ true) ⊎ ((t : Process) × Own s t)

-- While the serving goroutine has not been received from, it can be, once the server is shut down.
serves :
    (s : Process) (es : List Error) (v : Serving)
    → s.main ≡ receiving es
    → s.serve ≡ v
    → IsValid s
    → Next s
serves s es serving m e v = inr (_, serve_closes s e (v.closed (ground arith)))
serves s es (serve_sent r) m e v = inr (_, receive_serve s es r m e)
serves s es (serve_received r) m e v = absurd (ground (arith, v.served))

joins :
    (s : Process) (es : List Error) (c : Scheduling)
    → s.main ≡ waiting es
    → s.scheduler ≡ c
    → IsValid s
    → Next s
joins s es scheduling m e v = inr (_, scheduler_ends s e (v.shut (ground arith)))
joins s es (failed x) m e v = inr (_, scheduler_cancels s x e)
joins s es (cancelling x) m e v = inr (_, scheduler_sends s x e)
joins s es (schedule_sent o) m e v = inr (_, receive_scheduler s es o m e)
joins s es (schedule_received o) m e v = absurd (ground (arith, v.joined))

selects :
    (s : Process) (r : Serving) (c : Scheduling)
    → s.main ≡ selecting
    → s.serve ≡ r
    → s.scheduler ≡ c
    → s.cancelled ≡ false
    → must_end s ≡ true
    → IsValid s
    → Next s
selects s (serve_sent x) c m e f n t v = inr (_, select_serve s x m e)
selects s (serve_received x) c m e f n t v = absurd (ground (arith, v.served))
selects s serving (failed x) m e f n t v = inr (_, scheduler_cancels s x f)
selects s serving (cancelling x) m e f n t v = inr (_, scheduler_sends s x f)
selects s serving scheduling m e f n t v = absurd (ground arith)
selects s serving (schedule_sent o) m e f n t v = absurd (ground arith)
selects s serving (schedule_received o) m e f n t v = absurd (ground arith)

Next-at : (s : Process) (m : Main) → s.main ≡ m → must_end s ≡ true → IsValid s → Next s
Next-at s selecting m t v = elim (Bool-cases s.cancelled) [
  | inl c ↦ inr (_, select_done s m c)
  | inr c ↦ selects s s.serve s.scheduler m refl refl c t v
]
Next-at s shutting_down m t v = inr (_, shut_down s none none m)
Next-at s (receiving es) m t v = serves s es s.serve m refl v
Next-at s (stopping es) m t v = inr (_, shut_queue s es m)
Next-at s (waiting es) m t v = joins s es s.scheduler m refl v
Next-at s (returned es) m t v = inl (ground arith)

-- A run of own steps.
pub data OwnRun : Process → Process → Type 0 where
  done : (s : Process) → OwnRun s s
  next : {s t u : Process} → Own s t → OwnRun t u → OwnRun s u

over_errors : (m : Main) → is_over m ≡ true → (errors : List Error) × (m ≡ returned errors)
over_errors (returned errors) h = (errors, refl)
over_errors selecting h = absurd (ground arith)
over_errors shutting_down h = absurd (ground arith)
over_errors (receiving es) h = absurd (ground arith)
over_errors (stopping es) h = absurd (ground arith)
over_errors (waiting es) h = absurd (ground arith)

abbrev Finish : Process → Type 0
Finish s = (t : Process) × (errors : List Error) × OwnRun s t × (t.main ≡ returned errors)

finish : (n : ℕ) (s : Process) → left s ≤ n → IsValid s → must_end s ≡ true → Finish s
finish zero s small v m = elim (Next-at s s.main refl m v) [
  | inl over ↦ let is = over_errors s.main over in (s, is.0, done s, is.1)
  | inr (t, step) ↦ absurd (omega (arith, own-left step, small))
]
finish (suc n) s small v m = elim (Next-at s s.main refl m v) [
  | inl over ↦ let is = over_errors s.main over in (s, is.0, done s, is.1)
  | inr (t, step) ↦
      let rest =
        finish n t (omega (arith, own-left step, small)) (own-IsValid step v)
          (own-must_end step v m) in
      (rest.0, rest.1, next step rest.2, rest.3)
]

-- What follows: any steps, of the goroutines and from outside.
pub data Later : Process → Process → Type 0 where
  here : {s : Process} → Later s s
  from_outside : {s t u : Process} → Later s t → Outside t u → Later s u
  by_own : {s t u : Process} → Later s t → Own t u → Later s u

Later-Steps : {n : ℕ} {s t : Process} → Later s t → Steps n s → (m : ℕ) × Steps m t
Later-Steps here run = (_, run)
Later-Steps (from_outside before step) run = (_, outside (Later-Steps before run).1 step)
Later-Steps (by_own before step) run = (_, own (Later-Steps before run).1 step)

Outside-must_end : {s t : Process} → Outside s t → must_end t ≡ true
Outside-must_end (interrupt s c) = refl
Outside-must_end (serve_fails s e h) = ground arith
Outside-must_end (scheduler_fails s e h) = ground arith

Later-must_end :
    {n : ℕ} {s t : Process} → Later s t → Steps n s → must_end s ≡ true → must_end t ≡ true
Later-must_end here run m = m
Later-must_end (from_outside before step) run m = Outside-must_end step
Later-must_end (by_own before step) run m =
    own-must_end step (Steps-IsValid (Later-Steps before run).1) (Later-must_end before run m)

-- In every state that `run` can come to, once the context is done, `ServeTLS` has ended or the
-- scheduler has failed, and whatever steps the goroutines take and whatever else comes from outside
-- after that, in any order, the goroutines' own steps lead to the return of `run`: nothing blocks.
pub Steps-finishes :
    {n : ℕ} (s t : Process)
    → Steps n s
    → must_end s ≡ true
    → Later s t
    → (u : Process) × (errors : List Error) × OwnRun t u × (u.main ≡ returned errors)
unfolding left
Steps-finishes s t run m later =
    finish (left t) t (omega arith) (Steps-IsValid (Later-Steps later run).1)
      (Later-must_end later run m)
