-- ===== src/Worker/Watch.antt =====
-- `runWatch` and `Run` of internal/worker/worker.go.
pub mod Refused
use hambo.Base.{
  ℕ, ◌*◌, String, Bool, true, false, not, ◌||◌, List, [], ◌∷◌, ◌++◌, Option, none, some, Result, ok,
  err, Error, errdef, failure, unauthenticated, permission_denied, missing, if◌then◌else◌,
}
use hambo.Model.Node.{second}
use hambo.Client.{Exchange, do_call}
use hambo.Client.Connect.{open_stream_reader}

abbrev pub watch_retry_delay : ℕ
watch_retry_delay = 10 * second

-- What one read of the stream meets: its error, if it fails, and whether the context is over after
-- it. A snapshot is logged, with the containers that Docker lists.
pub record Read : Type 0 where
  pub result : Result (Unit {0})
  pub over_after : Bool

-- What one connection meets: whether the context is over before it, its answer, its reads, and
-- whether the context is over after them and at the end of the delay.
pub record Connection : Type 0 where
  pub over_at_start : Bool
  pub opened : Exchange (Unit {0})
  pub reads : List Read
  pub over_after : Bool
  pub over_after_delay : Bool

-- How the reads end: by an error, by the end of the context, or not so far.
pub data Reading : Type 0 where
  broken : Error → Reading
  over : Reading
  open_still : Reading

unfoldable pub read_on : Read → Reading → Reading
read_on r later = elim r.result [ err e ↦ broken e | ok u ↦ if r.over_after then over else later ]

unfoldable pub read_all : List Read → Reading
unfolding read_on
read_all [] = open_still
read_all (r ∷ rs) = let later = read_all rs in read_on r later

unfoldable pub is_refusal : Error → Bool
is_refusal (errdef unauthenticated m) = true
is_refusal (errdef permission_denied m) = true
is_refusal (errdef missing m) = true
is_refusal e = false

-- How the loop ends; `reconnects` is the loop before its next connection, and `reads_on` the loop
-- that waits for a snapshot.
pub data WatchEnding : Type 0 where
  stops : WatchEnding
  fails : Error → WatchEnding
  reconnects : WatchEnding
  reads_on : WatchEnding

-- What follows a connection that failed or ended.
unfoldable pub after_failure : Connection → Error → WatchEnding
unfolding is_refusal
after_failure c e =
    if c.over_after
    then stops
    else if is_refusal e
    then fails e
    else if c.over_after_delay
    then stops
    else reconnects

-- A context that was over in the reads stays over.
unfoldable pub after_reading : Connection → Reading → WatchEnding
unfolding after_failure
after_reading c (broken e) = after_failure c e
after_reading c over = stops
after_reading c open_still = reads_on

unfoldable pub after_opening : Connection → Result (Unit {0}) → WatchEnding
unfolding after_reading read_all after_failure
after_opening c (err e) = after_failure c e
after_opening c (ok u) = after_reading c (read_all c.reads)

unfoldable pub watch_once : Connection → WatchEnding
unfolding after_opening open_stream_reader
watch_once c = if c.over_at_start then stops else after_opening c (open_stream_reader c.opened)

-- The connections that the loop meets, one after another.
unfoldable pub run_watch : List Connection → WatchEnding
unfolding watch_once
run_watch [] = reconnects
run_watch (c ∷ cs) =
    let later = run_watch cs in
    elim (watch_once c) [
      | stops ↦ stops
      | fails e ↦ fails e
      | reconnects ↦ later
      | reads_on ↦ reads_on
    ]

-- `errors.Join` of what the two loops return, in the order in which they end.
unfoldable pub joined_errors : Option Error → Option Error → List Error
joined_errors none none = []
joined_errors none (some e) = e ∷ []
joined_errors (some e) none = e ∷ []
joined_errors (some e) (some f) = e ∷ f ∷ []

-- `Run`: whether the context is over after the call that creates the session, and what the two loops
-- return in the session, with which of them ends first.
unfoldable pub run : Exchange String → Bool → (String → Option Error × Option Error) → List Error
unfolding joined_errors do_call
run session over_after_session loops = if over_after_session then [] else elim (do_call session) [
  | err e ↦ e ∷ []
  | ok session_id ↦ let (first, second) = loops session_id in joined_errors first second
]
