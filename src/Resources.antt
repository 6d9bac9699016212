-- ===== src/Resources.antt =====
-- What the processes of cmd/hambo-server/serve.go and internal/worker/start.go acquire and give back,
-- as a trace. A call of `Shutdown` on the queue may come twice, and is an event of its own.
pub mod Balanced
use hambo.Base.{
  Bool, true, false, not, List, [], ◌∷◌, ◌++◌, Option, none, some, Result, ok, err, Error,
  if◌then◌else◌,
}

pub data Resource : Type 0 where
  database write_db read_db listener run_context : Resource
  data_dir_lock api_client docker_client : Resource

pub data Event : Type 0 where
  acquired released : Resource → Event
  queue_shut_down : Event

-- What happened, and the errors that were joined, none for nil.
abbrev pub Traced : Type 0
Traced = List Event × List Error

-- An early return with an error.
abbrev pub stopped : Error → Traced
stopped e = ([], e ∷ [])

-- `if err != nil { return err }`, and what follows.
unfoldable pub after : {T : Type 0} → Result T → (T → Traced) → Traced
after (err e) next = stopped e
after (ok v) next = next v

-- What follows an acquisition, with a deferred release whose error is joined.
unfoldable pub hold : Resource → List Error → Traced → Traced
hold r close_errors (events, errors) =
    (acquired r ∷ events ++ released r ∷ [], errors ++ close_errors)

-- What follows, with the deferred `Shutdown` of the queue.
unfoldable pub defer_shutdown : Traced → Traced
defer_shutdown (events, errors) = (events ++ queue_shut_down ∷ [], errors)
