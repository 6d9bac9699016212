-- ===== src/Command/Serve.antt =====
-- `run` of cmd/hambo-server/serve.go: what it acquires, in which order, and gives back on each way
-- out. What its three goroutines do in between is in Command/Serve/Running.
pub mod Released
pub mod Running
use hambo.Base.{
  Bool, true, false, not, List, [], ◌∷◌, ◌++◌, Option, none, some, Result, ok, err, Error, failure,
  if◌then◌else◌,
}
use hambo.Resources.{
  Traced, database, queue_shut_down, listener, run_context, after, hold, defer_shutdown,
}
use hambo.SqliteStore.{SqliteCalls, create_tables, with_store}

-- What the calls answer, in their order: the CA is loaded, the directory of the database made, the
-- database opened, and so on. `close_db` is the error of closing the database, if any; `served` are
-- the errors that the server and the scheduler end with.
pub record ServeCalls (CA Db Collection Handler : Type 0) : Type 0 where
  pub ca : Result CA
  pub makes_dir : Result (Unit {0})
  pub db : Result Db
  pub close_db : List Error
  pub sqlite : SqliteCalls
  pub nodes : Result Collection
  pub containers : Result Collection
  pub handler : CA → Db → Collection → Collection → Result Handler
  pub listens : Result (Unit {0})
  pub served : Handler → List Error

module _ {CA Db Collection Handler : Type 0} (calls : ServeCalls CA Db Collection Handler) where
  -- From the listener on: the server runs and ends, the queue is shut down, and the scheduler ends.
  unfoldable pub listening : Handler → Traced
  unfolding after hold
  listening handler =
      after calls.listens
        λ u. hold listener [] (hold run_context [] (queue_shut_down ∷ [], calls.served handler))

  -- From the queue on, which is shut down once more at the end.
  unfoldable pub scheduling : CA → Db → Collection → Collection → Traced
  unfolding after defer_shutdown listening
  scheduling ca db nodes containers =
      defer_shutdown (after (calls.handler ca db nodes containers) listening)

  -- From the open database on.
  unfoldable pub with_db : CA → Db → Traced
  unfolding after with_store create_tables scheduling
  with_db ca db = with_store calls.sqlite (
      after (create_tables calls.sqlite) λ t.
        after calls.nodes
          λ nodes. after calls.containers λ containers. scheduling ca db nodes containers)

  unfoldable pub run : Traced
  unfolding after hold with_db
  run = after calls.ca λ ca.
      after calls.makes_dir λ m. after calls.db λ db. hold database calls.close_db (with_db ca db)
