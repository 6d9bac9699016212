-- ===== src/Command/Serve/Released.antt =====
-- What `run` of cmd/hambo-server/serve.go gives back.
use hambo.Base.{
  List, [], ◌∷◌, ok, err, Error, ◌≡◌, arith, Bool-cases, inl, inr, subst, ◌⊎◌, failure,
}
use hambo.Resources.{
  Event, acquired, released, Traced, database, queue_shut_down, listener, run_context, write_db,
  read_db, after, hold,
}
use hambo.Resources.Balanced.{
  Balanced, quiet, shuts, held, hold-Balanced, defer_shutdown-Balanced, after-Balanced,
  both-Balanced,
}
use hambo.SqliteStore.{
  SqliteCalls, open_sqlite, close_sqlite, create_tables, with_store, close_after,
}
use hambo.Command.Serve.{ServeCalls, listening, scheduling, with_db, run}

-- Opening fails with both handles given back, or leaves both.
open_sqlite_cases :
    (calls : SqliteCalls)
    → ((events : List Event) × (e : Error) × (open_sqlite calls ≡ (events, err e))
        × Balanced events)
      ⊎ (open_sqlite calls ≡ (acquired write_db ∷ acquired read_db ∷ [], ok tt))
unfolding open_sqlite
open_sqlite_cases calls = elim (Bool-cases calls.opens_write) [
  | inr w ↦ inl ([], failure "open the writing handle", ground arith, quiet)
  | inl w ↦ elim (Bool-cases calls.pings_write) [
    | inr p ↦ inl (
      acquired write_db ∷ released write_db ∷ [],
      failure "ping the writing handle",
      ground arith,
      held write_db [] [] quiet quiet,
    )
    | inl p ↦ elim (Bool-cases calls.opens_read) [
      | inr r ↦ inl (
        acquired write_db ∷ released write_db ∷ [],
        failure "open the reading handle",
        ground arith,
        held write_db [] [] quiet quiet,
      )
      | inl r ↦ elim (Bool-cases calls.pings_read) [
        | inr q ↦ inl (
          acquired write_db ∷ acquired read_db ∷ released read_db ∷ released write_db ∷ [],
          failure "ping the reading handle",
          ground arith,
          both-Balanced write_db read_db [] quiet,
        )
        | inl q ↦ inr (ground arith)
      ]
    ]
  ]
]

with_store-Balanced :
    (calls : SqliteCalls) (rest : Traced) → Balanced rest.0 → Balanced (with_store calls rest).0
unfolding with_store close_after close_sqlite
with_store-Balanced calls (later, errors) b = elim (open_sqlite_cases calls) [
  | inl (events, e, is, quiet_events) ↦ subst Balanced (ground arith) quiet_events
  | inr is ↦ subst Balanced (ground arith) (both-Balanced write_db read_db later b)
]

module _ {CA Db Collection Handler : Type 0} (calls : ServeCalls CA Db Collection Handler) where
  listening-Balanced : (handler : Handler) → Balanced (listening calls handler).0
  unfolding listening
  listening-Balanced handler =
      after-Balanced calls.listens
        (λ u. hold listener [] (hold run_context [] (queue_shut_down ∷ [], calls.served handler)))
        λ u.
          hold-Balanced listener []
            (hold run_context [] (queue_shut_down ∷ [], calls.served handler))
            (hold-Balanced run_context [] (queue_shut_down ∷ [], calls.served handler)
              (shuts [] quiet))

  scheduling-Balanced :
      (ca : CA) (db : Db) (nodes containers : Collection)
      → Balanced (scheduling calls ca db nodes containers).0
  unfolding scheduling
  scheduling-Balanced ca db nodes containers =
      defer_shutdown-Balanced (after (calls.handler ca db nodes containers) (listening calls))
        (after-Balanced (calls.handler ca db nodes containers) (listening calls) listening-Balanced)

  with_db-Balanced : (ca : CA) (db : Db) → Balanced (with_db calls ca db).0
  unfolding with_db
  with_db-Balanced ca db = with_store-Balanced calls.sqlite _ (
      after-Balanced (create_tables calls.sqlite) _ λ t. after-Balanced calls.nodes _ λ nodes.
        after-Balanced calls.containers _ λ containers. scheduling-Balanced ca db nodes containers)

  -- On every way out of `run`, each resource that it acquired, the two handles on the SQLite file
  -- included, was given back, once and after all that was acquired later; the queue is none.
  pub run-Balanced : Balanced (run calls).0
  unfolding run
  run-Balanced = after-Balanced calls.ca _ λ ca. after-Balanced calls.makes_dir _ λ m.
      after-Balanced calls.db _
        λ db. hold-Balanced database calls.close_db (with_db calls ca db) (with_db-Balanced ca db)
