-- ===== src/SqliteStore.antt =====
-- internal/sqlitestore/store.go: two handles on one SQLite file, over what database/sql answers.
use hambo.Base.{Bool, not, List, [], ◌∷◌, ◌++◌, Result, ok, err, failure, if◌then◌else◌}
use hambo.Resources.{Event, acquired, released, write_db, read_db, Traced}

-- Whether each handle can be opened and pinged, and whether the tables can be created.
pub record SqliteCalls : Type 0 where
  pub opens_write : Bool
  pub pings_write : Bool
  pub opens_read : Bool
  pub pings_read : Bool
  pub creates_tables : Bool

unfoldable pub open_sqlite : SqliteCalls → List Event × Result (Unit {0})
open_sqlite calls =
    if not calls.opens_write
    then ([], err (failure "open the writing handle"))
    else if not calls.pings_write
    then (acquired write_db ∷ released write_db ∷ [], err (failure "ping the writing handle"))
    else if not calls.opens_read
    then (acquired write_db ∷ released write_db ∷ [], err (failure "open the reading handle"))
    else if not calls.pings_read
    then (
      acquired write_db ∷ acquired read_db ∷ released read_db ∷ released write_db ∷ [],
      err (failure "ping the reading handle"),
    )
    else (acquired write_db ∷ acquired read_db ∷ [], ok tt)

-- `Close`, whose errors the one caller drops.
unfoldable pub close_sqlite : List Event
close_sqlite = released read_db ∷ released write_db ∷ []

unfoldable pub create_tables : SqliteCalls → Result (Unit {0})
create_tables calls = if calls.creates_tables then ok tt else err (failure "create tables")

-- From the opened store on, with its deferred `Close`.
unfoldable pub close_after : List Event × Result (Unit {0}) → Traced → Traced
unfolding close_sqlite
close_after (events, err e) rest = (events, e ∷ [])
close_after (events, ok done) (later, errors) = (events ++ later ++ close_sqlite, errors)

unfoldable pub with_store : SqliteCalls → Traced → Traced
unfolding open_sqlite close_after
with_store calls rest = close_after (open_sqlite calls) rest
