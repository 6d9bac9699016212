-- ===== src/Tests/Servers.antt =====
-- A server that enrolls a node.
use hambo.Base.{differ, String, refl, Option, none, dec_string, arith}
use hambo.Base.Int.{ℤ}
use hambo.Store.Memory.{find}
use hambo.Store.Collection.{get_tx}
use hambo.Scheduler.Effect.{HasNames}
use hambo.Server.{creates_container, joins, Reach, here, next}
use hambo.Server.Named.{AreNamed, Reach-HasNames}
use hambo.Tests.Joins.{issue, answered, joined_db, joined_db-reached, request}
use hambo.Model.Names.{HasUniqueNames}
use hambo.Server.Unique.{Reach-HasUniqueNames}
use hambo.Tests.Requests.{new, created_db, created_db-reached}
use hambo.Tests.Fixtures.{collections, collections-AreLawful, busy_db}

abbrev no_duration : String → Option ℤ
no_duration s = none

abbrev hash : String → String
hash s = s

busy_db-AreNamed : AreNamed collections busy_db
unfolding get_tx find
busy_db-AreNamed k n h = elim (dec_string "a" k) [
  | yes same ↦ ground (arith, differ "a" "" (unfold dec_string in refl))
  | no other_id ↦ elim (dec_string "b" k) [
    | yes same ↦ ground (arith, differ "b" "" (unfold dec_string in refl))
    | no another ↦ absurd (ground arith)
  ]
]

one_step : Reach collections issue no_duration hash busy_db joined_db
one_step = next here (
    joins 110 "n" "h" "r" request answered (differ "n" "" (unfold dec_string in refl))
      joined_db-reached)

Reach-HasNames_example : AreNamed collections joined_db × HasNames collections joined_db
Reach-HasNames_example =
    Reach-HasNames collections collections-AreLawful issue no_duration hash busy_db-AreNamed
      one_step

busy_db-HasUniqueNames : HasUniqueNames collections busy_db.containers
unfolding get_tx find
busy_db-HasUniqueNames j k a b ga gb same =
    ground (arith, differ "c1" "c2" (unfold dec_string in refl))

creation : Reach collections issue no_duration hash busy_db created_db
creation = next here (creates_container new created_db-reached)

Reach-HasUniqueNames_example : HasUniqueNames collections created_db.containers
Reach-HasUniqueNames_example =
    Reach-HasUniqueNames collections collections-AreLawful issue no_duration hash
      busy_db-HasUniqueNames creation
