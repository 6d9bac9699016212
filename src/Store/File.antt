-- ===== src/Store/File.antt =====
-- `Open` and `Close` of internal/store/store.go, over what bbolt answers.
use hambo.Base.{Bool, Option, Result, ok, err, failure, if◌then◌else◌, or_fail}

unfoldable pub open_store : {Db : Type 0} → Option Db → Result Db
open_store db = or_fail db (failure "open bolt database")

unfoldable pub close_store : Bool → Result (Unit {0})
close_store closes = if closes then ok tt else err (failure "close bolt database")
