-- ===== src/Tests/Requests.antt =====
-- Requests for containers and tokens, and what a node is sent.
use hambo.Base.{String, false, List, [], ◌∷◌, ◌≡◌, refl, ok, dec_string, some, Option, arith}
use hambo.Base.Int.{ℤ, pos}
use hambo.Store.{Entry, UniqueKeys, find_entry}
use hambo.Store.Memory.{find, erase, put, entries}
use hambo.Store.Collection.{get_tx, list_tx, decode_all, decode_entry}
use hambo.Store.Collection
use hambo.Store.Tx.{write_tx, view}
use hambo.Model.Container.{Container, running, pending}
use hambo.Token.{Token}
use hambo.Watch.{new_node_watcher, is_closed, watch, channel_of, forget, notify}
use hambo.Watch.Valid.{Call, watches, notifies, run, apply}
use hambo.Watch.Wakeups.{notified}
use hambo.Api.Http.{
  Incoming, value, end_of_input, too_large, read_json, write_json, write_error_json,
}
use hambo.Api.Containers.{created, has_name, create_tx}
use hambo.Api.Report.{ReportNodeStatusRequest}
use hambo.Api.Report.Handler.{report_handler, report_handler-failed}
use hambo.Api.Tokens.{create_token_handler, lifetime, create_token_tx}
use hambo.Api.Tokens.Lifetime.{Stored, create_token_handler-Stored}
use hambo.Api.WatchNode.{assignment, snapshot, round}
use hambo.Api.WatchNode.Snapshot.{round-wakes}
use hambo.Tests.Fixtures.{Db, collections, collections-AreLawful, no_faults, container_on, busy_db}

abbrev pub new : Container
new = created "c3" (record { name = "web"; image = "busybox" }) 110

abbrev pub created_db : Db
created_db = record busy_db {
  containers = some (
      ("c3", new)
      ∷ ("c1", container_on "c1" "a" running)
      ∷ ("c2", container_on "c2" "" pending)
      ∷ []);
}

pub created_db-reached : create_tx collections new busy_db ≡ ok (tt, created_db)
unfolding create_tx has_name list_tx decode_all decode_entry Collection.create_tx find put erase
    entries dec_string
created_db-reached = refl

abbrev an_hour : String → Option ℤ
an_hour s = some (pos 3600000000000)

abbrev hash : String → String
hash s = s

abbrev generated : Token
generated = record { ca_fingerprint = "f"; secret = "s" }

abbrev token_request : Incoming String
token_request = record {
  media_type = some "application/json";
  first = value "1h";
  rest = end_of_input;
}

create_token_handler-Stored_example :
    Stored collections an_hour hash 110 generated
      (create_token_handler collections an_hour hash no_faults 110
        (ok generated)
        token_request
        busy_db).0
      busy_db
      (create_token_handler collections an_hour hash no_faults 110
        (ok generated)
        token_request
        busy_db).1
unfolding create_token_handler lifetime create_token_tx read_json write_json write_tx
    Collection.create_tx find put erase dec_string
create_token_handler-Stored_example =
    create_token_handler-Stored collections an_hour hash collections-AreLawful no_faults 110
      generated token_request busy_db refl

abbrev oversized : Incoming ReportNodeStatusRequest
oversized = record { media_type = some "application/json"; first = too_large; rest = end_of_input }

report_handler-failed_example :
    (report_handler hash collections no_faults 110 (some "a") oversized busy_db).1 ≡ busy_db
unfolding report_handler read_json write_error_json write_json dec_string
report_handler-failed_example =
    report_handler-failed hash collections no_faults 110 (some "a") oversized busy_db
      (λ e. absurd (omega (arith, e)))

abbrev listing : List (Entry Container)
listing =
    record { key = "c1"; value = container_on "c1" "a" running }
    ∷ record { key = "c2"; value = container_on "c2" "" pending }
    ∷ []

listing-UniqueKeys : UniqueKeys listing
unfolding find_entry dec_string
listing-UniqueKeys = (refl, (refl, tt))

abbrev before : List Call
before = watches "a" ∷ notifies "a" ∷ []

abbrev after : List Call
after = watches "b" ∷ notifies "a" ∷ []

round-wakes_example :
    is_closed 1
      (run after
        (round collections no_faults false "a" (run before new_node_watcher) busy_db).1).closed
    ≡ notified "a" after
unfolding round run apply watch notify channel_of forget view list_tx decode_all decode_entry
    entries erase snapshot dec_string
round-wakes_example =
    round-wakes collections no_faults false "a" before after busy_db
      (assignment (container_on "c1" "a" running) ∷ []) 1 refl
