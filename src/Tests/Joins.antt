-- ===== src/Tests/Joins.antt =====
-- A node enrolls with a token, and a worker begins a session.
use hambo.Base.{
  differ, ℕ, String, true, List, [], ◌∷◌, ◌≡◌, refl, Result, ok, err, dec_string, some, arith,
}
use hambo.Store.Memory.{find, erase, put}
use hambo.Store.Collection.{get_tx, update_tx, create_tx}
use hambo.Model.Token.{expired}
use hambo.Api.Join.{
  JoinNodeRequest, Joined, other_request, enrolled, fresh_node, enroll, use_token, join_tx,
}
use hambo.Api.Join.Enroll.{Enrolled, join_tx-enrolls}
use hambo.Api.Join.Retry.{join_tx-single_use}
use hambo.Api.Report.{ReportNodeStatusRequest}
use hambo.Api.Session.{renewed, session_tx}
use hambo.Tests.Fixtures.{Db, collections, collections-AreLawful, node_named, busy_db, unused_token}

abbrev pub issue : ℕ → String → List ℕ → Result String
issue now node_id csr = ok "cert"

abbrev pub request : JoinNodeRequest
request = record { name = "worker"; csr = 1 ∷ [] }

abbrev other_worker : JoinNodeRequest
other_worker = record { name = "other"; csr = 2 ∷ [] }

abbrev pub answered : Joined
answered = record { status_code = 201; response = record { node_id = "n"; certificate = "cert" } }

abbrev pub joined_db : Db
joined_db = record busy_db {
  nodes = some (("n", fresh_node "n" request) ∷ ("a", node_named "a") ∷ ("b", node_named "b") ∷ []);
  tokens = some (("h", record unused_token { enrollment = some (enrolled "r" "n" "cert") }) ∷ []);
}

pub joined_db-reached :
    join_tx collections issue 110 "n" "h" "r" request busy_db ≡ ok (answered, joined_db)
unfolding join_tx enroll use_token expired get_tx create_tx update_tx find put erase dec_string
joined_db-reached = refl

pub unused : collections.tokens.get_tx "h" busy_db.tokens ≡ ok unused_token
unfolding get_tx find dec_string
unused = refl

join_tx-enrolls_example :
    Enrolled collections issue "n" "h" "r" request unused_token answered busy_db joined_db
join_tx-enrolls_example =
    join_tx-enrolls collections issue collections-AreLawful 110 "n" "h" "r" request unused_token
      answered busy_db joined_db unused refl joined_db-reached

join_tx-single_use_example :
    join_tx collections issue 120 "k" "h" "q" other_worker joined_db ≡ err other_request
unfolding dec_string
join_tx-single_use_example =
    join_tx-single_use collections issue collections-AreLawful 110 120 "n" "k" "h" "r" "q" request
      other_worker answered busy_db joined_db unused_token unused (omega arith)
      (differ "q" "r" refl) joined_db-reached

abbrev session_db : Db
session_db = record busy_db {
  nodes = some (("a", renewed "s2" (node_named "a")) ∷ ("b", node_named "b") ∷ []);
}

abbrev old_report : ReportNodeStatusRequest
old_report = record { session_id = "s1"; sequence = 9; runtime_ready = true; containers = [] }

session_db-reached : session_tx collections "a" "s2" busy_db ≡ ok (tt, session_db)
unfolding session_tx get_tx update_tx find put erase dec_string
session_db-reached = refl
