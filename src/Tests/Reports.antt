-- ===== src/Tests/Reports.antt =====
-- A node reports its containers.
use hambo.Base.{◌≤◌, true, List, [], ◌∷◌, ◌≡◌, refl, ok, dec_string, some, none, ◌⊎◌}
use hambo.Base.Int.{pos}
use hambo.Store.Memory.{find, erase, put}
use hambo.Store.Collection.{get_tx, update_tx}
use hambo.Model.Container.{Container, running, exited, pending}
use hambo.Api.Report.{
  ContainerStatusReport, ReportNodeStatusRequest, apply_reports, apply_report, is_backward,
  report_tx, reported, seen,
}
use hambo.Api.Report.Progress.{Progress, apply_reports-Progress}
use hambo.Api.Report.Sequence.{Reported, report_tx-lem}
use hambo.Tests.Fixtures.{Db, collections, collections-AreLawful, node_named, container_on, busy_db}

abbrev exit_report : ContainerStatusReport
exit_report = record {
  id = "c1";
  state = exited;
  exit_code = some (pos 3);
  reason = "Failed";
  message = "";
}

-- It comes after the report above, and is not recorded.
abbrev late_report : ContainerStatusReport
late_report = record exit_report { state = running; exit_code = none }

abbrev reports : List ContainerStatusReport
reports = exit_report ∷ late_report ∷ []

abbrev ran : Container
ran = container_on "c1" "a" running

abbrev report : ReportNodeStatusRequest
report = record { session_id = "s1"; sequence = 5; runtime_ready = true; containers = reports }

abbrev reported_db : Db
reported_db = record busy_db {
  nodes = some (("a", seen collections 110 report (node_named "a")) ∷ ("b", node_named "b") ∷ []);
  containers = some (("c1", reported ran exit_report) ∷ ("c2", container_on "c2" "" pending) ∷ []);
}

applied : apply_reports collections "a" reports busy_db.containers ≡ ok reported_db.containers
unfolding apply_reports apply_report get_tx update_tx find put erase dec_string is_backward
applied = refl

found : collections.containers.get_tx "c1" busy_db.containers ≡ ok ran
unfolding get_tx find dec_string
found = refl

apply_reports-Progress_example : Progress collections "a" busy_db.containers reported_db.containers
apply_reports-Progress_example =
    apply_reports-Progress collections collections-AreLawful "a" reports busy_db.containers
      reported_db.containers (tt, (tt, tt)) applied

accepted : report_tx collections 110 "a" report busy_db ≡ ok reported_db
unfolding report_tx get_tx update_tx find put erase dec_string apply_reports apply_report
    is_backward
accepted = refl

known : collections.nodes.get_tx "a" busy_db.nodes ≡ ok (node_named "a")
unfolding get_tx find dec_string
known = refl

report_tx-lem_example :
    (report.session_id ≡ "s1")
    × (((report.sequence ≤ 4) × (reported_db ≡ busy_db))
        ⊎ Reported collections 110 "a" report (node_named "a") busy_db reported_db)
report_tx-lem_example =
    report_tx-lem collections collections-AreLawful 110 "a" report (node_named "a") busy_db
      reported_db known accepted
