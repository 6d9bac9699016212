-- ===== src/Api/Report/Names.antt =====
-- The names of containers under a status report (internal/api/nodes.go).
use hambo.Base.{
  ℕ, String, List, [], ◌∷◌, ◌≡◌, refl, sym, arith, ok, Result-cases, Bool-cases, inl, inr,
  dec_string, ok-injective,
}
use hambo.Model.Container.{Container}
use hambo.Model.Database.{Database, Collections, AreLawful}
use hambo.Model.Names.{KeepsNames, KeepsNames-refl, KeepsNames-trans, update-KeepsNames}
use hambo.Api.Report.{
  ContainerStatusReport, ReportNodeStatusRequest, is_backward, reported, apply_report,
  apply_reports, apply_found, record_report, report_tx,
}
use hambo.Api.Report.Sequence.{report_tx-node, report_tx-lem}

module _ {N C T : Type 0} (c : Collections N C T) (lawful : AreLawful c) where
  record_report-KeepsNames :
      (node_id : String) (r : ContainerStatusReport) (current : Container) (s s' : C)
      → c.containers.get_tx r.id s ≡ ok current
      → record_report c node_id r current s ≡ ok s'
      → KeepsNames c s s'
  unfolding record_report
  record_report-KeepsNames node_id r current s s' found h =
      elim (dec_string current.node_id node_id) [
        | no foreign ↦ absurd (ground arith)
        | yes own ↦ elim (Bool-cases (is_backward current.state r.state)) [
          | inl back ↦ KeepsNames-refl c s s' (ground arith)
          | inr onward ↦
              update-KeepsNames c lawful r.id current (reported current r) s s' found refl
                (ground arith)
        ]
      ]

  apply_report-KeepsNames :
      (node_id : String) (r : ContainerStatusReport) (s s' : C)
      → apply_report c node_id r s ≡ ok s'
      → KeepsNames c s s'
  unfolding apply_report apply_found
  apply_report-KeepsNames node_id r s s' h = elim (Result-cases (c.containers.get_tx r.id s)) [
    | inr (e, p) ↦ KeepsNames-refl c s s' (ground arith)
    | inl (current, p) ↦ record_report-KeepsNames node_id r current s s' p (ground arith)
  ]

  apply_reports-KeepsNames :
      (node_id : String) (rs : List ContainerStatusReport) (s s' : C)
      → apply_reports c node_id rs s ≡ ok s'
      → KeepsNames c s s'
  unfolding apply_reports
  apply_reports-KeepsNames node_id [] s s' h = KeepsNames-refl c s s' (sym (ok-injective s s' h))
  apply_reports-KeepsNames node_id (r ∷ rs) s s' h =
      elim (Result-cases (apply_report c node_id r s)) [
        | inr (e, p) ↦ absurd (ground arith)
        | inl (t, p) ↦
            KeepsNames-trans c s t s' (apply_report-KeepsNames node_id r s t p)
              (apply_reports-KeepsNames node_id rs t s' (ground arith))
      ]

  pub report_tx-KeepsNames :
      (now : ℕ) (node_id : String) (request : ReportNodeStatusRequest) (db db' : Database N C T)
      → report_tx c now node_id request db ≡ ok db'
      → KeepsNames c db.containers db'.containers
  report_tx-KeepsNames now node_id request db db' h =
      let (current, found) = report_tx-node c now node_id request db db' h in
      let (same, what) = report_tx-lem c lawful now node_id request current db db' found h in
      elim what [
        | inl (old, e) ↦ KeepsNames-refl c db.containers db'.containers (ground arith)
        | inr r ↦
            apply_reports-KeepsNames node_id request.containers db.containers db'.containers
              r.containers
      ]
