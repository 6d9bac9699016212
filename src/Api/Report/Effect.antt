-- ===== src/Api/Report/Effect.antt =====
-- What the reports of one request leave in the collection (internal/api/nodes.go).
use hambo.Base.{
  String, not, ◌&&◌, List, [], ◌∷◌, ◌≡◌, ap, arith, ok, if◌then◌else◌, ◌==◌, Result-cases, inl, inr,
  dec_string,
}
use hambo.Model.Container.{Container}
use hambo.Model.Database.{Collections, AreLawful}
use hambo.Api.Report.{
  ContainerStatusReport, is_backward, reported, apply_report, apply_reports, apply_found,
  record_report,
}

-- A container after a list of reports: those of its ID that are not backward, in order.
unfoldable pub after_reports : String → List ContainerStatusReport → Container → Container
after_reports j [] a = a
after_reports j (r ∷ rs) a =
    after_reports j rs (if r.id == j && not (is_backward a.state r.state) then reported a r else a)

module _ {N C T : Type 0} (c : Collections N C T) (lawful : AreLawful c) (node_id : String) where
  record_report-get :
      (j : String) (r : ContainerStatusReport) (current a : Container) (s s' : C)
      → c.containers.get_tx r.id s ≡ ok current
      → c.containers.get_tx j s ≡ ok a
      → record_report c node_id r current s ≡ ok s'
      → c.containers.get_tx j s'
        ≡ ok (if r.id == j && not (is_backward a.state r.state) then reported a r else a)
  unfolding record_report
  record_report-get j r current a s s' p g h = elim (dec_string r.id j) [
    | no other_id ↦ ground (arith, lawful.containers.update-get r.id j (reported current r) s s')
    | yes same ↦ ground (
      arith,
      ap (λ k. c.containers.get_tx k s) same,
      lawful.containers.update-get r.id j (reported current r) s s',
    )
  ]

  apply_report-get :
      (j : String) (r : ContainerStatusReport) (a : Container) (s s' : C)
      → c.containers.get_tx j s ≡ ok a
      → apply_report c node_id r s ≡ ok s'
      → c.containers.get_tx j s'
        ≡ ok (if r.id == j && not (is_backward a.state r.state) then reported a r else a)
  unfolding apply_report apply_found
  apply_report-get j r a s s' g h = elim (Result-cases (c.containers.get_tx r.id s)) [
    | inr (e, p) ↦ elim (dec_string r.id j) [
      | yes same ↦ ground (arith, ap (λ k. c.containers.get_tx k s) same)
      | no other_id ↦ ground arith
    ]
    | inl (current, p) ↦ record_report-get j r current a s s' p g (ground arith)
  ]

  -- If the reports of one request are applied without an error, then each stored container is,
  -- afterwards, what the reports of its ID make of it in their order, those left out that are
  -- backward for the state it has by then.
  pub apply_reports-get :
      (j : String) (rs : List ContainerStatusReport) (a : Container) (s s' : C)
      → c.containers.get_tx j s ≡ ok a
      → apply_reports c node_id rs s ≡ ok s'
      → c.containers.get_tx j s' ≡ ok (after_reports j rs a)
  unfolding apply_reports after_reports
  apply_reports-get j [] a s s' g h = ground arith
  apply_reports-get j (r ∷ rs) a s s' g h = elim (Result-cases (apply_report c node_id r s)) [
    | inr (e, p) ↦ absurd (ground arith)
    | inl (t, p) ↦ apply_reports-get j rs _ t s' (apply_report-get j r a s t g p) (ground arith)
  ]
