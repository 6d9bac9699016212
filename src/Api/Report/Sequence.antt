-- ===== src/Api/Report/Sequence.antt =====
-- Sessions and sequence numbers of reports (internal/api/nodes.go).
use hambo.Base.{
  ℕ, ◌≤◌, ◌<◌, String, ◌≡◌, ap, ◌∙◌, arith, ok, if◌then◌else◌, ◌==◌, leb, Result-cases, Bool-cases,
  inl, inr, ◌⊎◌,
}
use hambo.Model.Node.{Node}
use hambo.Model.Database.{Database, Collections, AreLawful}
use hambo.Api.Report.{
  ReportNodeStatusRequest, apply_reports, record_status, check_report, report_tx, seen,
}

module _ {N C T : Type 0} (c : Collections N C T) where
  -- The node as a report leaves it, and nothing else of the nodes or of the tokens changed.
  pub record Reported (now : ℕ) (node_id : String) (request : ReportNodeStatusRequest)
      (current : Node) (db db' : Database N C T) : Type 0 where
    pub newer : current.status_sequence < request.sequence
    pub nodes :
        (j : String)
        → c.nodes.get_tx j db'.nodes
          ≡ (if j == node_id then ok (seen c now request current) else c.nodes.get_tx j db.nodes)
    pub containers : apply_reports c node_id request.containers db.containers ≡ ok db'.containers
    pub tokens : db'.tokens ≡ db.tokens

  -- A request of the current session that is not newer than the last changes nothing.
  report_tx-stale :
      (now : ℕ) (node_id : String) (request : ReportNodeStatusRequest) (current : Node)
      (db : Database N C T)
      → c.nodes.get_tx node_id db.nodes ≡ ok current
      → request.session_id ≡ current.status_session_id
      → request.sequence ≤ current.status_sequence
      → report_tx c now node_id request db ≡ ok db
  unfolding report_tx check_report
  report_tx-stale now node_id request current db found same old = ground arith

  -- The node that an accepted report is about is stored.
  pub report_tx-node :
      (now : ℕ) (node_id : String) (request : ReportNodeStatusRequest) (db db' : Database N C T)
      → report_tx c now node_id request db ≡ ok db'
      → (current : Node) × (c.nodes.get_tx node_id db.nodes ≡ ok current)
  unfolding report_tx
  report_tx-node now node_id request db db' h =
      elim (Result-cases (c.nodes.get_tx node_id db.nodes)) [
        | inr (e, p) ↦ absurd (ground arith)
        | inl (current, p) ↦ (current, p)
      ]

  module _ (lawful : AreLawful c) where
    record_status-Reported :
        (now : ℕ) (node_id : String) (request : ReportNodeStatusRequest) (current : Node)
        (db db' : Database N C T)
        → current.status_sequence < request.sequence
        → record_status c now node_id request current db ≡ ok db'
        → Reported now node_id request current db db'
    unfolding record_status
    record_status-Reported now node_id request current db db' less h =
        elim (Result-cases (apply_reports c node_id request.containers db.containers)) [
          | inr (e, p) ↦ absurd (ground arith)
          | inl (cs, p) ↦
              elim (Result-cases
                (c.nodes.update_tx node_id (seen c now request current) db.nodes)) [
                  | inr (e, q) ↦ absurd (ground arith)
                  | inl (ns, q) ↦ record {
                    newer = less;
                    nodes = λ j. ground (
                      arith,
                      lawful.nodes.update-get node_id j (seen c now request current) db.nodes ns q,
                    );
                    containers = ground arith;
                    tokens = ground arith;
                  }
                ]
        ]

    -- A status report that the transaction accepts for a stored node is of the node's current
    -- session. Either its sequence number is not above the last one and nothing changes, or it is
    -- above, the node is stored with the number, the time and the readiness, all the container
    -- reports are applied, and no other node and no token changes.
    pub report_tx-lem :
        (now : ℕ) (node_id : String) (request : ReportNodeStatusRequest) (current : Node)
        (db db' : Database N C T)
        → c.nodes.get_tx node_id db.nodes ≡ ok current
        → report_tx c now node_id request db ≡ ok db'
        → (request.session_id ≡ current.status_session_id)
          × (((request.sequence ≤ current.status_sequence) × (db' ≡ db))
              ⊎ Reported now node_id request current db db')
    unfolding report_tx check_report
    report_tx-lem now node_id request current db db' found h = (
      ground arith,
      elim (Bool-cases (leb request.sequence current.status_sequence)) [
        | inl old ↦ inl (ground arith, ground arith)
        | inr new ↦ inr (
            record_status-Reported now node_id request current db db' (ground arith) (ground arith))
      ],
    )

    -- A status report that was accepted is accepted again on the database that it left, at any
    -- time, and changes nothing.
    pub report_tx-replay :
        (now later : ℕ) (node_id : String) (request : ReportNodeStatusRequest)
        (db db' : Database N C T)
        → report_tx c now node_id request db ≡ ok db'
        → report_tx c later node_id request db' ≡ ok db'
    report_tx-replay now later node_id request db db' h =
        let (current, found) = report_tx-node now node_id request db db' h in
        let (same, done_is) = report_tx-lem now node_id request current db db' found h in
        elim done_is [
          | inl (old, e) ↦
              report_tx-stale later node_id request current db'
                (ap (λ (d : Database N C T). c.nodes.get_tx node_id d.nodes) e ∙ found) same old
          | inr r ↦
              report_tx-stale later node_id request (seen c now request current) db'
                (ground (arith, r.nodes node_id)) same (omega arith)
        ]
