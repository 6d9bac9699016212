-- ===== src/Server/Named.antt =====
-- The IDs of the nodes that the server (internal/api, internal/scheduler) has stored.
use hambo.Base.{
  ℕ, String, List, [], ◌∷◌, ◌≡◌, ◌≢◌, sym, ap, ◌∙◌, arith, Option, none, Result, ok, All, All-map,
  Result-cases, inl, inr,
}
use hambo.Base.Int.{ℤ}
use hambo.Store.{Entry, find_entry, UniqueKeys}
use hambo.Model.Node.{Node}
use hambo.Model.Database.{Database, Collections, AreLawful}
use hambo.Scheduler.Untouched.{assign_tx-nodes}
use hambo.Scheduler.Effect.{HasNames}
use hambo.Api.Join.{JoinNodeRequest, Joined, join_tx}
use hambo.Api.Join.Cases.{join_tx_cases}
use hambo.Api.Report.{ReportNodeStatusRequest, report_tx}
use hambo.Api.Report.Sequence.{report_tx-lem, report_tx-node}
use hambo.Api.Session.{renewed, session_tx}
use hambo.Api.Containers.Names.{create_tx-Created}
use hambo.Api.Tokens.{create_token_tx}
use hambo.Server.{
  Step, joins, begins_session, reports, creates_container, creates_token, assigns, Reach, here,
  next,
}

-- Each entry of a listing is what its key holds.
find_entry-All :
    {T : Type 0} (es : List (Entry T))
    → UniqueKeys es
    → All (λ (e : Entry T). find_entry e.key es ≡ ok e.value) es
unfolding find_entry
find_entry-All [] u = tt
find_entry-All (e ∷ es) u = (
  ground arith,
  All-map _ _ es (λ x h. ground (arith, u.0, h, ap (λ k. find_entry k es))) (find_entry-All es u.1),
)

module _ {N C T : Type 0} (c : Collections N C T) where
  -- Each node is stored under its ID, which is not empty.
  abbrev pub AreNamed : Database N C T → Type 0
  AreNamed db = (k : String) (n : Node) → c.nodes.get_tx k db.nodes ≡ ok n → (n.id ≡ k) × (k ≢ "")

  module _ (lawful : AreLawful c) where
    pub AreNamed-HasNames : (db : Database N C T) → AreNamed db → HasNames c db
    AreNamed-HasNames db named ns listed =
        All-map _ _ ns
          (λ e h.
            let (same, some_id) =
              named e.key e.value (lawful.nodes.list-get e.key db.nodes ns listed ∙ h) in
            (λ is. some_id (sym same ∙ is)))
          (find_entry-All ns (lawful.nodes.list-UniqueKeys db.nodes ns listed))

    same_nodes : (db db' : Database N C T) → db'.nodes ≡ db.nodes → AreNamed db → AreNamed db'
    same_nodes db db' e named k n h = named k n (ap (λ s. c.nodes.get_tx k s) (sym e) ∙ h)

    session-AreNamed :
        (node_id session_id : String) (db db' : Database N C T)
        → AreNamed db
        → session_tx c node_id session_id db ≡ ok (tt, db')
        → AreNamed db'
    unfolding session_tx
    session-AreNamed node_id session_id db db' named h k n g =
        elim (Result-cases (c.nodes.get_tx node_id db.nodes)) [
          | inr (e, p) ↦ absurd (ground arith)
          | inl (x, p) ↦
              elim (Result-cases (c.nodes.update_tx node_id (renewed session_id x) db.nodes)) [
                | inr (e, q) ↦ absurd (ground arith)
                | inl (ns, q) ↦ ground (
                  arith,
                  lawful.nodes.update-get node_id k (renewed session_id x) db.nodes ns q,
                  named node_id x p,
                  named k n,
                )
              ]
        ]

    report-AreNamed :
        (now : ℕ) (node_id : String) (request : ReportNodeStatusRequest) (db db' : Database N C T)
        → AreNamed db
        → report_tx c now node_id request db ≡ ok db'
        → AreNamed db'
    report-AreNamed now node_id request db db' named h k n g =
        let (current, found) = report_tx-node c now node_id request db db' h in
        let (same, what) = report_tx-lem c lawful now node_id request current db db' found h in
        elim what [
          | inl (old, e) ↦
              named k n (ap (λ (d : Database N C T). c.nodes.get_tx k d.nodes) (sym e) ∙ g)
          | inr r ↦ ground (arith, r.nodes k, named node_id current found, named k n)
        ]

    module _ (issue : ℕ → String → List ℕ → Result String) (parse_duration : String → Option ℤ)
        (secret_hash : String → String) where
      join-AreNamed :
          (now : ℕ) (node_id hash request_hash : String) (request : JoinNodeRequest) (j : Joined)
          (db db' : Database N C T)
          → node_id ≢ ""
          → AreNamed db
          → join_tx c issue now node_id hash request_hash request db ≡ ok (j, db')
          → AreNamed db'
      join-AreNamed now node_id hash request_hash request j db db' some_id named h k n g =
          elim (join_tx_cases c issue lawful now node_id hash request_hash request j db db' h) [
            | inl e ↦ named k n (ap (λ (d : Database N C T). c.nodes.get_tx k d.nodes) (sym e) ∙ g)
            | inr (m, e) ↦ ground (arith, e.nodes k, named k n)
          ]

      token-nodes :
          (secret : String) (expires_at : ℕ) (db db' : Database N C T)
          → create_token_tx c parse_duration secret_hash secret expires_at db ≡ ok (tt, db')
          → db'.nodes ≡ db.nodes
      unfolding create_token_tx
      token-nodes secret expires_at db db' h =
          elim (Result-cases (
            c.tokens.create_tx (secret_hash secret)
              (record { expires_at = expires_at; enrollment = none }) db.tokens)) [
                | inr (e, p) ↦ absurd (ground arith)
                | inl (ts, p) ↦ ground arith
              ]

      Step-AreNamed :
          {db db' : Database N C T}
          → Step c issue parse_duration secret_hash db db'
          → AreNamed db
          → AreNamed db'
      Step-AreNamed {db} {db'} (joins now node_id hash request_hash request j some_id h) named =
          join-AreNamed now node_id hash request_hash request j db db' some_id named h
      Step-AreNamed {db} {db'} (begins_session node_id session_id h) named =
          session-AreNamed node_id session_id db db' named h
      Step-AreNamed {db} {db'} (reports now node_id request h) named =
          report-AreNamed now node_id request db db' named h
      Step-AreNamed {db} {db'} (creates_container new h) named =
          same_nodes db db' (create_tx-Created c lawful new db db' h).nodes named
      Step-AreNamed {db} {db'} (creates_token secret expires_at h) named =
          same_nodes db db' (token-nodes secret expires_at db db' h) named
      Step-AreNamed {db} {db'} (assigns now id v h) named =
          same_nodes db db' (assign_tx-nodes c now id v db db' h) named

      pub Reach-AreNamed :
          {start db : Database N C T}
          → AreNamed start
          → Reach c issue parse_duration secret_hash start db
          → AreNamed db
      Reach-AreNamed named here = named
      Reach-AreNamed named (next r s) = Step-AreNamed s (Reach-AreNamed named r)

      -- In every database that the transactions of enrollment, sessions, reports, containers,
      -- tokens and the scheduler reach, in any order, from one where each node is stored under its
      -- ID and no ID is empty, each node still is, and every listed node has a non-empty ID. The
      -- node ID of an enrollment is taken to be non-empty, as a generated one is.
      pub Reach-HasNames :
          {start db : Database N C T}
          → AreNamed start
          → Reach c issue parse_duration secret_hash start db
          → AreNamed db × HasNames c db
      Reach-HasNames {db = db} named r =
          (Reach-AreNamed named r, AreNamed-HasNames db (Reach-AreNamed named r))
