-- ===== src/Server/Unique.antt =====
-- The names of the containers that the server (internal/api, internal/scheduler) has stored.
use hambo.Base.{
  ℕ, String, List, ◌≡◌, sym, ap, subst, arith, Option, none, Result, ok, Result-cases, inl, inr,
}
use hambo.Base.Int.{ℤ}
use hambo.Model.Names.{HasUniqueNames, KeepsNames-HasUniqueNames}
use hambo.Model.Database.{Database, Collections, AreLawful}
use hambo.Scheduler.Names.{assign_tx-KeepsNames}
use hambo.Api.Join.Cases.{join_tx_cases}
use hambo.Api.Report.Names.{report_tx-KeepsNames}
use hambo.Api.Session.{renewed, session_tx}
use hambo.Api.Containers.Names.{create_tx-UniqueNames}
use hambo.Api.Tokens.{create_token_tx}
use hambo.Server.{
  Step, joins, begins_session, reports, creates_container, creates_token, assigns, Reach, here,
  next,
}

module _ {N C T : Type 0} (c : Collections N C T) (lawful : AreLawful c)
    (issue : ℕ → String → List ℕ → Result String) (parse_duration : String → Option ℤ)
    (secret_hash : String → String) where
  session-containers :
      (node_id session_id : String) (db db' : Database N C T)
      → session_tx c node_id session_id db ≡ ok (tt, db')
      → db'.containers ≡ db.containers
  unfolding session_tx
  session-containers node_id session_id db db' h =
      elim (Result-cases (c.nodes.get_tx node_id db.nodes)) [
        | inr (e, p) ↦ absurd (ground arith)
        | inl (x, p) ↦
            elim (Result-cases (c.nodes.update_tx node_id (renewed session_id x) db.nodes)) [
              | inr (e, q) ↦ absurd (ground arith)
              | inl (ns, q) ↦ ground arith
            ]
      ]

  token-containers :
      (secret : String) (expires_at : ℕ) (db db' : Database N C T)
      → create_token_tx c parse_duration secret_hash secret expires_at db ≡ ok (tt, db')
      → db'.containers ≡ db.containers
  unfolding create_token_tx
  token-containers secret expires_at db db' h =
      elim (Result-cases (
        c.tokens.create_tx (secret_hash secret)
          (record { expires_at = expires_at; enrollment = none }) db.tokens)) [
            | inr (e, p) ↦ absurd (ground arith)
            | inl (ts, p) ↦ ground arith
          ]

  same_containers :
      (db db' : Database N C T)
      → db'.containers ≡ db.containers
      → HasUniqueNames c db.containers
      → HasUniqueNames c db'.containers
  same_containers db db' e unique = subst (HasUniqueNames c) (sym e) unique

  Step-HasUniqueNames :
      {db db' : Database N C T}
      → Step c issue parse_duration secret_hash db db'
      → HasUniqueNames c db.containers
      → HasUniqueNames c db'.containers
  Step-HasUniqueNames {db} {db'} (joins now node_id hash request_hash request j some_id h) unique =
      elim (join_tx_cases c issue lawful now node_id hash request_hash request j db db' h) [
        | inl e ↦ same_containers db db' (ap (λ (d : Database N C T). d.containers) e) unique
        | inr (m, e) ↦ same_containers db db' e.containers unique
      ]
  Step-HasUniqueNames {db} {db'} (begins_session node_id session_id h) unique =
      same_containers db db' (session-containers node_id session_id db db' h) unique
  Step-HasUniqueNames {db} {db'} (reports now node_id request h) unique =
      KeepsNames-HasUniqueNames c db.containers db'.containers
        (report_tx-KeepsNames c lawful now node_id request db db' h) unique
  Step-HasUniqueNames {db} {db'} (creates_container new h) unique =
      create_tx-UniqueNames c lawful new db db' unique h
  Step-HasUniqueNames {db} {db'} (creates_token secret expires_at h) unique =
      same_containers db db' (token-containers secret expires_at db db' h) unique
  Step-HasUniqueNames {db} {db'} (assigns now id v h) unique =
      KeepsNames-HasUniqueNames c db.containers db'.containers
        (assign_tx-KeepsNames c lawful now id v db db' h) unique

  -- In every database that the transactions of enrollment, sessions, reports, containers, tokens
  -- and the scheduler reach, in any order, from one where no two containers have one name, no two
  -- containers have one name.
  pub Reach-HasUniqueNames :
      {start db : Database N C T}
      → HasUniqueNames c start.containers
      → Reach c issue parse_duration secret_hash start db
      → HasUniqueNames c db.containers
  Reach-HasUniqueNames unique here = unique
  Reach-HasUniqueNames unique (next r s) = Step-HasUniqueNames s (Reach-HasUniqueNames unique r)
