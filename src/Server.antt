-- ===== src/Server.antt =====
-- The server as a whole: the database under the transactions of its handlers (internal/api) and of
-- its scheduler (internal/scheduler), in any order.
pub mod Named
pub mod Unique
use hambo.Base.{ℕ, String, List, Result, ok, Error, ◌≡◌, ◌≢◌}
use hambo.Base.Int.{ℤ}
use hambo.Model.Container.{Container}
use hambo.Model.Database.{Database, Collections}
use hambo.Scheduler.{Captured, assign_tx}
use hambo.Api.Join.{JoinNodeRequest, Joined, join_tx}
use hambo.Api.Report.{ReportNodeStatusRequest, report_tx}
use hambo.Api.Session.{session_tx}
use hambo.Api.Containers.{create_tx}
use hambo.Base.{Option}
use hambo.Api.Tokens.{create_token_tx}

module _ {N C T : Type 0} (c : Collections N C T) (issue : ℕ → String → List ℕ → Result String)
    (parse_duration : String → Option ℤ) (secret_hash : String → String) where
  -- A transaction that commits. One that fails changes nothing. The node ID of an enrollment is
  -- that of `GenerateNodeID`, which is not empty.
  pub data Step (db db' : Database N C T) : Type 0 where
    joins :
        (now : ℕ) (node_id hash request_hash : String) (request : JoinNodeRequest) (j : Joined)
        → node_id ≢ ""
        → join_tx c issue now node_id hash request_hash request db ≡ ok (j, db')
        → Step db db'
    begins_session :
        (node_id session_id : String)
        → session_tx c node_id session_id db ≡ ok (tt, db')
        → Step db db'
    reports :
        (now : ℕ) (node_id : String) (request : ReportNodeStatusRequest)
        → report_tx c now node_id request db ≡ ok db'
        → Step db db'
    creates_container : (new : Container) → create_tx c new db ≡ ok (tt, db') → Step db db'
    creates_token :
        (secret : String) (expires_at : ℕ)
        → create_token_tx c parse_duration secret_hash secret expires_at db ≡ ok (tt, db')
        → Step db db'
    assigns :
        (now : ℕ) (id : String) (v : Captured) → assign_tx c now id db ≡ ok (v, db') → Step db db'

  pub data Reach (start : Database N C T) : Database N C T → Type 0 where
    here : Reach start start
    next : {db db' : Database N C T} → Reach start db → Step db db' → Reach start db'
