-- ===== src/Api/Join.antt =====
-- `joinNodeHandler` of internal/api/nodes.go: a worker enrolls a node with a token.
pub mod Retry
pub mod Cases
pub mod Enroll
pub mod Handler
use hambo.Base.{
  ℕ, String, Bool, true, false, List, [], ◌∷◌, Option, none, some, Result, ok, err, Error,
  not_found, already_exists, errdef, failure, Kind, unauthenticated, conflict, missing,
  if◌then◌else◌, ◌==◌, ◌>>=◌,
}
use hambo.Store.{Table}
use hambo.Model.Node.{Node, generate_node_id}
use hambo.Model.Token.{Metadata, EnrollmentResult, expired}
use hambo.Model.Database.{Database, Collections}
use hambo.Api.Http.{JoinNodeResponse}

pub record JoinNodeRequest : Type 0 where
  pub name : String
  pub csr : List ℕ

-- The variables that the transaction sets for the code after it.
pub record Joined : Type 0 where
  pub status_code : ℕ
  pub response : JoinNodeResponse

abbrev pub invalid_token : Error
invalid_token = errdef unauthenticated "invalid join token"

abbrev pub token_expired : Error
token_expired = errdef unauthenticated "join token expired"

abbrev pub other_request : Error
other_request = errdef conflict "join token already used for a different request"

abbrev pub node_gone : Error
node_gone = errdef missing "node no longer exists"

abbrev pub fresh_node : String → JoinNodeRequest → Node
fresh_node node_id request = record {
  id = node_id;
  name = request.name;
  runtime_ready = false;
  last_seen_at = none;
  status_session_id = "";
  status_sequence = 0;
}

abbrev pub answer_of : EnrollmentResult → JoinNodeResponse
answer_of e = record { node_id = e.node_id; certificate = e.certificate }

abbrev pub enrolled : String → String → String → EnrollmentResult
enrolled request_hash node_id certificate = record {
  request_hash = request_hash;
  node_id = node_id;
  certificate = certificate;
}

-- `issue` is `IssueNodeCertificate` of internal/pki, with its certificate in PEM; for a bad CSR it
-- gives `invalid_argument` and the message of the handler.
module _ {N C T : Type 0} (c : Collections N C T)
    (issue : ℕ → String → List ℕ → Result String) where
  retried : EnrollmentResult → Result Node → Database N C T → Result (Joined × Database N C T)
  retried e (ok n) db = ok (record { status_code = 200; response = answer_of e }, db)
  retried e (err not_found) db = err node_gone
  retried e (err x) db = err x

  -- The token was used: only the same request may have its answer again.
  retry : String → EnrollmentResult → Database N C T → Result (Joined × Database N C T)
  unfolding retried
  retry request_hash e db =
      if e.request_hash == request_hash
      then retried e (c.nodes.get_tx e.node_id db.nodes) db
      else err other_request

  -- The first enrollment: the node and the result are stored together.
  unfoldable pub enroll :
      ℕ
      → String
      → String
      → String
      → JoinNodeRequest
      → Metadata
      → Database N C T
      → Result (Joined × Database N C T)
  enroll now node_id secret_hash request_hash request m db = do
    certificate ← issue now node_id request.csr
    nodes ← c.nodes.create_tx node_id (fresh_node node_id request) db.nodes
    let result = enrolled request_hash node_id certificate
    tokens ← c.tokens.update_tx secret_hash (record m { enrollment = some result }) db.tokens
    ok (
      record { status_code = 201; response = answer_of result },
      record db { nodes = nodes; tokens = tokens },
    )

  unfoldable pub use_token :
      ℕ
      → String
      → String
      → String
      → JoinNodeRequest
      → Metadata
      → Option EnrollmentResult
      → Database N C T
      → Result (Joined × Database N C T)
  unfolding retry enroll
  use_token now node_id secret_hash request_hash request m (some e) db = retry request_hash e db
  use_token now node_id secret_hash request_hash request m none db =
      enroll now node_id secret_hash request_hash request m db

  token_found :
      ℕ
      → String
      → String
      → String
      → JoinNodeRequest
      → Result Metadata
      → Database N C T
      → Result (Joined × Database N C T)
  unfolding use_token
  token_found now node_id secret_hash request_hash request (err not_found) db = err invalid_token
  token_found now node_id secret_hash request_hash request (err x) db = err x
  token_found now node_id secret_hash request_hash request (ok m) db =
      if expired m now
      then err token_expired
      else use_token now node_id secret_hash request_hash request m m.enrollment db

  -- The transaction of the handler, at the time `now` and with `node_id` as the ID that
  -- `GenerateNodeID` would give.
  unfoldable pub join_tx :
      ℕ
      → String
      → String
      → String
      → JoinNodeRequest
      → Database N C T
      → Result (Joined × Database N C T)
  unfolding token_found
  join_tx now node_id secret_hash request_hash request db =
      token_found now node_id secret_hash request_hash request
        (c.tokens.get_tx secret_hash db.tokens) db
