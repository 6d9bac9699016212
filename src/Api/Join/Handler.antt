-- ===== src/Api/Join/Handler.antt =====
-- The request of `joinNodeHandler` (internal/api/nodes.go): the token, the checks, the answers.
use hambo.Base.{
  ℕ, String, Bool, true, false, List, [], ◌∷◌, Option, none, some, Result, ok, err, errdef,
  unauthenticated, conflict, missing, invalid_argument, if◌then◌else◌, ◌==◌,
}
use hambo.Base.Text.{trim_space, fields, equal_fold}
use hambo.Store.Tx.{Faults, write_tx}
use hambo.Model.Node.{generate_node_id}
use hambo.Model.Database.{Database, Collections}
use hambo.Api.Http.{
  Response, Incoming, Reading, read, answered, read_json, write_json, write_error_json,
  write_validation_error_json, joined,
}
use hambo.Api.Join.{JoinNodeRequest, Joined, join_tx}

-- The secret of an `Authorization` header, if that has the form of a bearer token.
bearer : List String → Option String
bearer (scheme ∷ secret ∷ []) = if equal_fold scheme "Bearer" then some secret else none
bearer _ = none

unfoldable pub secret_of : String → Option String
unfolding bearer fields equal_fold
secret_of header = bearer (fields header)

abbrev is_empty : List ℕ → Bool
is_empty [] = true
is_empty (b ∷ bs) = false

-- `none` for a request that is accepted.
unfoldable pub validate : JoinNodeRequest → Option Response
unfolding trim_space write_validation_error_json
validate request =
    if trim_space request.name == ""
    then some (write_validation_error_json (("name", "must not be empty") ∷ []))
    else if is_empty request.csr
    then some (write_validation_error_json (("csr", "must not be empty") ∷ []))
    else none

unfoldable pub answer : Result Joined → Response
unfolding write_json write_error_json write_validation_error_json
answer (ok j) = record (write_json j.status_code (joined j.response)) { no_store = true }
answer (err (errdef unauthenticated message)) = write_error_json 401 message
answer (err (errdef conflict message)) = write_error_json 409 message
answer (err (errdef missing message)) = write_error_json 410 message
answer (err (errdef invalid_argument message)) = write_validation_error_json (("csr", message) ∷ [])
answer (err e) = write_error_json 500 "could not process enrollment"

-- `secret_hash` and `request_hash` are the digests `SecretHash` and `joinNodeRequestHash`, in
-- hexadecimal; the second fails if the request cannot be encoded.
module _ {N C T : Type 0} (c : Collections N C T) (issue : ℕ → String → List ℕ → Result String)
    (secret_hash : String → String) (request_hash : JoinNodeRequest → Option String) where
  run :
      Faults
      → ℕ
      → List ℕ
      → String
      → JoinNodeRequest
      → Option String
      → Database N C T
      → Response × Database N C T
  run f now bytes secret request none db = (write_error_json 500 "could not process enrollment", db)
  run f now bytes secret request (some hash) db =
      let (result, db') =
        write_tx f (join_tx c issue now (generate_node_id bytes) (secret_hash secret) hash request)
          db in
      (answer result, db')

  process :
      Faults
      → ℕ
      → List ℕ
      → String
      → JoinNodeRequest
      → Option Response
      → Database N C T
      → Response × Database N C T
  unfolding run
  process f now bytes secret request (some r) db = (r, db)
  process f now bytes secret request none db =
      run f now bytes secret request (request_hash request) db

  handle :
      Faults
      → ℕ
      → List ℕ
      → String
      → Reading JoinNodeRequest
      → Database N C T
      → Response × Database N C T
  unfolding process
  handle f now bytes secret (answered r) db = (r, db)
  handle f now bytes secret (read request) db =
      process f now bytes secret request (validate request) db

  authorize :
      Faults
      → ℕ
      → List ℕ
      → Option String
      → Incoming JoinNodeRequest
      → Database N C T
      → Response × Database N C T
  unfolding handle
  authorize f now bytes none i db = (write_error_json 401 "join token required", db)
  authorize f now bytes (some secret) i db = handle f now bytes secret (read_json i) db

  -- `bytes` are those that `GenerateNodeID` would draw.
  unfoldable pub join_handler :
      Faults
      → ℕ
      → List ℕ
      → String
      → Incoming JoinNodeRequest
      → Database N C T
      → Response × Database N C T
  unfolding authorize validate answer secret_of read_json
  join_handler f now bytes header i db = authorize f now bytes (secret_of header) i db
