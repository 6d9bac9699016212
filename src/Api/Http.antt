-- ===== src/Api/Http.antt =====
-- internal/api/json.go and api/types.go: what handlers read and write. The decoder of
-- encoding/json and `mime.ParseMediaType` enter by their outcomes on the request.
use hambo.Base.{
  ℕ, ◌≤◌, String, Bool, false, List, [], Option, none, some, if◌then◌else◌, ◌==◌, ◌≡◌, arith,
}
use hambo.Base.Int.{ℤ}
use hambo.Model.Container.{State}

pub record ErrorResponse : Type 0 where
  pub message : String
  pub fields : List (String × String)

pub record JoinNodeResponse : Type 0 where
  pub node_id : String
  pub certificate : String

pub record CreateTokenResponse : Type 0 where
  pub token : String
  pub expires_at : ℕ

pub record ContainerResponse : Type 0 where
  pub id : String
  pub name : String
  pub image : String
  pub node_id : String
  pub state : State
  pub exit_code : Option ℤ
  pub reason : String
  pub message : String
  pub created_at : ℕ
  pub deletion_requested_at : Option ℕ

-- The bodies of the responses. `empty` is that of `204 No Content`.
pub data Body : Type 0 where
  failed : ErrorResponse → Body
  joined : JoinNodeResponse → Body
  session : String → Body
  token_created : CreateTokenResponse → Body
  container_created : ContainerResponse → Body
  health : String → Body
  empty : Body

-- `no_store` is the header `Cache-Control: no-store`.
pub record Response : Type 0 where
  pub status : ℕ
  pub no_store : Bool
  pub body : Body

unfoldable pub write_json : ℕ → Body → Response
write_json status body = record { status = status; no_store = false; body = body }

unfoldable pub write_error_json : ℕ → String → Response
unfolding write_json
write_error_json status message =
    write_json status (failed (record { message = message; fields = [] }))

unfoldable pub write_validation_error_json : List (String × String) → Response
unfolding write_json
write_validation_error_json fields =
    write_json 422 (failed (record { message = "request validation failed"; fields = fields }))

-- `Decode` of the first value: the body's limit was met, or it is no JSON of the wanted shape.
pub data Decoded (T : Type 0) : Type 0 where
  value : T → Decoded T
  too_large : Decoded T
  malformed : Decoded T

-- `Decode` of what follows it.
pub data Rest : Type 0 where
  end_of_input more_input rest_too_large : Rest

-- `media_type` is `none` where the header cannot be parsed.
pub record Incoming (T : Type 0) : Type 0 where
  pub media_type : Option String
  pub first : Decoded T
  pub rest : Rest

-- `readJSON` gives the request, or has answered it.
pub data Reading (T : Type 0) : Type 0 where
  read : T → Reading T
  answered : Response → Reading T

is_json : Option String → Bool
is_json none = false
is_json (some m) = m == "application/json"

read_rest : {T : Type 0} → T → Rest → Reading T
read_rest v end_of_input = read v
read_rest v more_input = answered (write_error_json 400 "request body contains invalid JSON")
read_rest v rest_too_large = answered (write_error_json 413 "request body is too large")

read_first : {T : Type 0} → Decoded T → Rest → Reading T
unfolding read_rest
read_first (value v) r = read_rest v r
read_first too_large r = answered (write_error_json 413 "request body is too large")
read_first malformed r = answered (write_error_json 400 "request body contains invalid JSON")

unfoldable pub read_json : {T : Type 0} → Incoming T → Reading T
unfolding is_json read_first
read_json i =
    if is_json i.media_type
    then read_first i.first i.rest
    else answered (write_error_json 415 "Content-Type must be application/json")

-- A request that is not read is answered with an error.
read_rest-refused :
    {T : Type 0} (v : T) (r : Rest) (x : Response) → read_rest v r ≡ answered x → 400 ≤ x.status
unfolding read_rest write_error_json write_json
read_rest-refused v r x h = ground arith

read_first-refused :
    {T : Type 0} (d : Decoded T) (r : Rest) (x : Response)
    → read_first d r ≡ answered x
    → 400 ≤ x.status
unfolding read_first write_error_json write_json
read_first-refused (value v) r x h = read_rest-refused v r x h
read_first-refused too_large r x h = ground arith
read_first-refused malformed r x h = ground arith

pub read_json-refused :
    {T : Type 0} (i : Incoming T) (x : Response) → read_json i ≡ answered x → 400 ≤ x.status
unfolding read_json write_error_json write_json
read_json-refused i x h = ground (arith, read_first-refused i.first i.rest x)
