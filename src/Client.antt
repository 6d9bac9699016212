-- ===== src/Client.antt =====
-- client: how the Go client reads the answers of the server. A request that reached the server
-- enters by what came back.
pub mod Enrollment
pub mod Connect
use hambo.Base.{
  ℕ, String, Bool, true, false, not, ◌&&◌, ◌||◌, Option, none, some, Result, ok, err, Error, errdef,
  failure, Kind, invalid_argument, unauthenticated, permission_denied, missing, method_not_allowed,
  conflict, internal, unavailable, if◌then◌else◌, nat_eq, leb, ltb,
}
use hambo.Api.Http.{ErrorResponse}

-- client/errors.go
unfoldable pub error_from_status : ℕ → Option Kind
error_from_status code =
    if nat_eq code 400 || nat_eq code 415 || nat_eq code 422
    then some invalid_argument
    else if nat_eq code 401
    then some unauthenticated
    else if nat_eq code 403
    then some permission_denied
    else if nat_eq code 404
    then some missing
    else if nat_eq code 405
    then some method_not_allowed
    else if nat_eq code 409
    then some conflict
    else if nat_eq code 500
    then some internal
    else if nat_eq code 503
    then some unavailable
    else none

caused : Option Kind → String → Error
caused none message = failure message
caused (some k) message = errdef k message

-- The error answer: its body, if that could be decoded.
unfoldable pub decode_response_error : ℕ → Option ErrorResponse → Error
unfolding caused error_from_status
decode_response_error code none = failure "decode response"
decode_response_error code (some r) = caused (error_from_status code) r.message

abbrev pub cancelled_error : Error
cancelled_error = failure "context cancelled"

-- `cancelled` is `ctx.Err() != nil` after the body was read, and `drained` that its rest could be.
unfoldable pub read_response_error : ℕ → Option ErrorResponse → Bool → Bool → Error
unfolding decode_response_error
read_response_error code body cancelled drained =
    if cancelled
    then cancelled_error
    else if drained
    then decode_response_error code body
    else failure "drain response body"

abbrev pub is_success : ℕ → Bool
is_success code = not (ltb code 200) && ltb code 300

-- What becomes of one call: whether the request could be made and sent, and the answer, whose
-- body is read as an error or as an `O`. A call without an output has the unit type for `O`.
pub record Exchange (O : Type 0) : Type 0 where
  pub made : Bool
  pub sent : Bool
  pub status : ℕ
  pub failed : Option ErrorResponse
  pub output : Option O
  pub cancelled : Bool
  pub drained : Bool

drain : {O : Type 0} → Exchange O → O → Result O
drain x o =
    if x.drained
    then ok o
    else if x.cancelled
    then err cancelled_error
    else err (failure "drain response body")

read_output : {O : Type 0} → Exchange O → Option O → Result O
unfolding drain
read_output x none = if x.cancelled then err cancelled_error else err (failure "decode response")
read_output x (some o) = drain x o

-- `Client.do` of client/client.go.
unfoldable pub do_call : {O : Type 0} → Exchange O → Result O
unfolding read_output read_response_error
do_call x =
    if not x.made
    then err (failure "create request")
    else if not x.sent
    then err (failure "send request")
    else if is_success x.status
    then read_output x x.output
    else err (read_response_error x.status x.failed x.cancelled x.drained)
