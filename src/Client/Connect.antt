-- ===== src/Client/Connect.antt =====
-- client/url.go, and client/client.go where it makes clients, requests and streams. net/url,
-- crypto/tls and encoding/json are parameters.
pub mod Contract
use hambo.Base.{
  ℕ, ◌*◌, String, Bool, true, false, not, ◌&&◌, ◌||◌, List, [], ◌∷◌, Option, none, some, Result, ok,
  err, Error, failure, if◌then◌else◌, ◌==◌, ◌>>=◌, or_fail,
}
use hambo.Model.Node.{second}
use hambo.Client.{Exchange, is_success, read_response_error}

-- What the code reads of a parsed `url.URL`, with its text.
pub record Url : Type 0 where
  pub scheme : String
  pub hostname : String
  pub has_user : Bool
  pub text : String

unfoldable pub check_url : Url → Result Url
check_url u =
    if not (u.scheme == "https") || u.hostname == ""
    then err (failure "must use HTTPS and include a hostname")
    else if u.has_user
    then err (failure "must not contain credentials")
    else ok u

-- `parse` is `url.Parse`.
unfoldable pub parse_server_url : (String → Option Url) → String → Result Url
unfolding check_url
parse_server_url parse value = do u ← or_fail (parse value) (failure "invalid URL"); check_url u

pub record Config : Type 0 where
  pub server_url : String
  pub ca_cert_pem : String
  pub client_cert_pem : String
  pub client_key_pem : String

-- The client with what its TLS configuration trusts and presents.
pub record Client : Type 0 where
  pub base_url : Url
  pub root_cas : String
  pub certificate : String × String
  pub response_header_timeout : ℕ

-- `appends` is `AppendCertsFromPEM` on an empty pool, `pairs` whether `tls.X509KeyPair` succeeds.
unfoldable pub new_client :
    (String → Option Url) → (String → Bool) → (String → String → Bool) → Config → Result Client
unfolding parse_server_url
new_client parse appends pairs cfg = do
  u ← parse_server_url parse cfg.server_url
  if not (appends cfg.ca_cert_pem)
      then err (failure "CA PEM contains no parseable certificates")
      else if not (pairs cfg.client_cert_pem cfg.client_key_pem)
      then err (failure "parse client certificate and key")
      else ok (record {
        base_url = u;
        root_cas = cfg.ca_cert_pem;
        certificate = (cfg.client_cert_pem, cfg.client_key_pem);
        response_header_timeout = 10 * second;
      })

pub record Request : Type 0 where
  pub method : String
  pub url : String
  pub body : Option String
  pub content_type : Option String

-- `join_path` is the text of `JoinPath`, `makes` whether `http.NewRequestWithContext` succeeds. The
-- input is none, or what `json.Marshal` makes of it.
unfoldable pub new_request :
    (Url → String → String)
    → (String → String → Bool)
    → Client
    → String
    → String
    → Option (Option String)
    → Result Request
new_request join_path makes c method path none =
    if makes method (join_path c.base_url path)
    then ok (record {
      method = method;
      url = join_path c.base_url path;
      body = none;
      content_type = none;
    })
    else err (failure "create request")
new_request join_path makes c method path (some none) = err (failure "encode request")
new_request join_path makes c method path (some (some text)) =
    if makes method (join_path c.base_url path)
    then ok (record {
      method = method;
      url = join_path c.base_url path;
      body = some text;
      content_type = some "application/json";
    })
    else err (failure "create request")

-- What is left of the exchange once the headers came: its body is the stream.
unfoldable pub open_stream_reader : {O : Type 0} → Exchange O → Result (Unit {0})
unfolding read_response_error
open_stream_reader x =
    if not x.made
    then err (failure "create request")
    else if not x.sent
    then err (failure "send streaming request")
    else if is_success x.status
    then ok tt
    else err (read_response_error x.status x.failed x.cancelled x.drained)

-- The calls of the client, and of a worker that enrolls.
pub data Call : Type 0 where
  fetch_ca join_node health create_node_session report_node_status : Call
  watch_node create_token create_container : Call

unfoldable pub method_of : Call → String
method_of fetch_ca = "GET"
method_of join_node = "POST"
method_of health = "GET"
method_of create_node_session = "POST"
method_of report_node_status = "POST"
method_of watch_node = "GET"
method_of create_token = "POST"
method_of create_container = "POST"

-- The path that is joined to the server's URL.
unfoldable pub path_of : Call → String
path_of fetch_ca = "ca"
path_of join_node = "nodes/join"
path_of health = "health"
path_of create_node_session = "nodes/self/session"
path_of report_node_status = "nodes/self/status"
path_of watch_node = "nodes/self/watch"
path_of create_token = "tokens"
path_of create_container = "containers"
