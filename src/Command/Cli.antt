-- ===== src/Command/Cli.antt =====
-- The commands of cmd/hambo and cmd/hambo-worker: what they check before they call the packages. The
-- flags are arguments.
pub mod Accepted
use hambo.Base.{
  ℕ, ◌*◌, ◌<>◌, String, Bool, true, false, not, ◌&&◌, ◌||◌, List, [], ◌∷◌, Option, none, some,
  Result, ok, err, Error, failure, if◌then◌else◌, ◌==◌, ltb, ◌>>=◌, ◌>>◌, or_fail,
}
use hambo.Base.Int.{ℤ, pos, negsuc}
use hambo.Base.Text.{trim_space}
use hambo.Model.Node.{second}
use hambo.Api.Http.{CreateTokenResponse, ContainerResponse}
use hambo.Api.Containers.{CreateContainerRequest}
use hambo.Api.Tokens.{max_token_ttl}
use hambo.CliConfig
use hambo.CliConfig.{load}
use hambo.Files.{Files, join_path}
use hambo.Client.{Exchange, do_call}
use hambo.Client.Connect.{Url, Config, Client, new_client, parse_server_url}
use hambo.Worker.Join.{JoinConfig, JoinResult}

-- `newRootCommand` of cmd/hambo: HAMBO_CONFIG, or a file in the user's configuration directory.
unfoldable pub config_path : String → Result String → Result String
config_path variable config_dir =
    if variable == ""
    then (config_dir >>= λ dir. ok (join_path (join_path dir "hambo") "config.yaml"))
    else ok variable

-- The checks of `PersistentPreRunE`, for --config and --data-dir.
unfoldable pub not_blank : String → String → Result (Unit {0})
not_blank value message = if trim_space value == "" then err (failure message) else ok tt

abbrev pub client_config : CliConfig.Config → Config
client_config cfg = record {
  server_url = cfg.server_url;
  ca_cert_pem = cfg.ca_cert;
  client_cert_pem = cfg.client_cert;
  client_key_pem = cfg.client_key;
}

module _ (marshal : CliConfig.Config → Option String) (unmarshal : String → Option CliConfig.Config)
    (parse_url : String → Option Url) (appends : String → Bool)
    (pairs : String → String → Bool) where
  unfoldable pub new_api_client : Bool → String → Files → Result Client
  unfolding load new_client
  new_api_client reads path files = do
    cfg ← load marshal unmarshal reads path files
    new_client parse_url appends pairs (client_config cfg)

-- The check of --ttl, in nanoseconds.
unfoldable pub check_ttl : ℤ → Result (Unit {0})
check_ttl (pos n) =
    if ltb 0 n && not (ltb max_token_ttl n)
    then ok tt
    else err (failure "--ttl must be greater than zero and no more than 24h")
check_ttl (negsuc n) = err (failure "--ttl must be greater than zero and no more than 24h")

-- The text of a request, from the client on: `makes_client` is the result of `newAPIClient`,
-- `call` the exchange for a request, `duration_text` is `Duration.String`.
unfoldable pub token_create :
    (ℤ → String)
    → Result Client
    → (Client → String → Exchange CreateTokenResponse)
    → ℤ
    → Result String
unfolding check_ttl do_call
token_create duration_text makes_client call ttl = do
  check_ttl ttl
  c ← makes_client
  response ← do_call (call c (duration_text ttl))
  ok response.token

unfoldable pub container_run :
    Result Client
    → (Client → CreateContainerRequest → Exchange ContainerResponse)
    → String
    → String
    → Result ContainerResponse
unfolding not_blank do_call
container_run makes_client call name image = do
  not_blank image "--image must not be empty"
  c ← makes_client
  do_call (call c (record { name = name; image = image }))

unfoldable pub health : Result Client → (Client → Exchange String) → Result String
unfolding do_call
health makes_client call = do c ← makes_client; do_call (call c)

-- `PreRunE` of `join`: the name is that of the flag, or the host's.
unfoldable pub node_name : Option String → Result String → Result String
unfolding not_blank
node_name (some name) hostname = do not_blank name "--name must not be empty"; ok name
node_name none hostname = do name ← hostname; not_blank name "--name must not be empty"; ok name

-- `RunE` of `join`, over `worker.Join`.
unfoldable pub join_command :
    (String → Option Url)
    → (JoinConfig → Result JoinResult)
    → String
    → String
    → String
    → Result String
unfolding parse_server_url
join_command parse_url join server_url token name = do
  u ← parse_server_url parse_url server_url
  result ← join (record { server_url = u.text; token = token; name = name })
  ok (
      if result.already_configured
      then "Worker already configured as node "
        <> result.node_id
        <> (if token == "" then "" else "; supplied token was not used")
      else "Worker joined as node " <> result.node_id)
