-- ===== src/Api/Construct.antt =====
-- internal/api/server.go with options.go, ca.go and handlers.go: how the server is made, and its two
-- constant answers.
pub mod Fetched
use hambo.Base.{
  ℕ, String, Bool, true, false, not, List, [], ◌∷◌, Option, none, some, Result, ok, err, Error,
  failure, if◌then◌else◌, or_fail, ◌>>=◌,
}
use hambo.Api.Http.{Response, write_json, health}
use hambo.Api.Routes.{Route, routes, fallback}

-- The arguments of `newServer`, none for nil, over the types of what they point to.
pub record Given (Db Ca Queue Nodes Containers Watcher : Type 0) : Type 0 where
  pub db : Option Db
  pub ca : Option Ca
  pub scheduling_queue : Option Queue
  pub nodes : Option Nodes
  pub containers : Option Containers
  pub node_watcher : Option Watcher

pub record Server (Db Ca Queue Nodes Containers Watcher Tokens Logger : Type 0) : Type 0 where
  pub mux : List Route
  pub logger : Logger
  pub db : Db
  pub tokens : Tokens
  pub nodes : Nodes
  pub containers : Containers
  pub ca : Ca
  pub scheduling_queue : Queue
  pub node_watcher : Watcher

-- A call panics, or returns.
pub data Called (A : Type 0) : Type 0 where
  panics : String → Called A
  returns : A → Called A

not_nil : {A B : Type 0} → Option A → String → (A → Called B) → Called B
not_nil none message next = panics message
not_nil (some a) message next = next a

module _ {Db Ca Queue Nodes Containers Watcher Tokens Logger : Type 0} where
  -- `WithLogger`
  unfoldable pub with_logger :
      Option Logger
      → Called (
          Server Db Ca Queue Nodes Containers Watcher Tokens Logger
          → Server Db Ca Queue Nodes Containers Watcher Tokens Logger)
  with_logger none = panics "api: logger cannot be nil"
  with_logger (some logger) = returns (λ srv. record srv { logger = logger })

  apply_options :
      List (
        Server Db Ca Queue Nodes Containers Watcher Tokens Logger
        → Server Db Ca Queue Nodes Containers Watcher Tokens Logger)
      → Server Db Ca Queue Nodes Containers Watcher Tokens Logger
      → Server Db Ca Queue Nodes Containers Watcher Tokens Logger
  apply_options [] srv = srv
  apply_options (option ∷ options) srv = apply_options options (option srv)

  -- `new_collection` is `NewCollection` for the tokens, `default_logger` is `slog.Default`.
  unfoldable pub new_server :
      (Db → Result Tokens)
      → Logger
      → Given Db Ca Queue Nodes Containers Watcher
      → List (
          Server Db Ca Queue Nodes Containers Watcher Tokens Logger
          → Server Db Ca Queue Nodes Containers Watcher Tokens Logger)
      → Called (Result (Server Db Ca Queue Nodes Containers Watcher Tokens Logger))
  unfolding not_nil apply_options
  new_server new_collection default_logger g options = not_nil g.db "api: db cannot be nil" λ db.
      not_nil g.ca "api: CA certificate cannot be nil" λ ca.
        not_nil g.scheduling_queue "api: scheduling queue cannot be nil" λ queue.
          not_nil g.nodes "api: nodes collection cannot be nil" λ nodes.
            not_nil g.containers "api: containers collection cannot be nil" λ containers.
              not_nil g.node_watcher "api: node watcher cannot be nil" λ watcher. returns (
                new_collection db >>= λ tokens. ok (
                  apply_options options (record {
                    mux = routes;
                    logger = default_logger;
                    db = db;
                    tokens = tokens;
                    nodes = nodes;
                    containers = containers;
                    ca = ca;
                    scheduling_queue = queue;
                    node_watcher = watcher;
                  })))

unfoldable pub health_handler : Response
unfolding write_json
health_handler = write_json 200 (health "ok")

-- The content type and the body, by `pem.Encode` of a block of the CA's certificate.
unfoldable pub get_ca_handler :
    {X : Type 0} → (X → List ℕ) → (String → List ℕ → List ℕ) → X → String × List ℕ
get_ca_handler raw pem_encode ca =
    ("application/pem-certificate-chain", pem_encode "CERTIFICATE" (raw ca))
