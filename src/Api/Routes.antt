-- ===== src/Api/Routes.antt =====
-- internal/api/routes.go: which handler serves a request, and behind which middleware.
pub mod Permitted
use hambo.Base.{
  String, Bool, true, false, ◌&&◌, ◌||◌, List, [], ◌∷◌, Option, none, some, Result, ok, err,
  if◌then◌else◌, ◌==◌,
}
use hambo.Model.Node.{Node}
use hambo.Api.Auth.{
  Certificate, Connection, Access, granted, refused, require_certificate, admin_only, node_only,
}

pub data Handler : Type 0 where
  get_ca join_node watch_node create_node_session report_node_status : Handler
  health create_token create_container not_found : Handler

-- The middleware around a handler.
pub data Guard : Type 0 where
  unguarded certified admins nodes : Guard

pub record Route : Type 0 where
  pub method : String
  pub path : String
  pub guard : Guard
  pub handler : Handler

abbrev route : String → String → Guard → Handler → Route
route method path guard handler = record {
  method = method;
  path = path;
  guard = guard;
  handler = handler;
}

abbrev pub fallback : Route
fallback = route "" "/" certified not_found

-- The patterns of `addRoutes` but the last, which is the fallback.
abbrev pub routes : List Route
routes =
    route "GET" "/ca" unguarded get_ca
    ∷ route "POST" "/nodes/join" unguarded join_node
    ∷ route "GET" "/nodes/self/watch" nodes watch_node
    ∷ route "POST" "/nodes/self/session" nodes create_node_session
    ∷ route "POST" "/nodes/self/status" nodes report_node_status
    ∷ route "GET" "/health" certified health
    ∷ route "POST" "/tokens" admins create_token
    ∷ route "POST" "/containers" admins create_container
    ∷ []

-- A pattern of `http.ServeMux` without a wildcard; one for GET serves HEAD, too.
abbrev pub matches : String → String → Route → Bool
matches method path r =
    (r.path == path) && ((r.method == method) || ((r.method == "GET") && (method == "HEAD")))

-- The route of a request, over the path as the multiplexer has cleaned it.
unfoldable pub find_route : String → String → List Route → Route
find_route method path [] = fallback
find_route method path (r ∷ rs) =
    let later = find_route method path rs in if matches method path r then r else later

-- What reaches a handler: itself, and the node's ID that `nodeOnly` puts into the context.
pub record Reached : Type 0 where
  pub handler : Handler
  pub node_id : Option String

after_certificate : Handler → Access Certificate → Access Reached
after_certificate h (refused r) = refused r
after_certificate h (granted cert) = granted (record { handler = h; node_id = none })

after_node : Handler → Access String → Access Reached
after_node h (refused r) = refused r
after_node h (granted node_id) = granted (record { handler = h; node_id = some node_id })

unfoldable pub pass : (String → Result Node) → Connection → Guard → Handler → Access Reached
unfolding after_certificate after_node require_certificate admin_only node_only
pass get conn unguarded h = granted (record { handler = h; node_id = none })
pass get conn certified h = after_certificate h (require_certificate conn)
pass get conn admins h = after_certificate h (admin_only conn)
pass get conn nodes h = after_node h (node_only get conn)

-- `get` is the `Get` of the collection of nodes.
unfoldable pub dispatch : (String → Result Node) → Connection → String → String → Access Reached
unfolding pass find_route
dispatch get conn method path =
    let r = find_route method path routes in pass get conn r.guard r.handler
