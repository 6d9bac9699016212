-- ===== src/Api/Auth.antt =====
-- internal/api/middleware.go: who may call a handler.
pub mod Grants
use hambo.Base.{
  String, Bool, true, false, List, [], ◌∷◌, Option, none, some, Result, ok, err, Error, not_found,
  if◌then◌else◌, ◌==◌,
}
use hambo.Base.Text.{cut_prefix}
use hambo.Model.Node.{Node}
use hambo.Pki.{Template}
use hambo.Api.Http.{Response, write_error_json}

-- What the middleware reads of a client's certificate: `Subject.Organization` and `CommonName`.
pub record Certificate : Type 0 where
  pub organization : List String
  pub common_name : String

-- `r.TLS.VerifiedChains`, or `none` without TLS.
abbrev pub Connection : Type 0
Connection = Option (List (List Certificate))

-- A client's certificate, by what it was made from, as the server sees it in a verified chain.
abbrev pub presented : Template → Connection
presented t =
    some (((record { organization = t.organization; common_name = t.common_name }) ∷ []) ∷ [])

-- A handler goes on with what the middleware found, or the request is answered.
pub data Access (A : Type 0) : Type 0 where
  granted : A → Access A
  refused : Response → Access A

abbrev pub authentication_required : {A : Type 0} → Access A
authentication_required = refused (write_error_json 401 "authentication required")

unfoldable pub require_certificate : Connection → Access Certificate
require_certificate none = authentication_required
require_certificate (some []) = authentication_required
require_certificate (some ([] ∷ chains)) = authentication_required
require_certificate (some ((cert ∷ rest) ∷ chains)) = granted cert

-- `slices.Contains`
unfoldable pub contains : List String → String → Bool
contains [] v = false
contains (x ∷ xs) v = let rest = contains xs v in if x == v then true else rest

in_group : String → Access Certificate → Access Certificate
in_group group (refused r) = refused r
in_group group (granted cert) =
    if contains cert.organization group
    then granted cert
    else refused (write_error_json 403 "permission denied")

unfoldable pub require_group : String → Connection → Access Certificate
unfolding in_group require_certificate contains
require_group group conn = in_group group (require_certificate conn)

unfoldable pub admin_only : Connection → Access Certificate
unfolding require_group
admin_only conn = require_group "hambo:admins" conn

member : String → Result Node → Access String
member node_id (ok n) = granted node_id
member node_id (err not_found) = refused (write_error_json 403 "node is not registered")
member node_id (err e) = refused (write_error_json 500 "could not check node membership")

-- `get` is the `Get` of the collection of nodes.
identify : (String → Result Node) → Option String → Access String
unfolding member
identify get none = refused (write_error_json 403 "invalid node identity")
identify get (some node_id) =
    if node_id == ""
    then refused (write_error_json 403 "invalid node identity")
    else member node_id (get node_id)

node_of : (String → Result Node) → Access Certificate → Access String
unfolding identify cut_prefix
node_of get (refused r) = refused r
node_of get (granted cert) = identify get (cut_prefix cert.common_name "hambo:node:")

-- The ID that `nodeOnly` puts into the context.
unfoldable pub node_only : (String → Result Node) → Connection → Access String
unfolding node_of require_group
node_only get conn = node_of get (require_group "hambo:nodes" conn)
