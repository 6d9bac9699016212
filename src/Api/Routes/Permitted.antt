-- ===== src/Api/Routes/Permitted.antt =====
-- Who reaches which handler (internal/api/routes.go, internal/api/middleware.go).
use hambo.Base.{
  String, true, List, [], ◌∷◌, ◌≡◌, ◌≢◌, refl, arith, Option, none, some, Result, ok, Bool-cases,
  inl, inr, All, subst, sym,
}
use hambo.Base.Text.{cut_prefix}
use hambo.Model.Node.{Node}
use hambo.Api.Auth.{
  Certificate, Connection, Access, granted, refused, require_certificate, contains, admin_only,
  node_only,
}
use hambo.Api.Auth.Grants.{Leaf, require_certificate-Leaf, require_group-granted, node_only-granted}
use hambo.Api.Routes.{
  Handler, get_ca, join_node, watch_node, create_node_session, report_node_status, health,
  create_token, create_container, not_found, Guard, unguarded, certified, admins, nodes, Route,
  Reached, routes, find_route, matches, pass, dispatch, after_certificate, after_node,
}

module _ (get : String → Result Node) (conn : Connection) where
  abbrev pub IsCertified : Type 0
  IsCertified = (cert : Certificate) × Leaf conn cert

  abbrev pub IsAdmin : Type 0
  IsAdmin =
      (cert : Certificate) × Leaf conn cert × (contains cert.organization "hambo:admins" ≡ true)

  -- The certificate names this registered node.
  abbrev pub IsNode : String → Type 0
  IsNode node_id =
      (cert : Certificate) × Leaf conn cert
      × (contains cert.organization "hambo:nodes" ≡ true)
      × (cut_prefix cert.common_name "hambo:node:" ≡ some node_id)
      × (node_id ≢ "")
      × ((n : Node) × (get node_id ≡ ok n))

  abbrev pub IsNodeOf : Option String → Type 0
  IsNodeOf none = ⊥
  IsNodeOf (some node_id) = IsNode node_id

  -- What has to hold of a client whose request reaches a handler.
  abbrev pub Needs : Handler → Option String → Type 0
  Needs get_ca o = Unit {0}
  Needs join_node o = Unit {0}
  Needs health o = IsCertified
  Needs not_found o = IsCertified
  Needs create_token o = IsAdmin
  Needs create_container o = IsAdmin
  Needs watch_node o = IsNodeOf o
  Needs create_node_session o = IsNodeOf o
  Needs report_node_status o = IsNodeOf o

  -- What a guard shows of whom it lets through.
  abbrev Shows : Guard → Option String → Type 0
  Shows unguarded o = Unit {0}
  Shows certified o = IsCertified
  Shows admins o = IsAdmin
  Shows nodes o = IsNodeOf o

  after_certificate_inv :
      (h : Handler) (a : Access Certificate) (r : Reached)
      → after_certificate h a ≡ granted r
      → (cert : Certificate) × (a ≡ granted cert) × (r.handler ≡ h)
  unfolding after_certificate
  after_certificate_inv h (refused x) r e = absurd (ground arith)
  after_certificate_inv h (granted cert) r e = (cert, refl, ground arith)

  after_node_inv :
      (h : Handler) (a : Access String) (r : Reached)
      → after_node h a ≡ granted r
      → (node_id : String) × (a ≡ granted node_id)
        × (r ≡ record { handler = h; node_id = some node_id })
  unfolding after_node
  after_node_inv h (refused x) r e = absurd (ground arith)
  after_node_inv h (granted node_id) r e = (node_id, refl, ground arith)

  pass-Shows :
      (g : Guard) (h : Handler) (r : Reached)
      → pass get conn g h ≡ granted r
      → (r.handler ≡ h) × Shows g r.node_id
  unfolding pass admin_only
  pass-Shows unguarded h r e = (ground arith, tt)
  pass-Shows certified h r e =
      let (cert, p, same) = after_certificate_inv h (require_certificate conn) r e in
      (same, (cert, require_certificate-Leaf conn cert p))
  pass-Shows admins h r e =
      let (cert, p, same) = after_certificate_inv h (admin_only conn) r e in
      let (is_leaf, member_of) = require_group-granted "hambo:admins" conn cert p in
      (same, (cert, is_leaf, member_of))
  pass-Shows nodes h r e =
      let (node_id, p, same) = after_node_inv h (node_only get conn) r e in
      rw same (refl, node_only-granted get conn node_id p)

  -- The guard of a route shows what its handler needs.
  abbrev Fits : Route → Type 0
  Fits r = (o : Option String) → Shows r.guard o → Needs r.handler o

  routes-Fits : All Fits routes
  routes-Fits = (
    λ o s. tt,
    (λ o s. tt, (λ o s. s, (λ o s. s, (λ o s. s, (λ o s. s, (λ o s. s, (λ o s. s, tt))))))),
  )

  find_route-Fits :
      (method path : String) (rs : List Route) → All Fits rs → Fits (find_route method path rs)
  unfolding find_route
  find_route-Fits method path [] fit = λ o s. s
  find_route-Fits method path (r ∷ rs) fit = elim (Bool-cases (matches method path r)) [
    | inl m ↦ let is : r ≡ find_route method path (r ∷ rs) = ground arith in subst Fits is fit.0
    | inr m ↦
        let is : find_route method path rs ≡ find_route method path (r ∷ rs) = ground arith in
        subst Fits is (find_route-Fits method path rs fit.1)
  ]

  -- Whatever its method and path, a request reaches a handler only if its client may use it: the CA
  -- and the enrollment are open to all; health and the answer to unknown paths need a verified
  -- certificate; the creation of tokens and of containers needs one whose organizations have the
  -- group of the admins; and a handler for a node needs one that has the group of the nodes and
  -- names the registered node, with an ID that is not empty, whose ID the handler is given.
  pub dispatch-Needs :
      (method path : String) (r : Reached)
      → dispatch get conn method path ≡ granted r
      → Needs r.handler r.node_id
  unfolding dispatch
  dispatch-Needs method path r h =
      let found : Route = find_route method path routes in
      let (same, shown) = pass-Shows found.guard found.handler r h in
      subst (λ x. Needs x r.node_id) (sym same)
        (find_route-Fits method path routes routes-Fits r.node_id shown)
