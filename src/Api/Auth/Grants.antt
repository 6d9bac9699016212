-- ===== src/Api/Auth/Grants.antt =====
-- Whom the middleware of internal/api/middleware.go lets through.
use hambo.Base.{
  String, true, List, [], ◌∷◌, ◌≡◌, ◌≢◌, refl, arith, Option, none, some, Result, ok, Result-cases,
  inl, inr, subst,
}
use hambo.Base.Text.{cut_prefix}
use hambo.Model.Node.{Node}
use hambo.Api.Auth.{
  Certificate, Connection, Access, granted, refused, require_certificate, require_group, node_only,
  contains, in_group, node_of, identify, member,
}

-- The certificate that decides: the leaf of the first verified chain.
pub data Leaf : Connection → Certificate → Type 0 where
  leaf :
      (cert : Certificate) (rest : List Certificate) (chains : List (List Certificate))
      → Leaf (some ((cert ∷ rest) ∷ chains)) cert

pub require_certificate-Leaf :
    (conn : Connection) (cert : Certificate)
    → require_certificate conn ≡ granted cert
    → Leaf conn cert
unfolding require_certificate
require_certificate-Leaf none cert h = absurd (ground arith)
require_certificate-Leaf (some []) cert h = absurd (ground arith)
require_certificate-Leaf (some ([] ∷ chains)) cert h = absurd (ground arith)
require_certificate-Leaf (some ((cert' ∷ rest) ∷ chains)) cert h =
    subst (Leaf (some ((cert' ∷ rest) ∷ chains))) (ground arith) (leaf cert' rest chains)

in_group-granted :
    (group : String) (a : Access Certificate) (cert : Certificate)
    → in_group group a ≡ granted cert
    → (a ≡ granted cert) × (contains cert.organization group ≡ true)
unfolding in_group
in_group-granted group (refused r) cert h = absurd (ground arith)
in_group-granted group (granted cert') cert h = ground arith

pub require_group-granted :
    (group : String) (conn : Connection) (cert : Certificate)
    → require_group group conn ≡ granted cert
    → Leaf conn cert × (contains cert.organization group ≡ true)
unfolding require_group
require_group-granted group conn cert h =
    let (found, member_of) = in_group-granted group (require_certificate conn) cert h in
    (require_certificate-Leaf conn cert found, member_of)

identify-granted :
    (get : String → Result Node) (o : Option String) (node_id : String)
    → identify get o ≡ granted node_id
    → (o ≡ some node_id) × (node_id ≢ "") × ((n : Node) × (get node_id ≡ ok n))
unfolding identify member
identify-granted get none node_id h = absurd (ground arith)
identify-granted get (some id) node_id h = elim (Result-cases (get id)) [
  | inr (e, p) ↦ absurd (ground arith)
  | inl (n, p) ↦ (ground arith, ground arith, (n, ground arith))
]

node_of-granted :
    (get : String → Result Node) (a : Access Certificate) (node_id : String)
    → node_of get a ≡ granted node_id
    → (cert : Certificate) × (a ≡ granted cert)
      × (identify get (cut_prefix cert.common_name "hambo:node:") ≡ granted node_id)
unfolding node_of
node_of-granted get (refused r) node_id h = absurd (ground arith)
node_of-granted get (granted cert) node_id h = (cert, refl, h)

-- If the middleware lets a request through as a node, then the leaf of the first verified chain is
-- in the group of the nodes and names the node, whose ID is not empty, and the node is stored.
pub node_only-granted :
    (get : String → Result Node) (conn : Connection) (node_id : String)
    → node_only get conn ≡ granted node_id
    → (cert : Certificate) × Leaf conn cert
      × (contains cert.organization "hambo:nodes" ≡ true)
      × (cut_prefix cert.common_name "hambo:node:" ≡ some node_id)
      × (node_id ≢ "")
      × ((n : Node) × (get node_id ≡ ok n))
unfolding node_only
node_only-granted get conn node_id h =
    let (cert, found, named) = node_of-granted get (require_group "hambo:nodes" conn) node_id h in
    let (is_leaf, member_of) = require_group-granted "hambo:nodes" conn cert found in
    let (cut, some_id, stored) =
      identify-granted get (cut_prefix cert.common_name "hambo:node:") node_id named in
    (cert, is_leaf, member_of, cut, some_id, stored)
