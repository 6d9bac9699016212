-- ===== src/Tests/Access.antt =====
-- Certificates and tokens, and who is let through.
use hambo.Base.{
  ℕ, String, true, false, List, [], ◌∷◌, ◌≡◌, refl, Result, ok, Option, dec_string, some, none,
  arith, if◌then◌else◌,
}
use hambo.Base.Text.{cut_prefix}
use hambo.Store.Memory.{find}
use hambo.Store.Collection.{get_tx}
use hambo.Model.Node.{Node}
use hambo.Token.{Token, format, parse}
use hambo.Token.RoundTrip.{has_dot, AreParts, parse-format}
use hambo.Pki.{Template, Ca, Csr, issue_node_certificate, node_template, clamped, check_time}
use hambo.Pki.Identity.{Issued, issue_node_certificate-Issued}
use hambo.Api.Auth.{Connection, require_certificate, require_group, contains, node_only}
use hambo.Api.Routes.{report_node_status, dispatch, pass, find_route}
use hambo.Api.Routes.Permitted.{IsNode, dispatch-Needs}
use hambo.Tests.Fixtures.{collections, busy_db}

abbrev nodes : String → Result Node
nodes id = collections.nodes.get_tx id busy_db.nodes

abbrev conn : Connection
conn = some ((record { organization = "hambo:nodes" ∷ []; common_name = "hambo:node:a" } ∷ []) ∷ [])

dispatch-Needs_example : IsNode nodes conn "a"
unfolding dispatch find_route pass node_only require_group require_certificate contains cut_prefix
    get_tx find dec_string
dispatch-Needs_example =
    dispatch-Needs nodes conn "POST" "/nodes/self/status"
      (record { handler = report_node_status; node_id = some "a" }) refl

-- A CSR that is its own key, and a certificate that is its template.
abbrev parse_csr : List ℕ → Option (Csr (List ℕ))
parse_csr der = some (record { public_key = some der; signed = true })

abbrev sign : Template → List ℕ → Option Template
sign t key = some t

abbrev ca : Ca
ca = record { not_before = 0; not_after = 9000000000000000000 }

abbrev now : ℕ
now = 1000000000000000000

issue_node_certificate-Issued_example :
    Issued parse_csr sign none ca now "a" (1 ∷ []) (node_template ca now "a")
unfolding issue_node_certificate check_time node_template clamped dec_string
issue_node_certificate-Issued_example =
    issue_node_certificate-Issued parse_csr sign none ca now "a" (1 ∷ []) (node_template ca now "a")
      refl

abbrev bytes : List ℕ
bytes =
    1 ∷ 2 ∷ 3 ∷ 4 ∷ 5 ∷ 6 ∷ 7 ∷ 8 ∷ 9 ∷ 10 ∷ 11 ∷ 12 ∷ 13 ∷ 14 ∷ 15 ∷ 16 ∷ 17 ∷ 18 ∷ 19 ∷ 20 ∷ 21
    ∷ 22 ∷ 23 ∷ 24 ∷ 25 ∷ 26 ∷ 27 ∷ 28 ∷ 29 ∷ 30 ∷ 31 ∷ 32 ∷ []

-- A decoder that refuses a dot, as base64 does.
unfoldable decode : String → Option (List ℕ)
unfolding has_dot
decode s = if has_dot s then none else some bytes

decode-has_dot : (s : String) (b : List ℕ) → decode s ≡ some b → has_dot s ≡ false
unfolding decode
decode-has_dot s b h = ground arith

abbrev a_token : Token
a_token = record { ca_fingerprint = "Ab"; secret = "x-" }

a_token-AreParts : AreParts decode a_token
unfolding AreParts decode has_dot
a_token-AreParts = ((bytes, refl, refl), (bytes, refl, refl))

parse-format_example : parse decode (format a_token) ≡ ok a_token
parse-format_example = parse-format decode decode-has_dot a_token a_token-AreParts
