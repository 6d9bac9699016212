-- ===== src/Client/Enrollment.antt =====
-- client/ca.go and `JoinNode` of client/nodes.go: the two calls of a worker that enrolls.
use hambo.Base.{
  ℕ, ◌*◌, String, Bool, true, not, ◌||◌, List, Option, some, Result, ok, err, failure,
  if◌then◌else◌, ◌==◌, nat_eq, ltb, length, ◌>>=◌, or_fail, ◌≡◌, ◌≢◌, ◌≤◌, arith, Option-cases,
  Result-cases, inl, inr,
}
use hambo.Token.{Token, generate, ca_fingerprint, generate_secret}
use hambo.Api.Http.{ErrorResponse, JoinNodeResponse}
use hambo.Client.{read_response_error, is_success}

-- `data` is what the body gave up to the limit and one byte more, if it could be read.
pub record CaReply : Type 0 where
  pub made : Bool
  pub sent : Bool
  pub status : ℕ
  pub body : Option (List ℕ)

abbrev pub max_ca_size : ℕ
max_ca_size = 64 * 1024

-- What the code uses of crypto and encoding packages, over the certificates `X` of crypto/x509:
-- `raw` is the field `Raw`, `pem_decode` gives the type and the bytes of the first block, `encode`
-- and `decode` are those of `base64.RawURLEncoding`, `pem` writes a certificate as a block, and
-- `pairs` says whether `tls.X509KeyPair` accepts a certificate and a key.
pub record Crypto (X : Type 0) : Type 0 where
  pub pem_decode : List ℕ → Option (String × List ℕ)
  pub parse_certificate : List ℕ → Option X
  pub raw : X → List ℕ
  pub encode : List ℕ → String
  pub decode : String → Option (List ℕ)
  pub sha256 : List ℕ → List ℕ
  pub pem : X → String
  pub pairs : String → String → Bool

module _ {X : Type 0} (crypto : Crypto X) where
  check_fingerprint : String → X → Result X
  check_fingerprint expected cert =
      if ca_fingerprint crypto.encode crypto.sha256 (crypto.raw cert) == expected
      then ok cert
      else err (failure "CA fingerprint does not match")

  parse_block : String × List ℕ → Result X
  parse_block block =
      if block.0 == "CERTIFICATE"
      then or_fail (crypto.parse_certificate block.1) (failure "parse CA certificate")
      else err (failure "CA response must contain a PEM certificate")

  read_ca : String → List ℕ → Result X
  unfolding check_fingerprint parse_block
  read_ca expected bytes = do
    block ← or_fail (crypto.pem_decode bytes) (failure "CA response must contain a PEM certificate")
    cert ← parse_block block
    check_fingerprint expected cert

  check_size : String → List ℕ → Result X
  unfolding read_ca
  check_size expected bytes =
      if ltb max_ca_size (length bytes)
      then err (failure "CA response is too large")
      else read_ca expected bytes

  unfoldable pub fetch_and_verify_ca : String → CaReply → Result X
  unfolding check_size
  fetch_and_verify_ca expected reply =
      if expected == ""
      then err (failure "CA fingerprint is required")
      else if not reply.made
      then err (failure "create CA request")
      else if not reply.sent
      then err (failure "fetch CA certificate")
      else if not (nat_eq reply.status 200)
      then err (failure "fetch CA certificate: status")
      else (or_fail reply.body (failure "read CA certificate") >>= λ bytes.
          check_size expected bytes)

  check_fingerprint_inv :
      (expected : String) (cert ca : X)
      → check_fingerprint expected cert ≡ ok ca
      → ca_fingerprint crypto.encode crypto.sha256 (crypto.raw ca) ≡ expected
  unfolding check_fingerprint
  check_fingerprint_inv expected cert ca h = ground arith

  read_ca_inv :
      (expected : String) (bytes : List ℕ) (ca : X)
      → read_ca expected bytes ≡ ok ca
      → ca_fingerprint crypto.encode crypto.sha256 (crypto.raw ca) ≡ expected
  unfolding read_ca
  read_ca_inv expected bytes ca h = elim (Option-cases (crypto.pem_decode bytes)) [
    | inl p ↦ absurd (ground arith)
    | inr (block, p) ↦ elim (Result-cases (parse_block block)) [
      | inr (e, q) ↦ absurd (ground arith)
      | inl (cert, q) ↦ check_fingerprint_inv expected cert ca (ground arith)
    ]
  ]

  -- A CA that the worker accepts has the fingerprint that was expected, which is not empty.
  pub fetch_and_verify_ca-ca_fingerprint :
      (expected : String) (reply : CaReply) (ca : X)
      → fetch_and_verify_ca expected reply ≡ ok ca
      → (expected ≢ "") × (ca_fingerprint crypto.encode crypto.sha256 (crypto.raw ca) ≡ expected)
  unfolding fetch_and_verify_ca check_size
  fetch_and_verify_ca-ca_fingerprint expected reply ca h = elim (Option-cases reply.body) [
    | inl p ↦ absurd (ground arith)
    | inr (bytes, p) ↦ (ground arith, ground (arith, read_ca_inv expected bytes ca))
  ]

  -- If a token was generated for a CA and its fingerprint is not empty, then the worker that has
  -- the token accepts this CA from an answer with the status 200 whose body has at most 64 KiB and
  -- decodes to a certificate block with the CA.
  pub fetch_and_verify_ca-generate :
      (ca : X) (random : Option (List ℕ)) (t : Token) (bytes : List ℕ) (reply : CaReply)
      → generate crypto.encode crypto.sha256 (crypto.raw ca) random ≡ ok t
      → t.ca_fingerprint ≢ ""
      → crypto.pem_decode bytes ≡ some ("CERTIFICATE", crypto.raw ca)
      → crypto.parse_certificate (crypto.raw ca) ≡ some ca
      → length bytes ≤ max_ca_size
      → reply ≡ record { made = true; sent = true; status = 200; body = some bytes }
      → fetch_and_verify_ca t.ca_fingerprint reply ≡ ok ca
  unfolding fetch_and_verify_ca check_size read_ca check_fingerprint parse_block generate
      generate_secret
  fetch_and_verify_ca-generate ca random t bytes reply made some_print block parsed small is =
      ground arith

-- The body of the answer to a join request.
pub data JoinBody : Type 0 where
  unreadable oversized undecodable : JoinBody
  decoded : JoinNodeResponse → JoinBody

pub record JoinReply : Type 0 where
  pub encoded : Bool
  pub made : Bool
  pub sent : Bool
  pub status : ℕ
  pub failed : Option ErrorResponse
  pub cancelled : Bool
  pub drained : Bool
  pub body : JoinBody

read_join : JoinBody → Result JoinNodeResponse
read_join unreadable = err (failure "read join response")
read_join oversized = err (failure "join response is too large")
read_join undecodable = err (failure "decode join response")
read_join (decoded r) =
    if r.node_id == "" || r.certificate == ""
    then err (failure "invalid join response: missing node ID or certificate")
    else ok r

-- The CA is there, since `fetch_and_verify_ca` gave it.
unfoldable pub join_node : String → JoinReply → Result JoinNodeResponse
unfolding read_join read_response_error
join_node secret reply =
    if secret == ""
    then err (failure "join token secret is required")
    else if not reply.encoded
    then err (failure "encode join request")
    else if not reply.made
    then err (failure "create join request")
    else if not reply.sent
    then err (failure "send join request")
    else if is_success reply.status
    then read_join reply.body
    else err (read_response_error reply.status reply.failed reply.cancelled reply.drained)

read_join_inv :
    (b : JoinBody) (r : JoinNodeResponse)
    → read_join b ≡ ok r
    → (r.node_id ≢ "") × (r.certificate ≢ "")
unfolding read_join
read_join_inv unreadable r h = absurd (ground arith)
read_join_inv oversized r h = absurd (ground arith)
read_join_inv undecodable r h = absurd (ground arith)
read_join_inv (decoded s) r h = ground arith

-- An answer that is accepted has a node ID and a certificate.
pub join_node_inv :
    (secret : String) (reply : JoinReply) (r : JoinNodeResponse)
    → join_node secret reply ≡ ok r
    → (r.node_id ≢ "") × (r.certificate ≢ "")
unfolding join_node
join_node_inv secret reply r h = ground (arith, read_join_inv reply.body r)
