-- ===== src/Pki.antt =====
-- internal/pki: the certificates that the server issues. The cryptography and the encodings of
-- crypto/x509 are parameters.
pub mod Identity
pub mod Save
pub mod Authority
use hambo.Base.{
  ℕ, ◌+◌, ◌-◌, ◌*◌, ◌≤◌, ◌<◌, ◌<>◌, String, Bool, true, false, not, List, [], ◌∷◌, ◌≡◌, arith,
  Option, none, some, Result, ok, err, Error, errdef, failure, invalid_argument, if◌then◌else◌,
  ◌==◌, ltb, ◌>>=◌, or_fail,
}
use hambo.Model.Node.{second}

-- What the code sets of an `x509.Certificate`. `server_auth` is its one extended use: to
-- authenticate a server, or else a client; `cert_sign` that its key signs certificates, or else
-- it is for digital signatures alone, with the extended use.
pub record Template : Type 0 where
  pub common_name : String
  pub organization : List String
  pub not_before : ℕ
  pub not_after : ℕ
  pub constraints_valid : Bool
  pub is_ca : Bool
  pub cert_sign : Bool
  pub server_auth : Bool
  pub dns_names : List String
  pub ip_addresses : List String

-- The time of a CA's certificate.
pub record Ca : Type 0 where
  pub not_before : ℕ
  pub not_after : ℕ

-- A certificate with its private key: a `CA`, or a `Certificate` of the server or an administrator.
pub record Credentials (K C : Type 0) : Type 0 where
  pub certificate : C
  pub private_key : K

-- A CSR that could be parsed: its key, if that is an Ed25519 key, and whether its signature holds.
pub record Csr (K : Type 0) : Type 0 where
  pub public_key : Option K
  pub signed : Bool

abbrev pub minute : ℕ
minute = 60 * second

abbrev pub day : ℕ
day = 86400 * second

abbrev pub bad_csr : Error
bad_csr = errdef invalid_argument "must contain a valid Ed25519 CSR"

-- `NotBefore` and `NotAfter`, cut to the time of the CA. A day of `AddDate` has 24 hours here, as it
-- has where no clock is changed.
unfoldable pub clamped : Ca → ℕ → Template → Template
clamped ca now t = record t {
  not_before = (if ltb (now - 5 * minute) ca.not_before then ca.not_before else now - 5 * minute);
  not_after = (if ltb ca.not_after (now + 90 * day) then ca.not_after else now + 90 * day);
}

unfoldable pub check_time : Ca → ℕ → Result (Unit {0})
check_time ca now =
    if ltb now ca.not_before
    then err (failure "CA is not valid yet")
    else if not (ltb now ca.not_after)
    then err (failure "CA has expired")
    else ok tt

abbrev leaf : String → List String → Template
leaf name groups = record {
  common_name = name;
  organization = groups;
  not_before = 0;
  not_after = 0;
  constraints_valid = true;
  is_ca = false;
  cert_sign = false;
  server_auth = false;
  dns_names = [];
  ip_addresses = [];
}

unfoldable pub node_template : Ca → ℕ → String → Template
unfolding clamped
node_template ca now node_id = clamped ca now (leaf ("hambo:node:" <> node_id) ("hambo:nodes" ∷ []))

unfoldable pub admin_template : Ca → ℕ → Template
unfolding clamped
admin_template ca now = clamped ca now (leaf "admin" ("hambo:admins" ∷ []))

unfoldable pub server_template : Ca → ℕ → Template
unfolding clamped
server_template ca now = clamped ca now (record (leaf "Hambo Server" []) {
  server_auth = true;
  dns_names = "localhost" ∷ [];
  ip_addresses = "127.0.0.1" ∷ [];
})

-- `parse_csr` is `x509.ParseCertificateRequest` with `CheckSignature`, `sign` is
-- `x509.CreateCertificate` with the CA's key, and then `x509.ParseCertificate`; `generate_key` is
-- `ed25519.GenerateKey`.
module _ {K C : Type 0} (parse_csr : List ℕ → Option (Csr K)) (sign : Template → K → Option C)
    (generate_key : Option K) where
  check_signed : Csr K → Result (Unit {0})
  check_signed r = if r.signed then ok tt else err bad_csr

  check_node_id : String → Result (Unit {0})
  check_node_id node_id =
      if node_id == ""
      then err (failure "cannot issue node certificate: node ID is required")
      else ok tt

  unfoldable pub issue_node_certificate : Ca → ℕ → String → List ℕ → Result C
  unfolding check_node_id check_time check_signed node_template
  issue_node_certificate ca now node_id der = do
    checked ← check_node_id node_id
    valid ← check_time ca now
    csr ← or_fail (parse_csr der) bad_csr
    key ← or_fail csr.public_key bad_csr
    verified ← check_signed csr
    or_fail (sign (node_template ca now node_id) key) (failure "create node certificate")

  unfoldable pub issue_admin_certificate : Ca → ℕ → Result (Credentials K C)
  unfolding check_time admin_template
  issue_admin_certificate ca now = do
    valid ← check_time ca now
    key ← or_fail generate_key (failure "generate admin key")
    certificate ← or_fail (sign (admin_template ca now) key) (failure "create admin certificate")
    ok (record { certificate = certificate; private_key = key })

  unfoldable pub issue_server_certificate : Ca → ℕ → Result (Credentials K C)
  unfolding check_time server_template
  issue_server_certificate ca now = do
    valid ← check_time ca now
    key ← or_fail generate_key (failure "generate server key")
    certificate ← or_fail (sign (server_template ca now) key) (failure "create server certificate")
    ok (record { certificate = certificate; private_key = key })
