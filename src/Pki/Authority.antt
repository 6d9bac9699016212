-- ===== src/Pki/Authority.antt =====
-- internal/pki: how a CA is made and loaded, and the request of a node. crypto/x509, crypto/tls and
-- crypto/ed25519 are parameters.
pub mod Loaded
use hambo.Base.{
  ℕ, ◌+◌, ◌-◌, ◌*◌, ◌%◌, ◌≤◌, String, Bool, true, false, not, ◌||◌, List, [], ◌∷◌, Option, none,
  some, Result, ok, err, Error, failure, if◌then◌else◌, nat_eq, ◌>>=◌, ◌>>◌, or_fail,
}
use hambo.Files.{Files, read_file}
use hambo.Pki.{Template, Ca, Credentials, minute}
use hambo.Pki.Save.{crt_path, key_path}

-- What the code uses of them: `create` is `x509.CreateCertificate` for a subject's key and with the
-- issuer's, and then `x509.ParseCertificate`; `describe` is what a parsed certificate says;
-- `load_pair` is `tls.LoadX509KeyPair` of two texts, with the key if it is an Ed25519 key, and then
-- `x509.ParseCertificate`; `five_years_on` is `AddDate(5, 0, 0)`; `key_size` is the key's length.
pub record X509 (K C : Type 0) : Type 0 where
  pub create : Template → K → K → Option C
  pub describe : C → Template
  pub encode_certificate : C → String
  pub encode_key : K → Option String
  pub load_pair : String → String → Option (C × Option K)
  pub five_years_on : ℕ → ℕ
  pub key_size : K → ℕ
  pub create_request : K → Option (List ℕ)

module _ {K C : Type 0} (x509 : X509 K C) where
  unfoldable pub ca_template : ℕ → Template
  ca_template now = record {
    common_name = "Hambo CA";
    organization = [];
    not_before = now - 5 * minute;
    not_after = x509.five_years_on now;
    constraints_valid = true;
    is_ca = true;
    cert_sign = true;
    server_auth = false;
    dns_names = [];
    ip_addresses = [];
  }

  -- `generated` is what `ed25519.GenerateKey` gives.
  unfoldable pub generate_ca : Option K → ℕ → Result (Credentials K C)
  unfolding ca_template
  generate_ca generated now = do
    key ← or_fail generated (failure "generate CA key")
    certificate ← or_fail (x509.create (ca_template now) key key) (failure "create CA certificate")
    ok (record { certificate = certificate; private_key = key })

  unfoldable pub check_ca : Template → Result (Unit {0})
  check_ca t =
      if not t.constraints_valid || not t.is_ca
      then err (failure "CA certificate must have valid CA constraints")
      else if not t.cert_sign
      then err (failure "CA certificate must allow certificate signing")
      else ok tt

  -- `reads` is whether files that are there can be read.
  unfoldable pub load_ca : Bool → String → Files → Result (Credentials K C)
  unfolding check_ca read_file
  load_ca reads dir files = do
    crt ← or_fail (read_file reads (crt_path dir "ca") files) (failure "load CA")
    key_pem ← or_fail (read_file reads (key_path dir "ca") files) (failure "load CA")
    pair ← or_fail (x509.load_pair crt key_pem) (failure "load CA certificate and key")
    check_ca (x509.describe pair.0)
    key ← or_fail pair.1 (failure "CA private key must use Ed25519")
    ok (record { certificate = pair.0; private_key = key })

  -- 64 is `ed25519.PrivateKeySize`.
  unfoldable pub generate_node_csr : K → Result (List ℕ)
  generate_node_csr key =
      if not (nat_eq (x509.key_size key) 64)
      then err (failure "invalid Ed25519 private key size")
      else or_fail (x509.create_request key) (failure "create CSR")

  -- The time of a CA's parsed certificate.
  unfoldable pub time_of : Credentials K C → Ca
  time_of ca =
      let t = x509.describe ca.certificate in
      record { not_before = t.not_before; not_after = t.not_after }
