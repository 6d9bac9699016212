-- ===== src/Api/Construct/Fetched.antt =====
-- `getCAHandler` of internal/api/ca.go, with the token of internal/token and `FetchAndVerifyCA` of
-- client/ca.go.
use hambo.Base.{ℕ, ◌≤◌, String, List, Option, some, ok, length, ◌≡◌, ◌≢◌, refl, true}
use hambo.Token.{Token, generate}
use hambo.Client.Enrollment.{
  Crypto, CaReply, max_ca_size, fetch_and_verify_ca, fetch_and_verify_ca-generate,
}
use hambo.Api.Construct.{get_ca_handler}

module _ {X : Type 0} (crypto : Crypto X) (pem_encode : String → List ℕ → List ℕ) where
  -- The answer of the handler as it arrives.
  abbrev pub fetched : X → CaReply
  fetched ca = record {
    made = true;
    sent = true;
    status = 200;
    body = some (get_ca_handler crypto.raw pem_encode ca).1;
  }

  -- If a token was generated for a CA and its fingerprint is not empty, then the worker that has
  -- the token accepts the answer of `getCAHandler` as this CA, where a PEM block and the
  -- certificate's bytes are read back as what they were, and the text has at most 64 KiB.
  pub fetch_and_verify_ca-get_ca_handler :
      (ca : X) (random : Option (List ℕ)) (t : Token)
      → ((bytes : List ℕ)
          → crypto.pem_decode (pem_encode "CERTIFICATE" bytes) ≡ some ("CERTIFICATE", bytes))
      → crypto.parse_certificate (crypto.raw ca) ≡ some ca
      → length (pem_encode "CERTIFICATE" (crypto.raw ca)) ≤ max_ca_size
      → generate crypto.encode crypto.sha256 (crypto.raw ca) random ≡ ok t
      → t.ca_fingerprint ≢ ""
      → fetch_and_verify_ca crypto t.ca_fingerprint (fetched ca) ≡ ok ca
  unfolding get_ca_handler
  fetch_and_verify_ca-get_ca_handler ca random t decodes parses small made some_print =
      fetch_and_verify_ca-generate crypto ca random t (pem_encode "CERTIFICATE" (crypto.raw ca))
        (fetched ca) made some_print (decodes (crypto.raw ca)) parses small refl
