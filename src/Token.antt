-- ===== src/Token.antt =====
-- internal/token/token.go and parse.go: join tokens as text.
pub mod RoundTrip
use hambo.Base.{
  ℕ, ◌<>◌, String, Bool, true, false, List, [], ◌∷◌, Option, none, some, Result, ok, err, Error,
  failure, if◌then◌else◌, nat_eq, length, ◌>>=◌, ◌>>◌,
}
use hambo.Base.Text.{split_dots}
use hambo.Model.Hex.{hex}

pub record Token : Type 0 where
  pub ca_fingerprint : String
  pub secret : String

unfoldable pub format : Token → String
format t = t.ca_fingerprint <> ("." <> t.secret)

-- `sha256` is `sha256.Sum256`, over the text's bytes.
unfoldable pub secret_hash : (String → List ℕ) → Token → String
unfolding hex
secret_hash sha256 t = hex (sha256 t.secret)

abbrev pub two_parts : Error
two_parts = failure "token must contain a CA fingerprint and secret"

abbrev pub not_base64 : Error
not_base64 = failure "decode token part"

abbrev pub not_32_bytes : Error
not_32_bytes = failure "each token part must contain 32 bytes"

-- `decode` and `encode` are `base64.RawURLEncoding`.
module _ (decode : String → Option (List ℕ)) where
  check_decoded : Option (List ℕ) → Result (Unit {0})
  check_decoded none = err not_base64
  check_decoded (some bytes) = if nat_eq (length bytes) 32 then ok tt else err not_32_bytes

  -- The loop over the parts.
  check_parts : List String → Result (Unit {0})
  unfolding check_decoded
  check_parts [] = ok tt
  check_parts (p ∷ ps) = do check_decoded (decode p); check_parts ps

  parse_parts : List String → Result Token
  unfolding check_parts
  parse_parts (fingerprint ∷ secret ∷ []) = do
    check_parts (fingerprint ∷ secret ∷ [])
    ok (record { ca_fingerprint = fingerprint; secret = secret })
  parse_parts _ = err two_parts

  unfoldable pub parse : String → Result Token
  unfolding parse_parts split_dots
  parse value = parse_parts (split_dots value)

module _ (encode : List ℕ → String) where
  -- From the bytes that `rand.Read` fills in, or none if it fails.
  unfoldable pub generate_secret : Option (List ℕ) → Result String
  generate_secret none = err (failure "generate token secret")
  generate_secret (some bytes) = ok (encode bytes)

  -- Of the CA's certificate in DER.
  unfoldable pub ca_fingerprint : (List ℕ → List ℕ) → List ℕ → String
  ca_fingerprint sha256 raw = encode (sha256 raw)

  unfoldable pub generate : (List ℕ → List ℕ) → List ℕ → Option (List ℕ) → Result Token
  unfolding generate_secret ca_fingerprint
  generate sha256 raw bytes = do
    secret ← generate_secret bytes
    ok (record { ca_fingerprint = ca_fingerprint sha256 raw; secret = secret })
