-- ===== src/Api/Tokens.antt =====
-- `createTokenHandler` of internal/api/tokens.go.
pub mod Lifetime
pub mod Created
use hambo.Base.{
  ℕ, ◌+◌, ◌*◌, ◌<>◌, String, Bool, true, false, not, ◌||◌, List, [], ◌∷◌, Option, none, some,
  Result, ok, err, Error, failure, if◌then◌else◌, ◌==◌, leb, ltb, ◌>>=◌,
}
use hambo.Base.Int.{ℤ, pos, negsuc}
use hambo.Store.{Table}
use hambo.Store.Tx.{Faults, write_tx}
use hambo.Model.Node.{second}
use hambo.Model.Token.{Metadata}
use hambo.Model.Database.{Database, Collections}
use hambo.Pki.{minute}
use hambo.Token.{Token, format, generate}
use hambo.Api.Http.{
  Response, Incoming, Reading, read, answered, read_json, write_json, write_error_json,
  write_validation_error_json, CreateTokenResponse, token_created,
}

abbrev pub default_token_ttl : ℕ
default_token_ttl = 15 * minute

abbrev pub max_token_ttl : ℕ
max_token_ttl = 86400 * second

-- `ttl <= 0 || ttl > maxTokenTTL`, or the lifetime.
unfoldable pub lifetime : ℤ → Option ℕ
lifetime (negsuc n) = none
lifetime (pos n) = if leb n 0 || ltb max_token_ttl n then none else some n

abbrev bad_duration : Response
bad_duration = write_validation_error_json (("ttl", "must be a duration such as 15m or 1h") ∷ [])

abbrev bad_ttl : Response
bad_ttl =
    write_validation_error_json (("ttl", "must be greater than zero and no more than 24h") ∷ [])

abbrev not_created : Response
not_created = write_error_json 500 "could not create token"

-- `parse_duration` is `time.ParseDuration`, and `secret_hash` the digest of a secret in hexadecimal.
module _ {N C T : Type 0} (c : Collections N C T) (parse_duration : String → Option ℤ)
    (secret_hash : String → String) where
  -- The collection's `Create`, which reads and writes the tokens alone.
  unfoldable pub create_token_tx : String → ℕ → Database N C T → Result (Unit {0} × Database N C T)
  create_token_tx secret expires_at db = do
    tokens ←
        c.tokens.create_tx (secret_hash secret)
          (record { expires_at = expires_at; enrollment = none }) db.tokens
    ok (tt, record db { tokens = tokens })

  conclude : Token → ℕ → Result (Unit {0}) × Database N C T → Response × Database N C T
  conclude t expires_at (err e, db) = (not_created, db)
  conclude t expires_at (ok u, db) =
      let response : CreateTokenResponse = record { token = format t; expires_at = expires_at } in
      (record (write_json 201 (token_created response)) { no_store = true }, db)

  store_token : Faults → ℕ → Result Token → Option ℕ → Database N C T → Response × Database N C T
  unfolding conclude format create_token_tx
  store_token f now generated none db = (bad_ttl, db)
  store_token f now (err e) (some ttl) db = (not_created, db)
  store_token f now (ok t) (some ttl) db =
      conclude t (now + ttl) (write_tx f (create_token_tx t.secret (now + ttl)) db)

  with_duration : Faults → ℕ → Result Token → Option ℤ → Database N C T → Response × Database N C T
  unfolding store_token lifetime
  with_duration f now generated none db = (bad_duration, db)
  with_duration f now generated (some d) db = store_token f now generated (lifetime d) db

  handle : Faults → ℕ → Result Token → Reading String → Database N C T → Response × Database N C T
  unfolding with_duration
  handle f now generated (answered r) db = (r, db)
  handle f now generated (read ttl) db =
      with_duration f now generated
        (if ttl == "" then some (pos default_token_ttl) else parse_duration ttl) db

  -- The request is the text of its field `ttl`, empty if it has none; `generated` is what
  -- `Generate` of Token.antt gives for the CA.
  unfoldable pub create_token_handler :
      Faults → ℕ → Result Token → Incoming String → Database N C T → Response × Database N C T
  unfolding handle
  create_token_handler f now generated i db = handle f now generated (read_json i) db
