-- ===== src/Api/Tokens/Created.antt =====
-- A token that `createTokenHandler` of internal/api/tokens.go creates.
use hambo.Base.{ℕ, ◌+◌, String, Option, some, ok, ◌≡◌, ◌≢◌, refl, arith, dec_string, true}
use hambo.Base.Int.{ℤ, pos}
use hambo.Store.Tx.{Faults, write_tx}
use hambo.Model.Database.{Database, Collections}
use hambo.Token.{Token, format}
use hambo.Api.Http.{
  Response, token_created, Incoming, value, end_of_input, read, read_json, write_json,
}
use hambo.Api.Tokens.{
  lifetime, create_token_tx, create_token_handler, handle, with_duration, store_token, conclude,
}

-- The request as a client encodes it.
abbrev pub as_json : String → Incoming String
as_json text = record {
  media_type = some "application/json";
  first = value text;
  rest = end_of_input;
}

read_json-as_json : (text : String) → read_json (as_json text) ≡ read text
unfolding read_json dec_string
read_json-as_json text = refl

abbrev pub created : Token → ℕ → Response
created t expires_at =
    record (write_json 201 (token_created (record { token = format t; expires_at = expires_at }))) {
      no_store = true;
    }

module _ {N C T : Type 0} (c : Collections N C T) (parse_duration : String → Option ℤ)
    (secret_hash : String → String) where
  pub create_token_handler-created :
      (f : Faults) (now n : ℕ) (t : Token) (text : String) (db db' : Database N C T)
      → parse_duration text ≡ some (pos n)
      → text ≢ ""
      → lifetime (pos n) ≡ some n
      → write_tx f (create_token_tx c parse_duration secret_hash t.secret (now + n)) db
        ≡ (ok tt, db')
      → create_token_handler c parse_duration secret_hash f now (ok t) (as_json text) db
        ≡ (created t (now + n), db')
  unfolding create_token_handler handle with_duration store_token conclude
  create_token_handler-created f now n t text db db' p some_text l w =
      ground (arith, read_json-as_json text)
