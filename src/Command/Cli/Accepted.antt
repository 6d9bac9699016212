-- ===== src/Command/Cli/Accepted.antt =====
-- A command of cmd/hambo, through client, to a handler of internal/api, and back.
use hambo.Base.{
  ℕ, ◌+◌, ◌≤◌, ◌<◌, String, true, false, Option, none, some, ok, ◌≡◌, ◌≢◌, refl, ap, ◌∙◌, arith,
}
use hambo.Base.Int.{ℤ, pos}
use hambo.Store.Tx.{Faults, write_tx}
use hambo.Model.Database.{Database, Collections}
use hambo.Token.{Token, format}
use hambo.Api.Http.{Response, Body, token_created, CreateTokenResponse, write_json}
use hambo.Api.Tokens.{lifetime, max_token_ttl, create_token_tx, create_token_handler}
use hambo.Api.Tokens.Created.{as_json, created, create_token_handler-created}
use hambo.Client.{Exchange, do_call}
use hambo.Client.Connect.{Client}
use hambo.Command.Cli.{check_ttl, token_create}

abbrev created_of : Body → Option CreateTokenResponse
created_of (token_created r) = some r
created_of b = none

abbrev pub delivered : Response → Exchange CreateTokenResponse
delivered r = record {
  made = true;
  sent = true;
  status = r.status;
  failed = none;
  output = created_of r.body;
  cancelled = false;
  drained = true;
}

delivered-created :
    (t : Token) (expires_at : ℕ)
    → do_call (delivered (created t expires_at))
      ≡ ok (record { token = format t; expires_at = expires_at })
unfolding do_call write_json
delivered-created t expires_at = refl

module _ {N C T : Type 0} (c : Collections N C T) (parse_duration : String → Option ℤ)
    (secret_hash : String → String) (duration_text : ℤ → String) where
  pub token_create-format :
      (f : Faults) (now n : ℕ) (t : Token) (db db' : Database N C T) (client : Client)
      (call : Client → String → Exchange CreateTokenResponse)
      → 0 < n
      → n ≤ max_token_ttl
      → parse_duration (duration_text (pos n)) ≡ some (pos n)
      → duration_text (pos n) ≢ ""
      → write_tx f (create_token_tx c parse_duration secret_hash t.secret (now + n)) db
        ≡ (ok tt, db')
      → call client (duration_text (pos n))
        ≡ delivered
            (create_token_handler c parse_duration secret_hash f now
              (ok t)
              (as_json (duration_text (pos n)))
              db).0
      → token_create duration_text (ok client) call (pos n) ≡ ok (format t)
  unfolding token_create check_ttl lifetime
  token_create-format f now n t db db' client call some_time small parsed some_text stored is =
      let reply =
        ap do_call (
          is
          ∙ ap (λ x. delivered x.0)
              (create_token_handler-created c parse_duration secret_hash f now n t
                (duration_text (pos n)) db db' parsed some_text (ground arith) stored))
        ∙ delivered-created t (now + n) in
      ground (arith, reply)
