-- ===== src/Worker/Join/ExactlyOnce.antt =====
-- An enrollment whose answer was lost: internal/worker/join.go with `joinNodeHandler` of
-- internal/api/nodes.go.
use hambo.Base.{
  ℕ, ◌<◌, String, true, false, List, Option, none, some, Result, ok, err, ◌≡◌, ◌≢◌, ap, ◌∙◌, arith,
  ◌⊎◌,
}
use hambo.Token
use hambo.Token.{parse}
use hambo.Model.Token.{Metadata}
use hambo.Model.Database.{Database, Collections, AreLawful}
use hambo.Api.Http.{Response, Body, failed, joined, ErrorResponse, JoinNodeResponse, write_json}
use hambo.Api.Join.{Joined, join_tx}
use hambo.Api.Join.Handler.{answer}
use hambo.Api.Join.Retry.{join_tx-retry}
use hambo.Client.Enrollment.{
  Crypto, JoinReply, JoinBody, undecodable, decoded, fetch_and_verify_ca, join_node,
}
use hambo.Worker.State.{State, Disk, file, save_state}
use hambo.Worker.Join.{
  JoinConfig, Run, request_of, completed, complete, contact, store, saved, enroll, join,
}
use hambo.Worker.Join.Resume.{IsPending, resumed}

abbrev error_body : Body → Option ErrorResponse
error_body (failed e) = some e
error_body b = none

abbrev join_body : Body → JoinBody
join_body (joined r) = decoded r
join_body b = undecodable

-- The answer as the server wrote it.
abbrev pub arrived : Response → JoinReply
arrived r = record {
  encoded = true;
  made = true;
  sent = true;
  status = r.status;
  failed = error_body r.body;
  cancelled = false;
  drained = true;
  body = join_body r.body;
}

abbrev pub result_of : {A B : Type 0} → Result (A × B) → Result A
result_of (ok r) = ok r.0
result_of (err e) = err e

join_node-arrived :
    (secret : String) (r : JoinNodeResponse)
    → secret ≢ ""
    → r.node_id ≢ ""
    → r.certificate ≢ ""
    → join_node secret (arrived (answer (ok (record { status_code = 200; response = r })))) ≡ ok r
unfolding join_node answer write_json
join_node-arrived secret r some_secret some_id some_cert = ground arith

module _ {X : Type 0} (crypto : Crypto X) where
  enroll_arrived :
      (again : Run X) (s : State) (t : Token.Token) (d : Disk) (ca : X) (r : JoinNodeResponse)
      → fetch_and_verify_ca crypto t.ca_fingerprint again.ca_reply ≡ ok ca
      → join_node t.secret (again.join_reply ca t.secret (request_of s)) ≡ ok r
      → crypto.pairs r.certificate s.private_key ≡ true
      → again.last_save ≡ true
      → enroll crypto again s t d ≡ (
        ok (record { node_id = r.node_id; already_configured = false }),
        file (completed crypto ca r s),
      )
  unfolding enroll contact store saved save_state complete completed
  enroll_arrived again s t d ca r fetched got paired saves = ground arith

  module _ {N C T : Type 0} (c : Collections N C T) (issue : ℕ → String → List ℕ → Result String)
      (lawful : AreLawful c) where
    -- An enrollment is completed exactly once although its first answer was lost: if the server has
    -- answered the request of a pending worker with a node ID and a certificate, neither empty, and
    -- a later run of `Join` for the same server and name, without a token or with the same one,
    -- gets the lock, fetches a CA, asks again before the token expires, receives the answer as the
    -- server then writes it, finds its key to fit the certificate, and can save, then this run ends
    -- with the node ID of the first answer and stores its credentials, and the server's database
    -- stays as the first answer left it.
    pub join-join_tx :
        (now later : ℕ) (node_id node_id' secret_hash request_hash : String) (j : Joined)
        (db db' : Database N C T) (m : Metadata) (again : Run X) (cfg : JoinConfig) (s : State)
        (t : Token.Token) (ca : X)
        → c.tokens.get_tx secret_hash db.tokens ≡ ok m
        → later < m.expires_at
        → join_tx c issue now node_id secret_hash request_hash (request_of s) db ≡ ok (j, db')
        → IsPending s
        → s.server_url ≡ cfg.server_url
        → s.name ≡ cfg.name
        → (cfg.token ≡ "") ⊎ (cfg.token ≡ s.token)
        → parse crypto.decode s.token ≡ ok t
        → t.secret ≢ ""
        → j.response.node_id ≢ ""
        → j.response.certificate ≢ ""
        → again.locks ≡ true
        → again.last_save ≡ true
        → fetch_and_verify_ca crypto t.ca_fingerprint again.ca_reply ≡ ok ca
        → crypto.pairs j.response.certificate s.private_key ≡ true
        → again.join_reply ca t.secret (request_of s)
          ≡ arrived (
              answer (
                result_of
                  (join_tx c issue later node_id' secret_hash request_hash (request_of s) db')))
        → (join crypto again cfg (file s) ≡ (
          ok (record { node_id = j.response.node_id; already_configured = false }),
          file (completed crypto ca j.response s),
        ))
          × (join_tx c issue later node_id' secret_hash request_hash (request_of s) db'
              ≡ ok (record { status_code = 200; response = j.response }, db'))
    join-join_tx now later node_id node_id' secret_hash request_hash j db db' m again cfg s t ca
          found in_time first pending url name which parsed some_secret some_id some_cert locks
          saves fetched paired reply =
        let answered =
          join_tx-retry c issue lawful now later node_id node_id' secret_hash request_hash
            (request_of s) j db db' m found in_time first in
        (
          resumed crypto again cfg s t locks pending url name which parsed
              ∙ enroll_arrived again s t (file s) ca j.response fetched
                  (ap (join_node t.secret)
                      (reply ∙ ap (λ x. arrived (answer (result_of x))) answered)
                    ∙ join_node-arrived t.secret j.response some_secret some_id some_cert)
                  paired saves,
          answered,
        )
