-- ===== src/Worker/Join.antt =====
-- `Join` of internal/worker/join.go: the enrollment of a worker, which may be interrupted.
pub mod Outcome
pub mod Resume
pub mod ExactlyOnce
use hambo.Base.{
  ℕ, String, Bool, true, false, not, ◌&&◌, ◌||◌, List, [], ◌∷◌, Option, none, some, Result, ok, err,
  Error, failure, if◌then◌else◌, ◌==◌, ◌>>=◌, or_fail,
}
use hambo.Base.Text.{trim_space}
use hambo.Token
use hambo.Token.{parse}
use hambo.Api.Http.{JoinNodeResponse}
use hambo.Api.Join.{JoinNodeRequest}
use hambo.Client.Enrollment.{Crypto, CaReply, JoinReply, fetch_and_verify_ca, join_node}
use hambo.Worker.State.{State, Disk, load_state, save_state}

pub record JoinConfig : Type 0 where
  pub server_url : String
  pub token : String
  pub name : String

pub record JoinResult : Type 0 where
  pub node_id : String
  pub already_configured : Bool

-- What one run meets outside: the lock, the key in PEM and the CSR that `newEnrollment` makes,
-- whether its two saves work, the answer to the request for the CA, and the answer to a join
-- request that is sent with that CA and a secret.
pub record Run (X : Type 0) : Type 0 where
  pub locks : Bool
  pub key_and_csr : Result (String × List ℕ)
  pub first_save : Bool
  pub last_save : Bool
  pub ca_reply : CaReply
  pub join_reply : X → String → JoinNodeRequest → JoinReply

abbrev pub pending_state : JoinConfig → String → List ℕ → State
pending_state cfg key csr = record {
  server_url = cfg.server_url;
  token = cfg.token;
  name = cfg.name;
  private_key = key;
  csr = csr;
  node_id = "";
  ca_certificate = "";
  certificate = "";
}

abbrev pub request_of : State → JoinNodeRequest
request_of s = record { name = s.name; csr = s.csr }

abbrev is_empty : List ℕ → Bool
is_empty [] = true
is_empty (b ∷ bs) = false

module _ {X : Type 0} (crypto : Crypto X) where
  unfoldable pub completed : X → JoinNodeResponse → State → State
  completed ca response s = record s {
    node_id = response.node_id;
    certificate = response.certificate;
    ca_certificate = crypto.pem ca;
    token = "";
    csr = [];
  }

  -- The calls of `enroll`, up to the completed state.
  complete : X → State → JoinNodeResponse → Result State
  unfolding completed
  complete ca s response =
      if crypto.pairs response.certificate s.private_key
      then ok (completed ca response s)
      else err (failure "parse worker certificate and key")

  contact : Run X → State → Token.Token → Result State
  unfolding complete fetch_and_verify_ca join_node
  contact run s t = do
    ca ← fetch_and_verify_ca crypto t.ca_fingerprint run.ca_reply
    response ← join_node t.secret (run.join_reply ca t.secret (request_of s))
    complete ca s response

  saved : Result (Unit {0}) × Disk → State → Result JoinResult × Disk
  saved (err e, d) s = (err e, d)
  saved (ok u, d) s = (ok (record { node_id = s.node_id; already_configured = false }), d)

  store : Run X → Result State → Disk → Result JoinResult × Disk
  unfolding saved save_state
  store run (err e) d = (err e, d)
  store run (ok s) d = saved (save_state run.last_save s d) s

  unfoldable pub enroll : Run X → State → Token.Token → Disk → Result JoinResult × Disk
  unfolding contact store
  enroll run s t d = store run (contact run s t) d

  begin_saved : Run X → State → Token.Token → Result (Unit {0}) × Disk → Result JoinResult × Disk
  unfolding enroll
  begin_saved run s t (err e, d) = (err e, d)
  begin_saved run s t (ok u, d) = enroll run s t d

  begin_with :
      Run X → JoinConfig → Token.Token → Result (String × List ℕ) → Disk → Result JoinResult × Disk
  unfolding begin_saved save_state
  begin_with run cfg t (err e) d = (err e, d)
  begin_with run cfg t (ok (key, csr)) d =
      let s = pending_state cfg key csr in begin_saved run s t (save_state run.first_save s d)

  begin_parsed : Run X → JoinConfig → Result Token.Token → Disk → Result JoinResult × Disk
  unfolding begin_with
  begin_parsed run cfg (err e) d = (err e, d)
  begin_parsed run cfg (ok t) d = begin_with run cfg t run.key_and_csr d

  -- There is no state yet.
  begin : Run X → JoinConfig → Disk → Result JoinResult × Disk
  unfolding begin_parsed trim_space
  begin run cfg d =
      if trim_space cfg.token == ""
      then (err (failure "join token is required for enrollment"), d)
      else begin_parsed run cfg (parse crypto.decode cfg.token) d

  resume_parsed : Run X → State → Result Token.Token → Disk → Result JoinResult × Disk
  unfolding enroll
  resume_parsed run s (err e) d = (err e, d)
  resume_parsed run s (ok t) d = enroll run s t d

  -- The state has no node ID: the enrollment was interrupted.
  resume : Run X → JoinConfig → State → Disk → Result JoinResult × Disk
  unfolding resume_parsed
  resume run cfg s d =
      if not (s.certificate == "") || not (s.ca_certificate == "")
      then (err (failure "saved enrollment state is inconsistent"), d)
      else if s.token == "" || s.private_key == "" || is_empty s.csr
      then (err (failure "saved enrollment is incomplete"), d)
      else if not (cfg.token == "") && not (cfg.token == s.token)
      then (err (failure "token differs from saved enrollment: run reset first"), d)
      else resume_parsed run s (parse crypto.decode s.token) d

  configured : State → Disk → Result JoinResult × Disk
  configured s d =
      if s.private_key == "" || s.certificate == "" || s.ca_certificate == ""
      then (err (failure "saved worker credentials are incomplete"), d)
      else (ok (record { node_id = s.node_id; already_configured = true }), d)

  continue_with : Run X → JoinConfig → State → Disk → Result JoinResult × Disk
  unfolding resume configured
  continue_with run cfg s d =
      if not (s.server_url == cfg.server_url) || not (s.name == cfg.name)
      then (err (failure "server or name differs from saved enrollment: run reset first"), d)
      else if s.node_id == ""
      then resume run cfg s d
      else configured s d

  loaded : Run X → JoinConfig → Result (Option State) → Disk → Result JoinResult × Disk
  unfolding begin continue_with
  loaded run cfg (err e) d = (err e, d)
  loaded run cfg (ok none) d = begin run cfg d
  loaded run cfg (ok (some s)) d = continue_with run cfg s d

  unfoldable pub join : Run X → JoinConfig → Disk → Result JoinResult × Disk
  unfolding loaded load_state
  join run cfg d =
      if run.locks
      then loaded run cfg (load_state d) d
      else (err (failure "lock data directory"), d)
