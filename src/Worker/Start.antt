-- ===== src/Worker/Start.antt =====
-- internal/worker/start.go and lock.go: a worker that has joined runs.
pub mod Joined
use hambo.Base.{
  ℕ, String, Bool, true, false, not, List, [], ◌∷◌, Option, none, some, Result, ok, err, Error,
  failure, if◌then◌else◌, ◌==◌, ◌>>=◌,
}
use hambo.Resources.{Traced, data_dir_lock, api_client, docker_client, after, hold, stopped}
use hambo.Client.Connect.{Url, Config, Client, new_client}
use hambo.Worker.State.{State, Disk, load_state}

-- How `unix.Flock` ends.
pub data Flock : Type 0 where
  flocked would_block flock_error : Flock

pub record LockCalls : Type 0 where
  pub makes_dir : Bool
  pub opens : Bool
  pub flock : Flock

locked : Flock → Result (Unit {0})
locked flocked = ok tt
locked would_block = err (failure "worker data directory is in use")
locked flock_error = err (failure "lock worker data directory")

-- The file of a lock that fails is closed again.
unfoldable pub lock_data_dir : LockCalls → Result (Unit {0})
unfolding locked
lock_data_dir calls =
    if not calls.makes_dir
    then err (failure "create worker data directory")
    else if not calls.opens
    then err (failure "open worker lock file")
    else locked calls.flock

-- The credentials of a saved state.
unfoldable pub config_of : State → Config
config_of s = record {
  server_url = s.server_url;
  ca_cert_pem = s.ca_certificate;
  client_cert_pem = s.certificate;
  client_key_pem = s.private_key;
}

unfoldable pub check_joined : Option State → Result State
check_joined none = err (failure "worker has not joined: run hambo-worker join first")
check_joined (some s) =
    if s.node_id == ""
    then err (failure "worker enrollment is incomplete: run hambo-worker join again")
    else ok s

-- What the calls answer: `runs` are the errors of `Worker.Run` with the client.
pub record StartCalls : Type 0 where
  pub lock : LockCalls
  pub parse_url : String → Option Url
  pub appends : String → Bool
  pub pairs : String → String → Bool
  pub docker : Result (Unit {0})
  pub runs : Client → List Error

module _ (calls : StartCalls) where
  -- With the client that is made, which gives back its connections.
  with_client : Client → Traced
  unfolding after hold
  with_client c =
      hold api_client [] (after calls.docker λ u. hold docker_client [] ([], calls.runs c))

  unfoldable pub with_state : State → Traced
  unfolding after new_client config_of with_client
  with_state s =
      after (new_client calls.parse_url calls.appends calls.pairs (config_of s)) with_client

  unfoldable pub start : Disk → Traced
  unfolding after hold lock_data_dir load_state check_joined with_state
  start d = after (lock_data_dir calls.lock) λ u.
      hold data_dir_lock [] (after (load_state d) λ saved. after (check_joined saved) with_state)
