-- ===== src/Worker/State.antt =====
-- internal/worker/state.go and reset.go: the file worker.json in the worker's directory.
use hambo.Base.{ℕ, String, Bool, List, Option, none, some, Result, ok, err, failure, if◌then◌else◌}

pub record State : Type 0 where
  pub server_url : String
  pub token : String
  pub name : String
  pub private_key : String
  pub csr : List ℕ
  pub node_id : String
  pub ca_certificate : String
  pub certificate : String

-- The file: there is none, it cannot be read or decoded, or it holds a state.
pub data Disk : Type 0 where
  no_file damaged : Disk
  file : State → Disk

-- `none` is the error `os.ErrNotExist`.
unfoldable pub load_state : Disk → Result (Option State)
load_state no_file = ok none
load_state damaged = err (failure "read worker state")
load_state (file s) = ok (some s)

-- The file is replaced by a rename, so a save either works or leaves the file as it was. After the
-- rename the temporary file is not there, which the deferred removal passes over.
unfoldable pub save_state : Bool → State → Disk → Result (Unit {0}) × Disk
save_state works s d = if works then (ok tt, file s) else (err (failure "save worker state"), d)

-- `locks` says whether `lockDataDir` succeeds, `removes` whether `os.Remove` does on a file.
removed : Bool → Disk → Result (Unit {0}) × Disk
removed removes no_file = (ok tt, no_file)
removed removes d = if removes then (ok tt, no_file) else (err (failure "remove worker state"), d)

unfoldable pub reset : Bool → Bool → Disk → Result (Unit {0}) × Disk
unfolding removed
reset locks removes d =
    if locks then removed removes d else (err (failure "lock data directory"), d)
