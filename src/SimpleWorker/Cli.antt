-- ===== src/SimpleWorker/Cli.antt =====
-- cmd/simpleworker/cli.go, daemon.go and the client of docker.go: its commands.
use hambo.Base.{
  ℕ, ◌<>◌, String, Bool, not, List, [], ◌∷◌, Option, none, some, Result, ok, err, Error, failure,
  if◌then◌else◌, ◌>>=◌, or_fail,
}
use hambo.Base.Text.{trim_space}
use hambo.Client.{is_success}
use hambo.Resources.{Traced, docker_client, listener, after, hold}
use hambo.Resources.Balanced.{Balanced, quiet, hold-Balanced, after-Balanced}
use hambo.SimpleWorker.{Container, ContainerConfig}

-- What becomes of one request: whether it can be made and sent, the answer's status with its line and
-- its text, if that can be read, and the container that it decodes to.
pub record Reply : Type 0 where
  pub made : Bool
  pub sent : Bool
  pub status : ℕ
  pub status_line : String
  pub text : Option String
  pub container : Option Container

worker_error : String → Option String → Error
worker_error line none = failure "read worker error"
worker_error line (some text) = failure ("worker returned " <> line <> ": " <> trim_space text)

unfoldable pub request_container : Reply → Result Container
unfolding worker_error
request_container r =
    if not r.made
    then err (failure "create worker request")
    else if not r.sent
    then err (failure "request worker")
    else if not (is_success r.status)
    then err (worker_error r.status_line r.text)
    else or_fail r.container (failure "decode worker response")

-- The documents of the config file: none can be decoded, one, or more.
pub data Documents : Type 0 where
  unreadable undecodable : Documents
  single : ContainerConfig → Documents
  several : ContainerConfig → Documents

-- `RunE` of `run`: `encode` is `json.Marshal`. The result is the ID that is printed.
unfoldable pub run_command :
    Documents → (ContainerConfig → Option String) → (String → Reply) → Result String
unfolding request_container
run_command unreadable encode post = err (failure "open config")
run_command undecodable encode post = err (failure "decode config")
run_command (several config) encode post = err (failure "config file must contain one document")
run_command (single config) encode post = do
  body ← or_fail (encode config) (failure "encode config")
  c ← request_container (post body)
  ok c.id

-- How the daemon's wait ends: `Serve` fails, or the context is over and `Shutdown` is called.
pub data DaemonEnd : Type 0 where
  serve_failed : Error → DaemonEnd
  shut : Result (Unit {0}) → DaemonEnd

unfoldable pub end_errors : DaemonEnd → List Error
end_errors (serve_failed e) = e ∷ []
end_errors (shut (err e)) = e ∷ []
end_errors (shut (ok u)) = []

-- Whether the Docker client can be made and reached, and the address listened on.
pub record DaemonCalls : Type 0 where
  pub docker : Result (Unit {0})
  pub ping : Result (Unit {0})
  pub listens : Result (Unit {0})
  pub ends : DaemonEnd

-- `newDockerClient` closes the client that it cannot reach.
unfoldable pub with_docker : DaemonCalls → Traced → Traced
unfolding after hold
with_docker calls rest = after calls.docker λ u. hold docker_client [] (after calls.ping λ p. rest)

unfoldable pub run_daemon : DaemonCalls → Traced
unfolding with_docker after hold end_errors
run_daemon calls =
    with_docker calls (after calls.listens λ l. hold listener [] ([], end_errors calls.ends))

-- The daemon gives back the Docker client and the listener that it acquired.
run_daemon-Balanced : (calls : DaemonCalls) → Balanced (run_daemon calls).0
unfolding run_daemon with_docker
run_daemon-Balanced calls = after-Balanced calls.docker _ λ u.
    hold-Balanced docker_client []
      (after calls.ping λ p. after calls.listens λ l. hold listener [] ([], end_errors calls.ends))
      (after-Balanced calls.ping _ λ p.
        after-Balanced calls.listens _
          λ l. hold-Balanced listener [] ([], end_errors calls.ends) quiet)
