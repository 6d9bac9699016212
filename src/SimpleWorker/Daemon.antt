-- ===== src/SimpleWorker/Daemon.antt =====
-- cmd/simpleworker/handlers.go: the containers that the daemon keeps, its two handlers, and the
-- goroutines that run containers in the background.
pub mod Pending
use hambo.Base.{
  ℕ, ◌<>◌, String, Bool, true, false, not, List, [], ◌∷◌, Option, none, some, Result, ok, err,
  Error, failure, errdef, already_exists, not_found, duplicate_name, if◌then◌else◌, ◌==◌,
}
use hambo.Base.Int.{ℤ}
use hambo.SimpleWorker.{
  ContainerConfig, ContainerStatus, Container, apply_container_defaults, validate_container,
}
use hambo.SimpleWorker.Docker.{Docker, inspect_container, Ran, run_container}

-- What a request's body decodes to: an error of its first value, more than one, or one.
pub data Decoded : Type 0 where
  undecodable : Decoded
  more_than_one : Decoded
  one : ContainerConfig → Decoded

-- A status code with the container that is sent, if any.
abbrev pub Answer : Type 0
Answer = ℕ × Option Container

-- The map of the daemon.
abbrev pub Containers : Type 0
Containers = String → Option Container

unfoldable pub insert : String → Container → Containers → Containers
insert id c containers key = if key == id then some c else containers key

abbrev pub no_status : ContainerStatus
no_status = record { docker_id = ""; state = ""; exit_code = none; error = "" }

abbrev pub fresh : String → ContainerConfig → Container
fresh id config = record { id = id; config = config; status = no_status }

abbrev pub in_state : String → Container → Container
in_state state c = record c { status = record (c.status) { state = state } }

module _ (parses_image : String → Bool) (parse_duration : String → Option ℤ) where
  accept :
      String
      → ContainerConfig
      → Result (Unit {0})
      → Containers
      → (Answer × Option Container) × Containers
  unfolding insert
  accept id config (err e) containers = (((400, none), none), containers)
  accept id config (ok u) containers = (
    ((202, some (in_state "pending" (fresh id config))), some (fresh id config)),
    insert id (fresh id config) containers,
  )

  -- `id` is `rand.Text`. With the answer comes the container that a goroutine is started for, if any.
  unfoldable pub handle_run_container :
      String → Decoded → Containers → (Answer × Option Container) × Containers
  unfolding accept validate_container apply_container_defaults
  handle_run_container id undecodable containers = (((400, none), none), containers)
  handle_run_container id more_than_one containers = (((400, none), none), containers)
  handle_run_container id (one config) containers =
      let applied = apply_container_defaults config in
      accept id applied (validate_container parses_image parse_duration applied) containers

-- The zero value, for a key that is not there.
abbrev zero_container : Container
zero_container = record {
  id = "";
  config = record {
    name = "";
    image = "";
    pull_policy = "";
    entrypoint = none;
    command = none;
    environment = [];
    working_dir = "";
    restart = "";
    stop_grace_period = "";
  };
  status = no_status;
}

-- What the goroutine stores at its end: the ID that Docker gave, and the text of the error, if any.
unfoldable pub store_result : (Error → String) → Container → String × Option Error → Container
store_result text stored (docker_id, none) = record stored {
  status = record (stored.status) { docker_id = docker_id };
}
store_result text stored (docker_id, some e) = record stored {
  status = record (stored.status) { docker_id = docker_id; error = text e };
}

unfoldable pub finish_run :
    (Error → String) → String → String × Option Error → Containers → Containers
unfolding store_result insert
finish_run text id ran containers = elim (containers id) [
  | none ↦ insert id (store_result text zero_container ran) containers
  | some stored ↦ insert id (store_result text stored ran) containers
]

module _ {D : Type 0} (docker : Docker D) where
  inspected : Container → Result ContainerStatus → Answer
  inspected c (err e) = (500, none)
  inspected c (ok status) = (200, some (record c { status = status }))

  answer_of : Option Container → D → Answer
  unfolding inspected inspect_container
  answer_of none d = (404, none)
  answer_of (some c) d =
      if c.status.docker_id == ""
      then (200, some (in_state (if c.status.error == "" then "pending" else "failed") c))
      else inspected c (inspect_container docker c.status.docker_id d)

  unfoldable pub handle_get_container : String → Containers → D → Answer
  unfolding answer_of
  handle_get_container id containers d = answer_of (containers id) d
