-- ===== src/SimpleWorker/Docker.antt =====
-- cmd/simpleworker/docker.go: how a container is run, over the client of Docker as a parameter.
pub mod Options
pub mod Pulls
pub mod Reports
use Prim.Native.Nat.{◌/◌}
use hambo.Base.{
  ℕ, zero, suc, ◌<>◌, String, Bool, true, false, not, ◌&&◌, List, [], ◌∷◌, Option, none, some,
  Result, ok, err, Error, failure, if◌then◌else◌, ◌==◌, ◌>>=◌, or_fail,
}
use hambo.Base.Int.{ℤ, pos, negsuc}
use hambo.Model.Node.{second}
use hambo.SimpleWorker.{
  ContainerConfig, ContainerStatus, Container, pull_missing, pull_always, pull_never,
}

-- What the code reads of an image: its ID, and the entrypoint of its configuration.
pub record Image : Type 0 where
  pub id : String
  pub entrypoint : List String

pub record CreateOptions : Type 0 where
  pub name : String
  pub image : String
  pub working_dir : String
  pub entrypoint : Option (List String)
  pub cmd : Option (List String)
  pub env : List String
  pub stop_timeout : ℤ
  pub label : String
  pub restart_policy : String

-- Docker's answer to an inspection: what it found, that there is no such thing, or another error.
pub data Inspected (A : Type 0) : Type 0 where
  found : A → Inspected A
  absent : Error → Inspected A
  broken : Error → Inspected A

-- What the code reads of an inspected container.
pub record DockerState : Type 0 where
  pub id : String
  pub status : String
  pub error : String
  pub exit_code : ℤ

-- The calls of the Docker client, on a daemon `D`.
pub record Docker (D : Type 0) : Type 0 where
  pub image_inspect : String → D → Inspected Image
  pub image_pull : String → D → Result (Unit {0}) × D
  pub pull_wait : String → D → Result (Unit {0}) × D
  pub container_create : CreateOptions → D → Result String × D
  pub container_start : String → D → Result (Unit {0}) × D
  pub container_inspect : String → D → Inspected DockerState

-- `int(gracePeriod / time.Second)`
unfoldable pub whole_seconds : ℤ → ℤ
whole_seconds (pos n) = pos (n / second)
whole_seconds (negsuc n) = elim (suc n / second) [ zero ↦ pos 0 | suc m ↦ negsuc m ]

unfoldable pub environment_of : List (String × String) → List String
environment_of [] = []
environment_of ((key, value) ∷ rest) = (key <> "=" <> value) ∷ environment_of rest

-- The entrypoint that Docker is given: an empty one is cleared by one empty text, and that of the
-- image is kept explicitly if the command alone is cleared.
unfoldable pub entrypoint_of :
    Option (List String) → Option (List String) → Image → Result (Option (List String))
entrypoint_of (some []) command image = ok (some ("" ∷ []))
entrypoint_of (some (x ∷ xs)) command image = ok (some (x ∷ xs))
entrypoint_of none (some []) image = elim image.entrypoint [
  | [] ↦ err (failure "command is cleared and the image has no entrypoint")
  | x ∷ xs ↦ ok (some (x ∷ xs))
]
entrypoint_of none (some (x ∷ xs)) image = ok none
entrypoint_of none none image = ok none

unfoldable pub container_create_options :
    (String → Option ℤ) → Container → Image → Result CreateOptions
unfolding whole_seconds environment_of entrypoint_of
container_create_options parse_duration c image = do
  grace ← or_fail (parse_duration c.config.stop_grace_period) (failure "parse stop_grace_period")
  entrypoint ← entrypoint_of c.config.entrypoint c.config.command image
  ok (record {
    name = c.config.name;
    image = image.id;
    working_dir = c.config.working_dir;
    entrypoint = entrypoint;
    cmd = c.config.command;
    env = environment_of c.config.environment;
    stop_timeout = whole_seconds grace;
    label = c.id;
    restart_policy = c.config.restart;
  })

module _ {D : Type 0} (docker : Docker D) where
  unfoldable pub inspect_image : String → D → Result Image
  inspect_image name d = elim (docker.image_inspect name d) [
    | found image ↦ ok image
    | absent e ↦ err e
    | broken e ↦ err e
  ]

  inspect_after : String → Result (Unit {0}) × D → Result Image × D
  unfolding inspect_image
  inspect_after name (err e, d) = (err e, d)
  inspect_after name (ok u, d) = (inspect_image name d, d)

  wait_after : String → Result (Unit {0}) × D → Result Image × D
  unfolding inspect_after
  wait_after name (err e, d) = (err e, d)
  wait_after name (ok u, d) = inspect_after name (docker.pull_wait name d)

  -- The pull, its wait, and the inspection after it.
  unfoldable pub pull : String → D → Result Image × D
  unfolding wait_after
  pull name d = wait_after name (docker.image_pull name d)

  unfoldable pub pull_if_missing : String → Inspected Image → D → Result Image × D
  unfolding pull
  pull_if_missing name (found image) d = (ok image, d)
  pull_if_missing name (absent e) d = pull name d
  pull_if_missing name (broken e) d = (err e, d)

  unfoldable pub ensure_image : String → String → D → Result Image × D
  unfolding inspect_image pull_if_missing pull
  ensure_image name policy d =
      if policy == pull_never
      then (inspect_image name d, d)
      else if policy == pull_missing
      then pull_if_missing name (docker.image_inspect name d) d
      else if policy == pull_always
      then pull name d
      else (err (failure "unsupported pull policy"), d)

  -- The ID of the container, empty if there is none, with the error.
  abbrev pub Ran : Type 0
  Ran = String × Option Error

  start_created : Result String × D → Ran × D
  start_created (err e, d) = (("", some e), d)
  start_created (ok id, d) =
      let (started, d') = docker.container_start id d in
      elim started [ err e ↦ ((id, some e), d') | ok u ↦ ((id, none), d') ]

  create_and_start : Result CreateOptions → D → Ran × D
  unfolding start_created
  create_and_start (err e) d = (("", some e), d)
  create_and_start (ok options) d = start_created (docker.container_create options d)

  run_with : (String → Option ℤ) → Container → Result Image × D → Ran × D
  unfolding create_and_start container_create_options
  run_with parse_duration c (err e, d) = (("", some e), d)
  run_with parse_duration c (ok image, d) =
      create_and_start (container_create_options parse_duration c image) d

  unfoldable pub run_container : (String → Option ℤ) → Container → D → Ran × D
  unfolding run_with ensure_image
  run_container parse_duration c d =
      run_with parse_duration c (ensure_image c.config.image c.config.pull_policy d)

  -- A container that Docker does not have is missing.
  unfoldable pub inspect_container : String → D → Result ContainerStatus
  inspect_container docker_id d = elim (docker.container_inspect docker_id d) [
    | absent e ↦
        ok (record { docker_id = docker_id; state = "missing"; exit_code = none; error = "" })
    | broken e ↦ err e
    | found s ↦ ok (record {
      docker_id = s.id;
      state = s.status;
      exit_code = (if s.status == "exited" then some s.exit_code else none);
      error = s.error;
    })
  ]
