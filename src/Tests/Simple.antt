-- ===== src/Tests/Simple.antt =====
-- Runs of cmd/simpleworker.
use hambo.Base.{
  ℕ, String, Bool, true, false, [], ◌∷◌, Option, none, some, ok, Error, failure, ◌≡◌, refl, differ,
  dec_string, arith,
}
use hambo.Base.Int.{ℤ, pos}
use hambo.SimpleWorker.{ContainerConfig, apply_container_defaults, validate_container}
use hambo.SimpleWorker.Docker.{Docker, found, absent}
use hambo.SimpleWorker.Docker.Reports.{Speaks}
use hambo.SimpleWorker.Daemon.{
  one, Containers, fresh, insert, in_state, handle_run_container, handle_get_container,
}
use hambo.SimpleWorker.Daemon.Pending.{
  Reach, begun, requested, Running, marked, Answers, handle_get_container-Answers,
}

-- A daemon that has the image "busybox" and gives every container the ID "docker".
abbrev docker : Docker ℕ
docker = record {
  image_inspect = λ name d. found (record { id = "image"; entrypoint = "sh" ∷ [] });
  image_pull = λ name d. (ok tt, d);
  pull_wait = λ name d. (ok tt, d);
  container_create = λ o d. (ok "docker", d);
  container_start = λ id d. (ok tt, d);
  container_inspect = λ id d. absent (failure "no such container");
}

abbrev text : Error → String
text e = "error"

speaks : Speaks docker text
speaks = record {
  texts = λ e. differ "error" "" (unfold dec_string in refl);
  ids = λ o d d' id h e. differ "docker" "" (unfold dec_string in refl) (ground arith);
}

abbrev config : ContainerConfig
config = record {
  name = "web-1";
  image = "busybox";
  pull_policy = "";
  entrypoint = none;
  command = none;
  environment = [];
  working_dir = "";
  restart = "";
  stop_grace_period = "";
}

abbrev parses_image : String → Bool
parses_image s = true

abbrev parse_duration : String → Option ℤ
parse_duration s = some (pos 10000000000)

abbrev no_containers : Containers
no_containers id = none

abbrev none_running : Running
none_running id = false

stored : Containers
unfolding apply_container_defaults insert
stored = insert "c" (fresh "c" (apply_container_defaults config)) no_containers

is_accepted : handle_run_container parses_image parse_duration "c" (one config) no_containers ≡ (
  (
    (202, some (in_state "pending" (fresh "c" (apply_container_defaults config)))),
    some (fresh "c" (apply_container_defaults config)),
  ),
  stored,
)
unfolding stored handle_run_container validate_container dec_string
is_accepted = refl

abbrev PendingReached : Type 0
PendingReached =
    Reach docker parses_image parse_duration text speaks stored (marked none_running "c" true)

reached : PendingReached
reached =
    requested "c" (one config)
      (202, some (in_state "pending" (fresh "c" (apply_container_defaults config))))
      (fresh "c" (apply_container_defaults config)) begun refl is_accepted

is_stored : stored "c" ≡ some (fresh "c" (apply_container_defaults config))
unfolding stored dec_string
is_stored = refl

handle_get_container-Answers_example :
    Answers docker parses_image parse_duration text speaks
      (fresh "c" (apply_container_defaults config))
      (marked none_running "c" true "c")
      7
      (handle_get_container docker "c" stored 7)
handle_get_container-Answers_example =
    handle_get_container-Answers docker parses_image parse_duration text speaks stored
      (marked none_running "c" true) "c" (fresh "c" (apply_container_defaults config)) 7 reached
      is_stored
