-- ===== src/Worker/Docker.antt =====
-- internal/worker/docker.go: the containers of a node, over the client of Docker as a parameter.
use hambo.Base.{
  String, List, [], ◌∷◌, Option, none, some, Result, ok, err, Error, if◌then◌else◌, ◌==◌,
}
use hambo.Base.Int.{ℤ}
use hambo.Api.WatchNode.{ContainerAssignment}

abbrev pub container_id_label : String
container_id_label = "hambo.container.id"

-- A container as Docker lists it: its ID, its labels and its state.
pub record Summary : Type 0 where
  pub id : String
  pub labels : List (String × String)
  pub state : String

pub record CreateOptions : Type 0 where
  pub name : String
  pub image : String
  pub labels : List (String × String)

-- How a wait for a container ends: with its status, with an error in the result, or with an error.
pub data Waited : Type 0 where
  exited : ℤ → Waited
  result_error : Error → Waited
  wait_error : Error → Waited

-- The calls of the Docker client, on a daemon `D`: the list is of all containers that have a label,
-- and a pull ends twice, when it begins and when it is waited for.
pub record Docker (D : Type 0) : Type 0 where
  pub container_list : String → D → Result (List Summary)
  pub image_pull : String → D → Result (Unit {0}) × D
  pub pull_wait : String → D → Result (Unit {0}) × D
  pub container_create : CreateOptions → D → Result String × D
  pub container_start : String → D → Result (Unit {0}) × D
  pub container_wait : String → D → Waited
  pub container_inspect : String → D → Result Summary

module _ {D : Type 0} (docker : Docker D) where
  unfoldable pub list_containers : D → Result (List Summary)
  list_containers d = docker.container_list container_id_label d

  waited : String → Result (Unit {0}) × D → Result (Unit {0}) × D
  waited image (err e, d) = (err e, d)
  waited image (ok u, d) = docker.pull_wait image d

  unfoldable pub pull_image : String → D → Result (Unit {0}) × D
  unfolding waited
  pull_image image d = waited image (docker.image_pull image d)

  abbrev pub options_of : ContainerAssignment → CreateOptions
  options_of a = record { name = a.name; image = a.image; labels = (container_id_label, a.id) ∷ [] }

  created : ContainerAssignment → Result (Unit {0}) × D → Result String × D
  created a (err e, d) = (err e, d)
  created a (ok u, d) = docker.container_create (options_of a) d

  unfoldable pub create_container : ContainerAssignment → D → Result String × D
  unfolding created pull_image
  create_container a d = created a (pull_image a.image d)

  unfoldable pub start_container : String → D → Result (Unit {0}) × D
  start_container docker_id d = docker.container_start docker_id d

  unfoldable pub wait_container : String → D → Result ℤ
  wait_container docker_id d = elim (docker.container_wait docker_id d) [
    | exited code ↦ ok code
    | result_error e ↦ err e
    | wait_error e ↦ err e
  ]

  unfoldable pub inspect_container : String → D → Result Summary
  inspect_container docker_id d = docker.container_inspect docker_id d

-- The value of a label in a map of labels.
unfoldable pub label : String → List (String × String) → Option String
label key [] = none
label key ((k, v) ∷ rest) = let later = label key rest in if k == key then some v else later

-- The IDs that `runWatch` logs of the containers that it finds.
unfoldable pub discovered_ids : List Summary → List (Option String)
unfolding label
discovered_ids [] = []
discovered_ids (s ∷ rest) = label container_id_label s.labels ∷ discovered_ids rest
