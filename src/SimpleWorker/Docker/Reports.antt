-- ===== src/SimpleWorker/Docker/Reports.antt =====
-- What a run of cmd/simpleworker/docker.go gives.
use hambo.Base.{
  String, Option, some, Result, ok, err, Error, ◌≡◌, ◌≢◌, ◌⊎◌, inl, inr, refl, arith, Result-cases,
}
use hambo.Base.Int.{ℤ}
use hambo.SimpleWorker.{Container}
use hambo.SimpleWorker.Docker.{
  Docker, Image, CreateOptions, run_container, run_with, create_and_start, start_created,
  ensure_image, container_create_options,
}

-- Errors have a text, and Docker gives each container an ID.
pub record Speaks {D : Type 0} (docker : Docker D) (text : Error → String) : Type 0 where
  pub texts : (e : Error) → text e ≢ ""
  pub ids :
      (o : CreateOptions) (d d' : D) (id : String)
      → docker.container_create o d ≡ (ok id, d')
      → id ≢ ""

-- A run gives an ID or an error.
abbrev pub Reports : String × Option Error → Type 0
Reports ran = (ran.0 ≢ "") ⊎ ((e : Error) × (ran.1 ≡ some e))

module _ {D : Type 0} (docker : Docker D) (text : Error → String) (speaks : Speaks docker text)
    (parse_duration : String → Option ℤ) where
  start_created-Reports :
      (o : CreateOptions) (d : D) (x : Result String × D)
      → docker.container_create o d ≡ x
      → Reports (start_created docker x).0
  unfolding start_created
  start_created-Reports o d (err e, d') h = inr (e, refl)
  start_created-Reports o d (ok id, d') h = elim (Result-cases (docker.container_start id d').0) [
    | inr (e, p) ↦ inr (e, ground arith)
    | inl (u, p) ↦ inl (λ z. speaks.ids o d d' id h (ground arith))
  ]

  create_and_start-Reports :
      (r : Result CreateOptions) (d : D) → Reports (create_and_start docker r d).0
  unfolding create_and_start
  create_and_start-Reports (err e) d = inr (e, refl)
  create_and_start-Reports (ok o) d = start_created-Reports o d (docker.container_create o d) refl

  run_with-Reports :
      (c : Container) (x : Result Image × D) → Reports (run_with docker parse_duration c x).0
  unfolding run_with
  run_with-Reports c (err e, d) = inr (e, refl)
  run_with-Reports c (ok image, d) =
      create_and_start-Reports (container_create_options parse_duration c image) d

  pub run_container-Reports :
      (c : Container) (d : D) → Reports (run_container docker parse_duration c d).0
  unfolding run_container
  run_container-Reports c d =
      run_with-Reports c (ensure_image docker c.config.image c.config.pull_policy d)
