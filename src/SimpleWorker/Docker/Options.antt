-- ===== src/SimpleWorker/Docker/Options.antt =====
-- What cmd/simpleworker/docker.go makes of a container that container.go accepts.
use Prim.Native.Nat.{◌/◌}
use hambo.Base.{
  ℕ, String, Bool, true, List, [], ◌∷◌, Option, none, some, Result, ok, err, Error, ◌≡◌, ◌≢◌, refl,
  arith, Result-cases, Option-cases, List-cases, inl, inr, subst,
}
use hambo.Base.Int.{ℤ, pos, negsuc}
use hambo.Model.Node.{second}
use hambo.SimpleWorker.{
  ContainerConfig, Container, validate_container, check_entrypoint, check_grace_period,
  gives_executable,
}
use hambo.SimpleWorker.Docker.{
  Image, CreateOptions, entrypoint_of, container_create_options, whole_seconds, environment_of,
}

module _ (parses_image : String → Bool) (parse_duration : String → Option ℤ) where
  abbrev pub Accepted : ContainerConfig → Type 0
  Accepted c = validate_container parses_image parse_duration c ≡ ok tt

  Accepted-entrypoint :
      (c : ContainerConfig) → Accepted c → check_entrypoint c.entrypoint c.command ≡ ok tt
  unfolding validate_container
  Accepted-entrypoint c h = elim (Result-cases (check_entrypoint c.entrypoint c.command)) [
    | inr (e, p) ↦ absurd (ground arith)
    | inl (u, p) ↦ p
  ]

  Accepted-grace :
      (c : ContainerConfig)
      → Accepted c
      → (n : ℕ) × (parse_duration c.stop_grace_period ≡ some (pos n))
  unfolding validate_container check_grace_period
  Accepted-grace c h = elim (Option-cases (parse_duration c.stop_grace_period)) [
    | inl e ↦ absurd (ground arith)
    | inr (pos n, e) ↦ (n, e)
    | inr (negsuc n, e) ↦ absurd (ground arith)
  ]

-- Where the executable of a container comes from: the command, where the entrypoint is cleared; the
-- entrypoint of the configuration; that of the image, where the command alone is cleared; or what
-- Docker makes of the image and a command that is not cleared.
pub data Runs (c : ContainerConfig) (image : Image) : Option (List String) → Type 0 where
  by_command :
      c.entrypoint ≡ some [] → gives_executable c.command ≡ true → Runs c image (some ("" ∷ []))
  by_entrypoint :
      (x : String) (xs : List String)
      → c.entrypoint ≡ some (x ∷ xs)
      → x ≢ ""
      → Runs c image (some (x ∷ xs))
  by_image :
      c.entrypoint ≡ none
      → c.command ≡ some []
      → image.entrypoint ≢ []
      → Runs c image (some image.entrypoint)
  by_docker : c.entrypoint ≡ none → c.command ≢ some [] → Runs c image none

entrypoint_of-Runs :
    (c : ContainerConfig) (image : Image) (entry command : Option (List String))
    (o : Option (List String))
    → c.entrypoint ≡ entry
    → c.command ≡ command
    → check_entrypoint entry command ≡ ok tt
    → entrypoint_of entry command image ≡ ok o
    → Runs c image o
unfolding entrypoint_of check_entrypoint
entrypoint_of-Runs c image (some []) command o e k h is =
    subst (Runs c image) (ground arith) (by_command e (ground arith))
entrypoint_of-Runs c image (some (x ∷ xs)) command o e k h is =
    subst (Runs c image) (ground arith) (by_entrypoint x xs e (ground arith))
entrypoint_of-Runs c image none (some []) o e k h is = elim (List-cases image.entrypoint) [
  | inl n ↦ absurd (ground arith)
  | inr (x, xs, n) ↦ subst (Runs c image) (ground arith) (by_image e k (λ z. ground arith))
]
entrypoint_of-Runs c image none (some (x ∷ xs)) o e k h is =
    subst (Runs c image) (ground arith) (by_docker e (λ z. ground arith))
entrypoint_of-Runs c image none none o e k h is =
    subst (Runs c image) (ground arith) (by_docker e (λ z. ground arith))

entrypoint_of-fails :
    (image : Image) (entry command : Option (List String)) (e : Error)
    → entrypoint_of entry command image ≡ err e
    → (entry ≡ none) × (command ≡ some []) × (image.entrypoint ≡ [])
unfolding entrypoint_of
entrypoint_of-fails image (some []) command e h = absurd (ground arith)
entrypoint_of-fails image (some (x ∷ xs)) command e h = absurd (ground arith)
entrypoint_of-fails image none (some []) e h = elim (List-cases image.entrypoint) [
  | inl n ↦ (refl, refl, n)
  | inr (x, xs, n) ↦ absurd (ground arith)
]
entrypoint_of-fails image none (some (x ∷ xs)) e h = absurd (ground arith)
entrypoint_of-fails image none none e h = absurd (ground arith)

module _ (parses_image : String → Bool) (parse_duration : String → Option ℤ) where
  -- The two ends of the options of a container that was accepted.
  pub data Made (c : Container) (image : Image) : Result CreateOptions → Type 0 where
    made :
        (o : CreateOptions) (n : ℕ)
        → parse_duration c.config.stop_grace_period ≡ some (pos n)
        → o.stop_timeout ≡ pos (n / second)
        → o.label ≡ c.id
        → o.cmd ≡ c.config.command
        → Runs c.config image o.entrypoint
        → Made c image (ok o)
    no_executable :
        (e : Error)
        → c.config.entrypoint ≡ none
        → c.config.command ≡ some []
        → image.entrypoint ≡ []
        → Made c image (err e)

  pub container_create_options-Made :
      (c : Container) (image : Image)
      → Accepted parses_image parse_duration c.config
      → Made c image (container_create_options parse_duration c image)
  unfolding container_create_options whole_seconds
  container_create_options-Made c image h =
      let grace = Accepted-grace parses_image parse_duration c.config h in
      let entry = Accepted-entrypoint parses_image parse_duration c.config h in
      elim (Result-cases (entrypoint_of c.config.entrypoint c.config.command image)) [
        | inr (e, p) ↦
            let why = entrypoint_of-fails image c.config.entrypoint c.config.command e p in
            subst (Made c image) (ground (arith, grace.1)) (no_executable e why.0 why.1 why.2)
        | inl (o, p) ↦ subst (Made c image) (ground (arith, grace.1)) (
            made
              (record {
                name = c.config.name;
                image = image.id;
                working_dir = c.config.working_dir;
                entrypoint = o;
                cmd = c.config.command;
                env = environment_of c.config.environment;
                stop_timeout = whole_seconds (pos grace.0);
                label = c.id;
                restart_policy = c.config.restart;
              })
              grace.0 grace.1 refl refl refl
              (entrypoint_of-Runs c.config image c.config.entrypoint c.config.command o refl refl
                entry p))
      ]
