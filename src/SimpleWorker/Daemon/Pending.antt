-- ===== src/SimpleWorker/Daemon/Pending.antt =====
-- What cmd/simpleworker/handlers.go answers while containers are started in the background.
use hambo.Base.{
  String, Bool, true, false, Option, none, some, ok, err, Error, ◌≡◌, ◌≢◌, ◌⊎◌, inl, inr, refl,
  arith, Result-cases, Option-cases, dec_string, if◌then◌else◌, ◌==◌, sym, subst,
}
use hambo.Base.Int.{ℤ}
use hambo.SimpleWorker.{
  ContainerConfig, ContainerStatus, Container, apply_container_defaults, validate_container,
}
use hambo.SimpleWorker.Docker.{Docker, inspect_container, run_container}
use hambo.SimpleWorker.Docker.Reports.{Speaks, Reports, run_container-Reports}
use hambo.SimpleWorker.Daemon.{
  Decoded, undecodable, more_than_one, one, Answer, Containers, insert, fresh, in_state, accept,
  handle_run_container, store_result, finish_run, inspected, answer_of, handle_get_container,
}

-- Which containers have a goroutine that has not ended.
abbrev pub Running : Type 0
Running = String → Bool

abbrev pub marked : Running → String → Bool → Running
marked running id is key = if key == id then is else running key

module _ {D : Type 0} (docker : Docker D) (parses_image : String → Bool)
    (parse_duration : String → Option ℤ) (text : Error → String) (speaks : Speaks docker text) where
  -- The daemon's map and its goroutines after requests, each with a new ID, and ends of goroutines, in
  -- any order.
  pub data Reach : Containers → Running → Type 0 where
    begun : Reach (λ id. none) (λ id. false)
    requested :
        {containers after : Containers} {running : Running} (id : String) (body : Decoded)
        (answer : Answer) (c : Container)
        → Reach containers running
        → containers id ≡ none
        → handle_run_container parses_image parse_duration id body containers
          ≡ ((answer, some c), after)
        → Reach after (marked running id true)
    ended :
        {containers : Containers} {running : Running} (id : String) (c : Container) (d : D)
        → Reach containers running
        → running id ≡ true
        → Reach
            (finish_run text id (run_container docker parse_duration c d).0 containers)
            (marked running id false)

  abbrev Told : Container → Type 0
  Told c = (c.status.docker_id ≢ "") ⊎ (c.status.error ≢ "")

  -- A container without an ID and an error is being started, and one that is being started is such.
  record Fits (o : Option Container) (running : Bool) : Type 0 where
    stored : running ≡ true → o ≢ none
    quiet :
        (c : Container)
        → o ≡ some c
        → running ≡ true
        → (c.status.docker_id ≡ "") × (c.status.error ≡ "")
    told : (c : Container) → o ≡ some c → running ≡ false → Told c

  accepted :
      (id : String) (body : Decoded) (containers after : Containers) (answer : Answer)
      (c : Container)
      → handle_run_container parses_image parse_duration id body containers
        ≡ ((answer, some c), after)
      → (config : ContainerConfig) × (after ≡ insert id (fresh id config) containers)
  unfolding handle_run_container accept
  accepted id undecodable containers after answer c h = absurd (ground arith)
  accepted id more_than_one containers after answer c h = absurd (ground arith)
  accepted id (one config) containers after answer c h =
      elim (Result-cases
        (validate_container parses_image parse_duration (apply_container_defaults config))) [
          | inr (e, p) ↦ absurd (ground arith)
          | inl (u, p) ↦ (apply_container_defaults config, ground arith)
        ]

  told_by :
      (c : Container) (ran : String × Option Error)
      → (c.status.error ≡ "")
      → Reports ran
      → Told (store_result text c ran)
  unfolding store_result
  told_by c (id, none) q (inl n) = inl n
  told_by c (id, none) q (inr (e, is)) = absurd (ground arith)
  told_by c (id, some e) q r = inr (speaks.texts e)

  Fits-requested :
      (containers : Containers) (running : Running) (id : String) (config : ContainerConfig)
      → ((key : String) → Fits (containers key) (running key))
      → (key : String)
      → Fits (insert id (fresh id config) containers key) (marked running id true key)
  unfolding insert
  Fits-requested containers running id config fits key = elim (dec_string key id) [
    | yes e ↦ record {
      stored = λ h z. ground arith;
      quiet = λ c h r. ground arith;
      told = λ c h r. absurd (ground arith);
    }
    | no n ↦
        subst (λ o. Fits o (marked running id true key)) (ground arith)
          (subst (Fits (containers key)) (ground arith) (fits key))
  ]

  Fits-ended :
      (containers : Containers) (running : Running) (id : String) (ran : String × Option Error)
      → ((key : String) → Fits (containers key) (running key))
      → running id ≡ true
      → Reports ran
      → (key : String) → Fits (finish_run text id ran containers key) (marked running id false key)
  unfolding finish_run insert
  Fits-ended containers running id ran fits run reports key = elim (Option-cases (containers id)) [
    | inl z ↦ absurd ((fits id).stored run z)
    | inr (c, z) ↦
        let was = (fits id).quiet c z run in
        elim (dec_string key id) [
          | yes e ↦ record {
            stored = λ h. absurd (ground arith);
            quiet = λ x h r. absurd (ground arith);
            told = λ x h r.
                let same : store_result text c ran ≡ x = ground arith in
                subst Told same (told_by c ran was.1 reports);
          }
          | no n ↦
              subst (λ o. Fits o (marked running id false key)) (ground arith)
                (subst (Fits (containers key)) (ground arith) (fits key))
        ]
  ]

  Reach-Fits :
      {containers : Containers} {running : Running}
      → Reach containers running
      → (key : String) → Fits (containers key) (running key)
  Reach-Fits begun key = record {
    stored = λ h. absurd (ground arith);
    quiet = λ c e h. absurd (ground arith);
    told = λ c e h. absurd (ground arith);
  }
  Reach-Fits (requested {containers} {after} {running} id body answer c before free h) key =
      let is = accepted id body containers after answer c h in
      subst (λ f. Fits (f key) (marked running id true key)) (sym is.1)
        (Fits-requested containers running id is.0 (Reach-Fits before) key)
  Reach-Fits (ended {containers} {running} id c d before run) key =
      Fits-ended containers running id (run_container docker parse_duration c d).0
        (Reach-Fits before) run (run_container-Reports docker text speaks parse_duration c d) key

  -- What a request for a stored container is answered.
  pub data Answers (c : Container) (running : Bool) (d : D) : Answer → Type 0 where
    pending : running ≡ true → Answers c running d (200, some (in_state "pending" c))
    failed :
        running ≡ false
        → c.status.docker_id ≡ ""
        → c.status.error ≢ ""
        → Answers c running d (200, some (in_state "failed" c))
    inspected_now :
        (status : ContainerStatus)
        → running ≡ false
        → inspect_container docker c.status.docker_id d ≡ ok status
        → Answers c running d (200, some (record c { status = status }))
    no_answer :
        (e : Error)
        → running ≡ false
        → inspect_container docker c.status.docker_id d ≡ err e
        → Answers c running d (500, none)

  Answers-at :
      (c : Container) (running : Bool) (d : D)
      → Fits (some c) running
      → Answers c running d (answer_of docker (some c) d)
  unfolding answer_of inspected
  Answers-at c true d fits =
      let q = fits.quiet c refl refl in subst (Answers c true d) (ground arith) (pending refl)
  Answers-at c false d fits = elim (dec_string c.status.docker_id "") [
    | yes z ↦ elim (fits.told c refl refl) [
      | inl n ↦ absurd (n z)
      | inr n ↦ subst (Answers c false d) (ground arith) (failed refl z n)
    ]
    | no z ↦ elim (Result-cases (inspect_container docker c.status.docker_id d)) [
      | inl (status, p) ↦ subst (Answers c false d) (ground arith) (inspected_now status refl p)
      | inr (e, p) ↦ subst (Answers c false d) (ground arith) (no_answer e refl p)
    ]
  ]

  -- After any requests, each with a new ID, and ends of goroutines, in any order, a request for a
  -- stored container is answered as pending exactly while its goroutine runs; after it, as failed
  -- if Docker gave no ID and there is an error, or with what Docker says of it now. Errors are
  -- taken to have a text, and containers of Docker an ID.
  pub handle_get_container-Answers :
      (containers : Containers) (running : Running) (id : String) (c : Container) (d : D)
      → Reach containers running
      → containers id ≡ some c
      → Answers c (running id) d (handle_get_container docker id containers d)
  unfolding handle_get_container
  handle_get_container-Answers containers running id c d reach h =
      subst (λ o. Answers c (running id) d (answer_of docker o d)) (sym h)
        (Answers-at c (running id) d (subst (λ o. Fits o (running id)) h (Reach-Fits reach id)))
