-- ===== src/Worker/Join/Resume.antt =====
-- What internal/worker/join.go leaves in worker.json, and how an interrupted run is taken up.
use hambo.Base.{
  ℕ, String, true, false, List, ok, err, Error, ◌≡◌, ◌≢◌, ◌⊎◌, inl, inr, refl, sym, ap, subst,
  arith,
}
use hambo.Base.Text.{trim_space}
use hambo.Token
use hambo.Token.{parse}
use hambo.Client.Enrollment.{Crypto}
use hambo.Worker.State.{State, Disk, no_file, file, load_state}
use hambo.Worker.Join.{
  JoinConfig, JoinResult, Run, pending_state, is_empty, completed, enroll, resume, resume_parsed,
  configured, continue_with, loaded, join,
}
use hambo.Worker.Join.Outcome.{unchanged, begun, enrolled, was_complete, join-Outcome}

-- An enrollment that was begun: it has all that a request needs, and no credentials.
pub record IsPending (s : State) : Type 0 where
  pub no_node : s.node_id ≡ ""
  pub no_ca : s.ca_certificate ≡ ""
  pub no_certificate : s.certificate ≡ ""
  pub some_token : s.token ≢ ""
  pub some_key : s.private_key ≢ ""
  pub some_csr : is_empty s.csr ≡ false

-- An enrollment that was completed: it has all credentials, and the token is gone.
pub record IsComplete (s : State) : Type 0 where
  pub node : s.node_id ≢ ""
  pub ca : s.ca_certificate ≢ ""
  pub certificate : s.certificate ≢ ""
  pub key : s.private_key ≢ ""
  pub no_token : s.token ≡ ""

pub data IsSound : Disk → Type 0 where
  fresh : IsSound no_file
  pending : (s : State) → IsPending s → IsSound (file s)
  complete_file : (s : State) → IsComplete s → IsSound (file s)

module _ {X : Type 0} (crypto : Crypto X) where
  -- What a run that makes a key and a CSR makes: neither is empty.
  abbrev pub MakesKeys : Run X → Type 0
  MakesKeys run =
      (key : String) (csr : List ℕ)
      → run.key_and_csr ≡ ok (key, csr)
      → (key ≢ "") × (is_empty csr ≡ false)

  completed-IsComplete :
      (s : State) (ca : X) (node_id certificate : String)
      → node_id ≢ ""
      → certificate ≢ ""
      → crypto.pem ca ≢ ""
      → s.private_key ≢ ""
      → IsComplete (completed crypto ca (record { node_id = node_id; certificate = certificate }) s)
  unfolding completed
  completed-IsComplete s ca node_id certificate n c p k = record {
    node = n;
    ca = p;
    certificate = c;
    key = k;
    no_token = refl;
  }

  some_key : {s : State} → IsSound (file s) → s.private_key ≢ ""
  some_key (pending s p) = p.some_key
  some_key (complete_file s c) = c.key

  begun-IsPending :
      (run : Run X) (cfg : JoinConfig) (key : String) (csr : List ℕ)
      → MakesKeys run
      → run.key_and_csr ≡ ok (key, csr)
      → trim_space cfg.token ≢ ""
      → IsPending (pending_state cfg key csr)
  begun-IsPending run cfg key csr makes made some_token = record {
    no_node = refl;
    no_ca = refl;
    no_certificate = refl;
    some_token = λ e. some_token (unfold trim_space in ap trim_space e);
    some_key = (makes key csr made).0;
    some_csr = (makes key csr made).1;
  }

  -- A run of `Join` keeps the worker's state sound, where keys, CSRs and certificates in PEM are
  -- never empty: there is no file, or it holds a pending enrollment with all that a request needs
  -- and no credentials, or a completed one with all credentials and no token.
  pub join-IsSound :
      (run : Run X) (cfg : JoinConfig) (d : Disk)
      → MakesKeys run
      → ((ca : X) → crypto.pem ca ≢ "")
      → IsSound d
      → IsSound (join crypto run cfg d).1
  join-IsSound run cfg d makes prints sound = elim (join-Outcome crypto run cfg d) [
    | unchanged e is ↦ rw is sound
    | begun e key csr t fresh_d made some_token parsed is ↦ rw is (
        pending (pending_state cfg key csr) (begun-IsPending run cfg key csr makes made some_token))
    | enrolled s ca r n c same_url same_name before is ↦ rw is (
        complete_file (completed crypto ca r s) (
          completed-IsComplete s ca r.node_id r.certificate n c (prints ca) (elim before [
            | inl e ↦ some_key (subst IsSound e sound)
            | inr (key, csr, made, e) ↦ ground (arith, makes key csr made)
          ])))
    | was_complete s e n k c ca same_url same_name is ↦ rw is sound
  ]

  -- The next run for the same server and name finds the credentials.
  configured_again :
      (run : Run X) (cfg : JoinConfig) (s : State)
      → run.locks ≡ true
      → s.server_url ≡ cfg.server_url
      → s.name ≡ cfg.name
      → s.node_id ≢ ""
      → s.private_key ≢ ""
      → s.certificate ≢ ""
      → s.ca_certificate ≢ ""
      → join crypto run cfg (file s)
        ≡ (ok (record { node_id = s.node_id; already_configured = true }), file s)
  unfolding join loaded load_state continue_with configured
  configured_again run cfg s locks same_url same_name n k c ca = ground arith

  -- If a run of `Join` succeeds on a sound state, where keys, CSRs and certificates in PEM are
  -- never empty, then every later run that gets the lock, for the same server and name, reports the
  -- same node ID as already configured and changes nothing.
  pub join-again :
      (run again : Run X) (cfg cfg' : JoinConfig) (d d' : Disk) (r : JoinResult)
      → MakesKeys run
      → ((ca : X) → crypto.pem ca ≢ "")
      → IsSound d
      → join crypto run cfg d ≡ (ok r, d')
      → again.locks ≡ true
      → cfg'.server_url ≡ cfg.server_url
      → cfg'.name ≡ cfg.name
      → join crypto again cfg' d'
        ≡ (ok (record { node_id = r.node_id; already_configured = true }), d')
  unfolding completed
  join-again run again cfg cfg' d d' r makes prints sound h locks url name =
      elim (join-Outcome crypto run cfg d) [
        | unchanged e is ↦ absurd (ground arith)
        | begun e key csr t fresh_d made some_token parsed is ↦ absurd (ground arith)
        | enrolled s ca x n c same_url same_name before is ↦
            let key_is : s.private_key ≢ "" = elim before [
              | inl e ↦ some_key (subst IsSound e sound)
              | inr (key, csr, made, e) ↦ ground (arith, makes key csr made)
            ] in
            ground (
              arith,
              configured_again again cfg' (completed crypto ca x s) locks (ground arith)
                  (ground arith) n key_is c (prints ca),
            )
        | was_complete s e n k c ca same_url same_name is ↦
            ground
              (arith, configured_again again cfg' s locks (ground arith) (ground arith) n k c ca)
      ]

  -- A begun enrollment is taken up by the call of `enroll` that its first run would have made.
  pub resumed :
      (run : Run X) (cfg : JoinConfig) (s : State) (t : Token.Token)
      → run.locks ≡ true
      → IsPending s
      → s.server_url ≡ cfg.server_url
      → s.name ≡ cfg.name
      → (cfg.token ≡ "") ⊎ (cfg.token ≡ s.token)
      → parse crypto.decode s.token ≡ ok t
      → join crypto run cfg (file s) ≡ enroll crypto run s t (file s)
  unfolding join loaded load_state continue_with resume resume_parsed
  resumed run cfg s t locks p same_url same_name which parsed =
      ground (arith, p.no_node, p.no_ca, p.no_certificate, p.some_token, p.some_key, p.some_csr)

  -- If the first run of `Join` in a directory without a state fails, then either it left no state,
  -- or it parsed its token and made a key and a CSR, and any later run that gets the lock, for the
  -- same server and name and without a token or with the same one, makes the enrollment with the
  -- same token, key and CSR, if neither the key nor the CSR that was made is empty.
  pub join-resumes :
      (run again : Run X) (cfg cfg' : JoinConfig) (d' : Disk) (e : Error)
      → MakesKeys run
      → join crypto run cfg no_file ≡ (err e, d')
      → again.locks ≡ true
      → cfg'.server_url ≡ cfg.server_url
      → cfg'.name ≡ cfg.name
      → (cfg'.token ≡ "") ⊎ (cfg'.token ≡ cfg.token)
      → (d' ≡ no_file)
        ⊎ ((key : String) × (csr : List ℕ) × (t : Token.Token) × (run.key_and_csr ≡ ok (key, csr))
            × (parse crypto.decode cfg.token ≡ ok t)
            × (join crypto again cfg' d'
                ≡ enroll crypto again
                    (pending_state cfg key csr)
                    t
                    (file (pending_state cfg key csr))))
  join-resumes run again cfg cfg' d' e makes h locks url name which =
      elim (join-Outcome crypto run cfg no_file) [
        | unchanged e' is ↦ inl (ground arith)
        | enrolled s ca x n c same_url same_name before is ↦ absurd (ground arith)
        | was_complete s same n k c ca same_url same_name is ↦ absurd (ground arith)
        | begun e' key csr t fresh_d made some_token parsed is ↦ inr (
          key,
          csr,
          t,
          made,
          parsed,
          subst
              (λ x.
                join crypto again cfg' x
                ≡ enroll crypto again (pending_state cfg key csr) t
                    (file (pending_state cfg key csr)))
              (ground arith)
              (resumed again cfg' (pending_state cfg key csr) t locks
                (begun-IsPending run cfg key csr makes made some_token) (sym url) (sym name) which
                parsed),
        )
      ]
