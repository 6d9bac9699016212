-- ===== src/Worker/Join/Outcome.antt =====
-- What one run of `Join` (internal/worker/join.go) can come to.
use hambo.Base.{
  ℕ, String, true, false, not, ◌&&◌, ◌||◌, List, Result, ok, err, Error, failure, ◌==◌, ◌≡◌, ◌≢◌,
  ◌⊎◌, inl, inr, refl, sym, subst, arith, Result-cases, Bool-cases,
}
use hambo.Base.Text.{trim_space}
use hambo.Token
use hambo.Token.{parse}
use hambo.Api.Http.{JoinNodeResponse}
use hambo.Client.Enrollment.{Crypto, fetch_and_verify_ca, join_node, join_node_inv}
use hambo.Worker.State.{State, Disk, no_file, damaged, file, load_state, save_state}
use hambo.Worker.Join.{
  JoinConfig, JoinResult, Run, pending_state, request_of, is_empty, completed, complete, contact,
  store, saved, enroll, begin, begin_parsed, begin_with, begin_saved, resume, resume_parsed,
  configured, continue_with, loaded, join,
}

module _ {X : Type 0} (crypto : Crypto X) where
  -- A run that contacts the server has failed and left the file, or stored the credentials.
  pub data Contacted (s : State) (d : Disk) (result : Result JoinResult × Disk) : Type 0 where
    failed : (e : Error) → result ≡ (err e, d) → Contacted s d result
    succeeded :
        (ca : X) (r : JoinNodeResponse)
        → r.node_id ≢ ""
        → r.certificate ≢ ""
        → result ≡ (
          ok (record { node_id = r.node_id; already_configured = false }),
          file (completed crypto ca r s),
        )
        → Contacted s d result

  contact_inv :
      (run : Run X) (s s' : State) (t : Token.Token)
      → contact crypto run s t ≡ ok s'
      → (ca : X) × (r : JoinNodeResponse) × (r.node_id ≢ "")
        × (r.certificate ≢ "")
        × (s' ≡ completed crypto ca r s)
  unfolding contact complete
  contact_inv run s s' t h =
      elim (Result-cases (fetch_and_verify_ca crypto t.ca_fingerprint run.ca_reply)) [
        | inr (e, p) ↦ absurd (ground arith)
        | inl (ca, p) ↦
            elim (Result-cases (join_node t.secret (run.join_reply ca t.secret (request_of s)))) [
              | inr (e, q) ↦ absurd (ground arith)
              | inl (r, q) ↦
                  let (n, c) =
                    join_node_inv t.secret (run.join_reply ca t.secret (request_of s)) r q in
                  (ca, r, n, c, ground arith)
            ]
      ]

  store-Contacted :
      (run : Run X) (s : State) (d : Disk) (ca : X) (r : JoinNodeResponse)
      → r.node_id ≢ ""
      → r.certificate ≢ ""
      → Contacted s d (store crypto run (ok (completed crypto ca r s)) d)
  unfolding store saved save_state completed
  store-Contacted run s d ca r n c = elim (Bool-cases run.last_save) [
    | inl w ↦ succeeded ca r n c (ground arith)
    | inr w ↦ failed (failure "save worker state") (ground arith)
  ]

  enroll-Contacted :
      (run : Run X) (s : State) (t : Token.Token) (d : Disk)
      → Contacted s d (enroll crypto run s t d)
  unfolding enroll
  enroll-Contacted run s t d = elim (Result-cases (contact crypto run s t)) [
    | inr (e, p) ↦ failed e (rw (p, store) refl)
    | inl (s', p) ↦
        let (ca, r, n, c, is) = contact_inv run s s' t p in
        rw p (
          subst (λ x. Contacted s d (store crypto run (ok x) d)) (sym is)
            (store-Contacted run s d ca r n c))
  ]

  -- What a run from a given file comes to: an error that changes nothing, an enrollment that
  -- was just begun and has failed, credentials that are stored, or credentials that were there.
  pub data Outcome (run : Run X) (cfg : JoinConfig) (d : Disk) (result : Result JoinResult × Disk)
      : Type 0 where
    unchanged : (e : Error) → result ≡ (err e, d) → Outcome run cfg d result
    begun :
        (e : Error) (key : String) (csr : List ℕ) (t : Token.Token)
        → d ≡ no_file
        → run.key_and_csr ≡ ok (key, csr)
        → trim_space cfg.token ≢ ""
        → parse crypto.decode cfg.token ≡ ok t
        → result ≡ (err e, file (pending_state cfg key csr))
        → Outcome run cfg d result
    enrolled :
        (s : State) (ca : X) (r : JoinNodeResponse)
        → r.node_id ≢ ""
        → r.certificate ≢ ""
        → s.server_url ≡ cfg.server_url
        → s.name ≡ cfg.name
        → (d ≡ file s)
          ⊎ ((key : String) × (csr : List ℕ) × (run.key_and_csr ≡ ok (key, csr))
              × (s ≡ pending_state cfg key csr))
        → result ≡ (
          ok (record { node_id = r.node_id; already_configured = false }),
          file (completed crypto ca r s),
        )
        → Outcome run cfg d result
    was_complete :
        (s : State)
        → d ≡ file s
        → s.node_id ≢ ""
        → s.private_key ≢ ""
        → s.certificate ≢ ""
        → s.ca_certificate ≢ ""
        → s.server_url ≡ cfg.server_url
        → s.name ≡ cfg.name
        → result ≡ (ok (record { node_id = s.node_id; already_configured = true }), d)
        → Outcome run cfg d result

  begin_with-Outcome :
      (run : Run X) (cfg : JoinConfig) (t : Token.Token)
      → trim_space cfg.token ≢ ""
      → parse crypto.decode cfg.token ≡ ok t
      → Outcome run cfg no_file (begin_with crypto run cfg t run.key_and_csr no_file)
  unfolding begin_with begin_saved save_state
  begin_with-Outcome run cfg t some_token parsed = elim (Result-cases run.key_and_csr) [
    | inr (e, p) ↦ unchanged e (ground arith)
    | inl ((key, csr), p) ↦ elim (Bool-cases run.first_save) [
      | inr w ↦ unchanged (failure "save worker state") (ground arith)
      | inl w ↦
          elim (enroll-Contacted run (pending_state cfg key csr) t
            (file (pending_state cfg key csr))) [
              | failed e is ↦ begun e key csr t refl p some_token parsed (ground arith)
              | succeeded ca r n c is ↦
                  enrolled (pending_state cfg key csr) ca r n c refl refl (inr (key, csr, p, refl))
                    (ground arith)
            ]
    ]
  ]

  resume_parsed-Outcome :
      (run : Run X) (cfg : JoinConfig) (s : State) (o : Result Token.Token)
      → s.server_url ≡ cfg.server_url
      → s.name ≡ cfg.name
      → Outcome run cfg (file s) (resume_parsed crypto run s o (file s))
  unfolding resume_parsed
  resume_parsed-Outcome run cfg s (err e) same_url same_name = unchanged e refl
  resume_parsed-Outcome run cfg s (ok t) same_url same_name =
      elim (enroll-Contacted run s t (file s)) [
        | failed e is ↦ unchanged e is
        | succeeded ca r n c is ↦ enrolled s ca r n c same_url same_name (inl refl) is
      ]

  resume-Outcome :
      (run : Run X) (cfg : JoinConfig) (s : State)
      → s.server_url ≡ cfg.server_url
      → s.name ≡ cfg.name
      → Outcome run cfg (file s) (resume crypto run cfg s (file s))
  unfolding resume
  resume-Outcome run cfg s same_url same_name =
      elim (Bool-cases (not (s.certificate == "") || not (s.ca_certificate == ""))) [
        | inl a ↦ unchanged (failure "saved enrollment state is inconsistent") (ground arith)
        | inr a ↦ elim (Bool-cases (s.token == "" || s.private_key == "" || is_empty s.csr)) [
          | inl b ↦ unchanged (failure "saved enrollment is incomplete") (ground arith)
          | inr b ↦ elim (Bool-cases (not (cfg.token == "") && not (cfg.token == s.token))) [
            | inl c ↦
                unchanged (failure "token differs from saved enrollment: run reset first")
                  (ground arith)
            | inr c ↦
                rw (a, b, c)
                  (resume_parsed-Outcome run cfg s (parse crypto.decode s.token) same_url same_name)
          ]
        ]
      ]

  configured-Outcome :
      (run : Run X) (cfg : JoinConfig) (s : State)
      → s.server_url ≡ cfg.server_url
      → s.name ≡ cfg.name
      → s.node_id ≢ ""
      → Outcome run cfg (file s) (configured crypto s (file s))
  unfolding configured
  configured-Outcome run cfg s same_url same_name node =
      elim (Bool-cases (s.private_key == "" || s.certificate == "" || s.ca_certificate == "")) [
        | inl a ↦ unchanged (failure "saved worker credentials are incomplete") (ground arith)
        | inr a ↦
            was_complete s refl node (ground arith) (ground arith) (ground arith) same_url same_name
              (ground arith)
      ]

  continue_with-Outcome :
      (run : Run X) (cfg : JoinConfig) (s : State)
      → Outcome run cfg (file s) (continue_with crypto run cfg s (file s))
  unfolding continue_with
  continue_with-Outcome run cfg s =
      elim (Bool-cases (not (s.server_url == cfg.server_url) || not (s.name == cfg.name))) [
        | inl a ↦
            unchanged (failure "server or name differs from saved enrollment: run reset first")
              (ground arith)
        | inr a ↦ elim (Bool-cases (s.node_id == "")) [
          | inl e ↦ rw (a, e) (resume-Outcome run cfg s (ground arith) (ground arith))
          | inr e ↦
              rw (a, e) (configured-Outcome run cfg s (ground arith) (ground arith) (ground arith))
        ]
      ]

  begin-Outcome :
      (run : Run X) (cfg : JoinConfig) → Outcome run cfg no_file (begin crypto run cfg no_file)
  unfolding begin begin_parsed
  begin-Outcome run cfg = elim (Bool-cases (trim_space cfg.token == "")) [
    | inl a ↦ unchanged (failure "join token is required for enrollment") (ground arith)
    | inr a ↦ elim (Result-cases (parse crypto.decode cfg.token)) [
      | inr (e, p) ↦ unchanged e (ground arith)
      | inl (t, p) ↦ rw (a, p) (begin_with-Outcome run cfg t (ground arith) p)
    ]
  ]

  pub join-Outcome :
      (run : Run X) (cfg : JoinConfig) (d : Disk) → Outcome run cfg d (join crypto run cfg d)
  unfolding join loaded load_state
  join-Outcome run cfg d = elim (Bool-cases run.locks) [
    | inr l ↦ unchanged (failure "lock data directory") (ground arith)
    | inl l ↦ subst (Outcome run cfg d) (ground arith) (at_file d)
  ]
    where
      at_file : (d : Disk) → Outcome run cfg d (loaded crypto run cfg (load_state d) d)
      at_file no_file = begin-Outcome run cfg
      at_file damaged = unchanged (failure "read worker state") refl
      at_file (file s) = continue_with-Outcome run cfg s
