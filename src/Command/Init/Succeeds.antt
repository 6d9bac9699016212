-- ===== src/Command/Init/Succeeds.antt =====
-- A run of cmd/hambo-server/init.go where nothing is in the way.
use hambo.Base.{
  String, true, [], Option, none, ok, ◌≡◌, ◌≢◌, ap, ◌∙◌, sym, arith, Option-cases, inl, inr,
}
use hambo.CliConfig.{Config}
use hambo.CliConfig.Saved.{save-fine}
use hambo.Files.{Files, dirs_to}
use hambo.Files.Calls.{Works}
use hambo.Pki.{
  Template, Credentials, issue_server_certificate, issue_admin_certificate, server_template,
  admin_template, check_time,
}
use hambo.Pki.Authority.{X509, generate_ca, ca_template, time_of}
use hambo.Pki.Authority.Loaded.{AreLawful, generate_ca-check_time}
use hambo.Pki.Save.{crt_path, key_path, save_certificate}
use hambo.Pki.Save.Whole.{save_certificate-fine, save_certificate-others}
use hambo.Pki.Save.Saved.{save_certificate-Saved}
use hambo.Base.Names
use hambo.Files.Dirs.{no_file, StaysAt-no_file}
use hambo.Pki.Save.Within.{within-fine}
use hambo.Command.Init.{
  InitRun, Prepared, pki_dir, admin_path, admin_config, issue_server, issue_admin, prepare,
  save_config, save_server, save_ca, save_prepared, init,
}
use hambo.Command.Init.Paths.{
  names_differ, admin_path-certificates, certificates-below, admin_path-beside,
}

-- Keys are generated, and every call on a file succeeds that is no removal.
pub record AllWork {K : Type 0} (run : InitRun K) : Type 0 where
  pub ca_key : run.ca_key ≢ none
  pub server_key : run.server_key ≢ none
  pub admin_key : run.admin_key ≢ none
  pub ca_dir : (path : String) → run.ca_calls.makes_dir path ≡ true
  pub ca_crt : Works run.ca_calls.crt
  pub ca_pem : Works run.ca_calls.key
  pub server_dir : (path : String) → run.server_calls.makes_dir path ≡ true
  pub server_crt : Works run.server_calls.crt
  pub server_pem : Works run.server_calls.key
  pub config : Works run.config_calls

-- None of the files that a run writes is there, and no file is where it needs a directory.
pub record IsFree (data_dir : String) (files : Files) : Type 0 where
  pub ca_crt : files (crt_path (pki_dir data_dir) "ca") ≡ none
  pub ca_key : files (key_path (pki_dir data_dir) "ca") ≡ none
  pub server_crt : files (crt_path (pki_dir data_dir) "server") ≡ none
  pub server_key : files (key_path (pki_dir data_dir) "server") ≡ none
  pub admin : files (admin_path data_dir) ≡ none
  pub dirs :
      (p : String) → Names.contains (dirs_to (pki_dir data_dir)) p ≡ true → no_file (files p) ≡ true

-- Every certificate can be created, and every key and configuration written as a text.
pub record AreTotal {K C : Type 0} (x509 : X509 K C) (marshal : Config → Option String)
    : Type 0 where
  pub creates : (t : Template) (key issuer : K) → x509.create t key issuer ≢ none
  pub encodes : (key : K) → x509.encode_key key ≢ none
  pub marshals : (cfg : Config) → marshal cfg ≢ none

module _ {K C : Type 0} (x509 : X509 K C) (marshal : Config → Option String)
    (unmarshal : String → Option Config) (laws : AreLawful x509) (total : AreTotal x509 marshal)
    (run : InitRun K) (data_dir : String) (works : AllWork run) where
  generate_ca-fine : (ca : Credentials K C) × (generate_ca x509 run.ca_key run.now ≡ ok ca)
  unfolding generate_ca
  generate_ca-fine = elim (Option-cases run.ca_key) [
    | inl e ↦ absurd (works.ca_key e)
    | inr (key, e) ↦ elim (Option-cases (x509.create (ca_template x509 run.now) key key)) [
      | inl n ↦ absurd (total.creates (ca_template x509 run.now) key key n)
      | inr (c, n) ↦ (record { certificate = c; private_key = key }, ground arith)
    ]
  ]

  issue_server-fine :
      (ca : Credentials K C)
      → check_time (time_of x509 ca) run.now ≡ ok tt
      → (server : Credentials K C) × (issue_server x509 marshal unmarshal run ca ≡ ok server)
  unfolding issue_server issue_server_certificate
  issue_server-fine ca valid = elim (Option-cases run.server_key) [
    | inl e ↦ absurd (works.server_key e)
    | inr (key, e) ↦
        elim (Option-cases
          (x509.create (server_template (time_of x509 ca) run.now) key ca.private_key)) [
            | inl n ↦
                absurd
                  (total.creates (server_template (time_of x509 ca) run.now) key ca.private_key n)
            | inr (c, n) ↦ (record { certificate = c; private_key = key }, ground arith)
          ]
  ]

  issue_admin-fine :
      (ca : Credentials K C)
      → check_time (time_of x509 ca) run.now ≡ ok tt
      → (admin : Credentials K C) × (issue_admin x509 marshal unmarshal run ca ≡ ok admin)
  unfolding issue_admin issue_admin_certificate
  issue_admin-fine ca valid = elim (Option-cases run.admin_key) [
    | inl e ↦ absurd (works.admin_key e)
    | inr (key, e) ↦
        elim (Option-cases
          (x509.create (admin_template (time_of x509 ca) run.now) key ca.private_key)) [
            | inl n ↦
                absurd
                  (total.creates (admin_template (time_of x509 ca) run.now) key ca.private_key n)
            | inr (c, n) ↦ (record { certificate = c; private_key = key }, ground arith)
          ]
  ]

  prepare-fine : (p : Prepared K C) × (prepare x509 marshal unmarshal run ≡ ok p)
  unfolding prepare
  prepare-fine =
      let ca = generate_ca-fine in
      let valid = generate_ca-check_time x509 laws run.ca_key run.now ca.0 ca.1 in
      let server = issue_server-fine ca.0 valid in
      let admin = issue_admin-fine ca.0 valid in
      elim (Option-cases (x509.encode_key admin.0.private_key)) [
        | inl e ↦ absurd (total.encodes admin.0.private_key e)
        | inr (pem, e) ↦ (
          record {
            ca = ca.0;
            server = server.0;
            config = admin_config x509 marshal unmarshal ca.0 admin.0 pem;
          },
          ground (arith, ca.1, server.1, admin.1),
        )
      ]

  -- The CA's save leaves no file where a directory must be.
  dirs_free :
      (p : Prepared K C) (files : Files)
      → ((q : String)
          → Names.contains (dirs_to (pki_dir data_dir)) q ≡ true
          → no_file (files q) ≡ true)
      → (save_certificate x509.encode_certificate x509.encode_key run.ca_calls
          (pki_dir data_dir)
          "ca"
          p.ca
          files).0
        ≡ []
      → (q : String) → Names.contains (dirs_to (pki_dir data_dir)) q ≡ true
      → no_file (
          (save_certificate x509.encode_certificate x509.encode_key run.ca_calls
              (pki_dir data_dir)
              "ca"
              p.ca
              files).1
            q)
        ≡ true
  dirs_free p files dirs fine q h =
      let below = certificates-below (pki_dir data_dir) "ca" in
      StaysAt-no_file (dirs_to (pki_dir data_dir)) q (files q) _
        (save_certificate-others x509.encode_certificate x509.encode_key run.ca_calls
          (pki_dir data_dir) "ca" p.ca files fine q
          (λ e.
            absurd (ground (arith, h, below.0, ap (Names.contains (dirs_to (pki_dir data_dir))) e)))
          (λ e.
            absurd
              (ground (arith, h, below.1, ap (Names.contains (dirs_to (pki_dir data_dir))) e))))
        (dirs q h)

  save_server-fine :
      (p : Prepared K C) (files : Files)
      → files (crt_path (pki_dir data_dir) "server") ≡ none
      → files (key_path (pki_dir data_dir) "server") ≡ none
      → files (admin_path data_dir) ≡ none
      → ((q : String)
          → Names.contains (dirs_to (pki_dir data_dir)) q ≡ true
          → no_file (files q) ≡ true)
      → (save_server x509 marshal unmarshal run data_dir p files).0 ≡ []
  unfolding save_server save_config
  save_server-fine p files crt key admin dirs =
      let (ca_crt, ca_key, server_crt, server_key) = admin_path-certificates data_dir in
      let fine =
        save_certificate-fine x509.encode_certificate x509.encode_key run.server_calls
          (pki_dir data_dir) "server" p.server files (total.encodes p.server.private_key)
          works.server_dir dirs works.server_crt works.server_pem crt key in
      let w =
        save_certificate-Saved x509.encode_certificate x509.encode_key run.server_calls
          (pki_dir data_dir) "server" p.server files fine in
      within-fine x509.encode_certificate x509.encode_key run.server_calls run.server_removes
        (pki_dir data_dir) "server" p.server files
        (save_config x509 marshal unmarshal run data_dir p.config) fine
        (save-fine marshal unmarshal run.config_calls (admin_path data_dir) p.config
          (save_certificate x509.encode_certificate x509.encode_key run.server_calls
            (pki_dir data_dir) "server" p.server files).1
          (total.marshals p.config) works.config
          (w.2.others (admin_path data_dir) (λ e. server_crt (sym e)) (λ e. server_key (sym e))
              (admin_path-beside data_dir)
            ∙ admin))

  save_ca-fine :
      (p : Prepared K C) (files : Files)
      → IsFree data_dir files
      → (save_ca x509 marshal unmarshal run data_dir p files).0 ≡ []
  unfolding save_ca
  save_ca-fine p files free =
      let (ca_crt, ca_key, server_crt, server_key) = admin_path-certificates data_dir in
      let (a, b, c, d) = names_differ (pki_dir data_dir) in
      let fine =
        save_certificate-fine x509.encode_certificate x509.encode_key run.ca_calls
          (pki_dir data_dir) "ca" p.ca files (total.encodes p.ca.private_key) works.ca_dir free.dirs
          works.ca_crt works.ca_pem free.ca_crt free.ca_key in
      let w =
        save_certificate-Saved x509.encode_certificate x509.encode_key run.ca_calls
          (pki_dir data_dir) "ca" p.ca files fine in
      within-fine x509.encode_certificate x509.encode_key run.ca_calls run.ca_removes
        (pki_dir data_dir) "ca" p.ca files (save_server x509 marshal unmarshal run data_dir p) fine
        (save_server-fine p
          (save_certificate x509.encode_certificate x509.encode_key run.ca_calls (pki_dir data_dir)
            "ca" p.ca files).1
          (w.2.others (crt_path (pki_dir data_dir) "server") (λ e. a (sym e)) (λ e. c (sym e))
              (certificates-below (pki_dir data_dir) "server").0
            ∙ free.server_crt)
          (w.2.others (key_path (pki_dir data_dir) "server") (λ e. b (sym e)) (λ e. d (sym e))
              (certificates-below (pki_dir data_dir) "server").1
            ∙ free.server_key)
          (w.2.others (admin_path data_dir) (λ e. ca_crt (sym e)) (λ e. ca_key (sym e))
              (admin_path-beside data_dir)
            ∙ free.admin)
          (dirs_free p files free.dirs fine))

  -- If keys are generated, every call on a file or directory succeeds that is no removal, none of
  -- the five files is there and no file where a directory must be, certificates can always be
  -- created, and keys and configurations encoded, then `init` succeeds: a CA that was made now can
  -- issue now. A parsed certificate is taken to have the times of its template in whole seconds,
  -- and five years on to be a second later at least.
  pub init-fine :
      (files : Files)
      → IsFree data_dir files
      → (init x509 marshal unmarshal run data_dir files).0 ≡ []
  unfolding init save_prepared
  init-fine files free =
      ap (λ r. (save_prepared x509 marshal unmarshal run data_dir files r).0) prepare-fine.1
      ∙ save_ca-fine prepare-fine.0 files free
