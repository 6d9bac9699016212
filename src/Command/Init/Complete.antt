-- ===== src/Command/Init/Complete.antt =====
-- A run of cmd/hambo-server/init.go that succeeds, and the readers of what it left.
use hambo.Base.{
  String, true, [], Option, none, some, Result, ok, err, ◌≡◌, ◌≢◌, refl, ap, ◌∙◌, sym, subst, arith,
}
use hambo.Model.Node.{Node}
use hambo.Api.Auth.{presented}
use hambo.Api.Routes.{create_token, create_container, dispatch}
use hambo.CliConfig.{Config, load, checked}
use hambo.CliConfig.Saved.{save-Written}
use hambo.Files.{Files, Outcome, file, read_file}
use hambo.Pki.{Credentials, admin_template, server_template}
use hambo.Pki.Authority.{X509, generate_ca, load_ca, time_of}
use hambo.Pki.Authority.Loaded.{AreLawful, load_ca-generate_ca}
use hambo.Pki.Save.{SaveCalls, crt_path, key_path, save_certificate}
use hambo.Pki.Save.Saved.{Saved, save_certificate-Saved}
use hambo.Pki.Save.Within.{within-ok}
use hambo.Command.Init.{
  InitRun, Prepared, pki_dir, admin_path, prepare, save_config, save_server, save_ca, save_prepared,
  init,
}
use hambo.Command.Init.Paths.{
  names_differ, admin_path-certificates, certificates-below, admin_path-beside,
}
use hambo.Command.Init.Ready.{
  AreReadable, Signed, IsPrepared, prepare-IsPrepared, reached, dispatch-admin_tokens,
  dispatch-admin_containers,
}

module _ {K C : Type 0} (x509 : X509 K C) (marshal : Config → Option String)
    (unmarshal : String → Option Config) (laws : AreLawful x509)
    (readable : AreReadable x509 marshal unmarshal) (run : InitRun K) (data_dir : String) where
  load_ca-files :
      (dir : String) (f g : Files)
      → f (crt_path dir "ca") ≡ g (crt_path dir "ca")
      → f (key_path dir "ca") ≡ g (key_path dir "ca")
      → load_ca x509 true dir f ≡ load_ca x509 true dir g
  unfolding load_ca read_file
  load_ca-files dir f g crt key = ground (arith, crt, key)

  -- What a run that succeeded left.
  pub record Initialized (files after : Files) : Type 0 where
    pub ca : Credentials K C
    pub config : Config
    pub ca_made : generate_ca x509 run.ca_key run.now ≡ ok ca
    pub ca_loads : load_ca x509 true (pki_dir data_dir) after ≡ ok ca
    pub config_loads : load marshal unmarshal true (admin_path data_dir) after ≡ ok config
    pub same_ca : after (crt_path (pki_dir data_dir) "ca") ≡ some (file config.ca_cert)
    pub server : Credentials K C
    pub server_signed :
        Signed x509 marshal unmarshal laws readable run data_dir
          (server_template (time_of x509 ca) run.now)
          ca
          server
    pub server_crt :
        after (crt_path (pki_dir data_dir) "server")
        ≡ some (file (x509.encode_certificate server.certificate))
    pub server_text : String
    pub server_key : after (key_path (pki_dir data_dir) "server") ≡ some (file server_text)
    pub server_encoded : x509.encode_key server.private_key ≡ some server_text
    pub admin : Credentials K C
    pub admin_signed :
        Signed x509 marshal unmarshal laws readable run data_dir
          (admin_template (time_of x509 ca) run.now)
          ca
          admin
    pub client_cert : config.client_cert ≡ x509.encode_certificate admin.certificate
    pub client_key : x509.encode_key admin.private_key ≡ some config.client_key
    pub may_create_tokens :
        (get : String → Result Node)
        → dispatch get (presented (admin_template (time_of x509 ca) run.now)) "POST" "/tokens"
          ≡ reached create_token
    pub may_create_containers :
        (get : String → Result Node)
        → dispatch get (presented (admin_template (time_of x509 ca) run.now)) "POST" "/containers"
          ≡ reached create_container
    pub new_ca : files (crt_path (pki_dir data_dir) "ca") ≡ none
    pub new_config : files (admin_path data_dir) ≡ none

  load-has :
      (after : Files) (cfg : Config) (text : String)
      → after (admin_path data_dir) ≡ some (file text)
      → marshal cfg ≡ some text
      → checked cfg ≡ ok cfg
      → load marshal unmarshal true (admin_path data_dir) after ≡ ok cfg
  unfolding load read_file
  load-has after cfg text has encoded fine = ground (arith, readable.read_back cfg text encoded)

  -- The three saves in turn.
  module _ (p : Prepared K C) (files f1 f2 f3 : Files) (ca_pem server_pem text : String)
      (first : Saved
        (pki_dir data_dir)
        (crt_path (pki_dir data_dir) "ca")
        (key_path (pki_dir data_dir) "ca")
        (x509.encode_certificate p.ca.certificate)
        ca_pem
        files
        f1)
      (second : Saved
        (pki_dir data_dir)
        (crt_path (pki_dir data_dir) "server")
        (key_path (pki_dir data_dir) "server")
        (x509.encode_certificate p.server.certificate)
        server_pem
        f1
        f2)
      (others : (path : String) → path ≢ admin_path data_dir → f3 path ≡ f2 path) where
    crt_kept : f3 (crt_path (pki_dir data_dir) "ca") ≡ f1 (crt_path (pki_dir data_dir) "ca")
    crt_kept =
        others (crt_path (pki_dir data_dir) "ca") (admin_path-certificates data_dir).0
        ∙ second.others (crt_path (pki_dir data_dir) "ca") (names_differ (pki_dir data_dir)).0
            (names_differ (pki_dir data_dir)).1 (certificates-below (pki_dir data_dir) "ca").0

    key_kept : f3 (key_path (pki_dir data_dir) "ca") ≡ f1 (key_path (pki_dir data_dir) "ca")
    key_kept =
        others (key_path (pki_dir data_dir) "ca") (admin_path-certificates data_dir).1
        ∙ second.others (key_path (pki_dir data_dir) "ca") (names_differ (pki_dir data_dir)).2
            (names_differ (pki_dir data_dir)).3 (certificates-below (pki_dir data_dir) "ca").1

    saves-Initialized :
        IsPrepared x509 marshal unmarshal laws readable run data_dir p
        → load_ca x509 true (pki_dir data_dir) f1 ≡ ok p.ca
        → x509.encode_key p.server.private_key ≡ some server_pem
        → marshal p.config ≡ some text
        → f2 (admin_path data_dir) ≡ none
        → f3 (admin_path data_dir) ≡ some (file text)
        → Initialized files f3
    saves-Initialized is loaded pem encoded new has =
        let (ca_crt, ca_key, server_crt, server_key) = admin_path-certificates data_dir in
        record {
          ca = p.ca;
          config = p.config;
          ca_made = is.made;
          ca_loads = load_ca-files (pki_dir data_dir) f3 f1 crt_kept key_kept ∙ loaded;
          config_loads = load-has f3 p.config text has encoded is.complete_config;
          same_ca = crt_kept ∙ first.has_crt ∙ ap (λ x. some (file x)) (sym is.trusts);
          server = p.server;
          server_signed = is.server_signed;
          server_crt = others (crt_path (pki_dir data_dir) "server") server_crt ∙ second.has_crt;
          server_key = others (key_path (pki_dir data_dir) "server") server_key ∙ second.has_key;
          server_text = server_pem;
          server_encoded = pem;
          admin = is.admin;
          admin_signed = is.admin_signed;
          client_cert = is.client_cert;
          client_key = is.client_key;
          may_create_tokens = λ get. dispatch-admin_tokens get (time_of x509 p.ca) run.now;
          may_create_containers = λ get. dispatch-admin_containers get (time_of x509 p.ca) run.now;
          new_ca = first.new_crt;
          new_config = ground (
            arith,
            second.others (admin_path data_dir) (λ e. server_crt (sym e)) (λ e. server_key (sym e))
                (admin_path-beside data_dir),
            first.others (admin_path data_dir) (λ e. ca_crt (sym e)) (λ e. ca_key (sym e))
                (admin_path-beside data_dir),
          );
        }

  save_prepared-Initialized :
      (r : Result (Prepared K C)) (files : Files)
      → prepare x509 marshal unmarshal run ≡ r
      → (save_prepared x509 marshal unmarshal run data_dir files r).0 ≡ []
      → Initialized files (save_prepared x509 marshal unmarshal run data_dir files r).1
  unfolding save_prepared save_ca save_server save_config
  save_prepared-Initialized (err e) files q h = absurd (ground arith)
  save_prepared-Initialized (ok p) files q h =
      let save : SaveCalls → String → Credentials K C → Files → Outcome = λ calls name c f.
        save_certificate x509.encode_certificate x509.encode_key calls (pki_dir data_dir) name c
          f in
      let first =
        within-ok x509.encode_certificate x509.encode_key run.ca_calls run.ca_removes
          (pki_dir data_dir) "ca" p.ca files (save_server x509 marshal unmarshal run data_dir p)
          h in
      let f1 : Files = (save run.ca_calls "ca" p.ca files).1 in
      let second =
        within-ok x509.encode_certificate x509.encode_key run.server_calls run.server_removes
          (pki_dir data_dir) "server" p.server f1
          (save_config x509 marshal unmarshal run data_dir p.config) first.1 in
      let f2 : Files = (save run.server_calls "server" p.server f1).1 in
      let w1 =
        save_certificate-Saved x509.encode_certificate x509.encode_key run.ca_calls
          (pki_dir data_dir) "ca" p.ca files first.0 in
      let w2 =
        save_certificate-Saved x509.encode_certificate x509.encode_key run.server_calls
          (pki_dir data_dir) "server" p.server f1 second.0 in
      let w3 =
        save-Written marshal unmarshal run.config_calls (admin_path data_dir) p.config f2
          second.1 in
      let is = prepare-IsPrepared x509 marshal unmarshal laws readable run data_dir p q in
      subst (Initialized files) (sym (first.2 ∙ second.2)) (
        saves-Initialized p files f1 f2
          (save_config x509 marshal unmarshal run data_dir p.config f2).1 w1.0 w2.0 w3.0 w1.2 w2.2
          w3.1.others is
          (load_ca-generate_ca x509 laws run.ca_key run.now p.ca run.ca_calls (pki_dir data_dir)
            files is.made first.0)
          w2.1 w3.1.encoded w3.1.new w3.1.has)

  -- If `init` succeeds, then `LoadCA` loads the CA that it made from the directory of the keys, the
  -- configuration of the administrator passes the checks of `Load`, trusts the certificate in the
  -- CA's file and holds a certificate that the CA issued to an administrator, with its key, this
  -- certificate's group is admitted to the routes that create tokens and containers, the server's
  -- files hold a certificate that the CA issued to a server, and its key, and neither the CA nor
  -- the configuration was there before. Certificates that are created can be read with their keys,
  -- what yaml writes it reads, and no PEM text is empty.
  pub init-Initialized :
      (files : Files)
      → (init x509 marshal unmarshal run data_dir files).0 ≡ []
      → Initialized files (init x509 marshal unmarshal run data_dir files).1
  unfolding init
  init-Initialized files = save_prepared-Initialized (prepare x509 marshal unmarshal run) files refl
