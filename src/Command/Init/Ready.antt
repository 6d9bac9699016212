-- ===== src/Command/Init/Ready.antt =====
-- What cmd/hambo-server/init.go makes before it writes.
use hambo.Base.{
  ℕ, String, Option, none, some, Result, ok, ◌≡◌, ◌≢◌, refl, arith, Result-cases, Option-cases, inl,
  inr, differ, dec_string,
}
use hambo.Model.Node.{Node}
use hambo.Api.Auth.{
  Access, granted, presented, admin_only, require_group, require_certificate, contains,
}
use hambo.Api.Routes.{Handler, create_token, create_container, Reached, dispatch, pass, find_route}
use hambo.CliConfig.{Config, checked, required}
use hambo.Pki.{
  Ca, Credentials, Template, check_time, issue_admin_certificate, issue_server_certificate,
  admin_template, server_template,
}
use hambo.Pki.Authority.{X509, generate_ca, time_of}
use hambo.Pki.Authority.Loaded.{AreLawful}
use hambo.Command.Init.{InitRun, Prepared, admin_config, issue_server, issue_admin, prepare}

-- What is written in PEM is some text, and what yaml writes it reads.
pub record AreReadable {K C : Type 0} (x509 : X509 K C) (marshal : Config → Option String)
    (unmarshal : String → Option Config) : Type 0 where
  pub some_certificate : (c : C) → x509.encode_certificate c ≢ ""
  pub some_key : (key : K) (pem : String) → x509.encode_key key ≡ some pem → pem ≢ ""
  pub read_back :
      (cfg : Config) (text : String) → marshal cfg ≡ some text → unmarshal text ≡ some cfg

-- The request reached that handler, as one of no node.
abbrev pub reached : Handler → Access Reached
reached h = granted (record { handler = h; node_id = none })

pub dispatch-admin_containers :
    (get : String → Result Node) (ca : Ca) (now : ℕ)
    → dispatch get (presented (admin_template ca now)) "POST" "/containers"
      ≡ reached create_container
unfolding dispatch pass find_route admin_only require_group require_certificate contains
    admin_template dec_string
dispatch-admin_containers get ca now = ground arith

pub dispatch-admin_tokens :
    (get : String → Result Node) (ca : Ca) (now : ℕ)
    → dispatch get (presented (admin_template ca now)) "POST" "/tokens" ≡ reached create_token
unfolding dispatch pass find_route admin_only require_group require_certificate contains
    admin_template dec_string
dispatch-admin_tokens get ca now = ground arith

module _ {K C : Type 0} (x509 : X509 K C) (marshal : Config → Option String)
    (unmarshal : String → Option Config) (laws : AreLawful x509)
    (readable : AreReadable x509 marshal unmarshal) (run : InitRun K) (data_dir : String) where
  -- The credentials hold a certificate of the CA, after that template, for their own key.
  abbrev pub Signed : Template → Credentials K C → Credentials K C → Type 0
  Signed t ca c = x509.create t c.private_key ca.private_key ≡ some c.certificate

  issue_server-Signed :
      (ca server : Credentials K C)
      → issue_server x509 marshal unmarshal run ca ≡ ok server
      → Signed (server_template (time_of x509 ca) run.now) ca server
  unfolding issue_server issue_server_certificate
  issue_server-Signed ca server h = elim (Result-cases (check_time (time_of x509 ca) run.now)) [
    | inr (e, q) ↦ absurd (ground arith)
    | inl (u, q) ↦ elim (Option-cases run.server_key) [
      | inl k ↦ absurd (ground arith)
      | inr (key, k) ↦
          elim (Option-cases
            (x509.create (server_template (time_of x509 ca) run.now) key ca.private_key)) [
              | inl c ↦ absurd (ground arith)
              | inr (certificate, c) ↦ ground arith
            ]
    ]
  ]

  issue_admin-Signed :
      (ca admin : Credentials K C)
      → issue_admin x509 marshal unmarshal run ca ≡ ok admin
      → Signed (admin_template (time_of x509 ca) run.now) ca admin
  unfolding issue_admin issue_admin_certificate
  issue_admin-Signed ca admin h = elim (Result-cases (check_time (time_of x509 ca) run.now)) [
    | inr (e, q) ↦ absurd (ground arith)
    | inl (u, q) ↦ elim (Option-cases run.admin_key) [
      | inl k ↦ absurd (ground arith)
      | inr (key, k) ↦
          elim (Option-cases
            (x509.create (admin_template (time_of x509 ca) run.now) key ca.private_key)) [
              | inl c ↦ absurd (ground arith)
              | inr (certificate, c) ↦ ground arith
            ]
    ]
  ]

  -- What the run prepared: a CA that was made, the certificates of it, and a configuration that can
  -- be loaded.
  pub record IsPrepared (p : Prepared K C) : Type 0 where
    pub made : generate_ca x509 run.ca_key run.now ≡ ok p.ca
    pub trusts : p.config.ca_cert ≡ x509.encode_certificate p.ca.certificate
    pub complete_config : checked p.config ≡ ok p.config
    pub server_signed : Signed (server_template (time_of x509 p.ca) run.now) p.ca p.server
    pub admin : Credentials K C
    pub admin_signed : Signed (admin_template (time_of x509 p.ca) run.now) p.ca admin
    pub client_cert : p.config.client_cert ≡ x509.encode_certificate admin.certificate
    pub client_key : x509.encode_key admin.private_key ≡ some p.config.client_key

  pub prepare-IsPrepared :
      (p : Prepared K C) → prepare x509 marshal unmarshal run ≡ ok p → IsPrepared p
  unfolding prepare checked admin_config required
  prepare-IsPrepared p h = elim (Result-cases (generate_ca x509 run.ca_key run.now)) [
    | inr (e, q) ↦ absurd (ground arith)
    | inl (ca, q) ↦ elim (Result-cases (issue_server x509 marshal unmarshal run ca)) [
      | inr (e, s) ↦ absurd (ground arith)
      | inl (server, s) ↦ elim (Result-cases (issue_admin x509 marshal unmarshal run ca)) [
        | inr (e, a) ↦ absurd (ground arith)
        | inl (admin, a) ↦ elim (Option-cases (x509.encode_key admin.private_key)) [
          | inl k ↦ absurd (ground arith)
          | inr (key_pem, k) ↦ record {
            made = ground arith;
            trusts = ground arith;
            complete_config = ground (
              arith,
              readable.some_certificate ca.certificate,
              readable.some_certificate admin.certificate,
              readable.some_key admin.private_key key_pem k,
              differ "https://localhost:8080" "" (unfold dec_string in refl),
            );
            server_signed = ground (arith, issue_server-Signed ca server s);
            admin = admin;
            admin_signed = ground (arith, issue_admin-Signed ca admin a);
            client_cert = ground arith;
            client_key = ground arith;
          }
        ]
      ]
    ]
  ]
