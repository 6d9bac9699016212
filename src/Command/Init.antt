-- ===== src/Command/Init.antt =====
-- cmd/hambo-server/init.go: the credentials of a server and the configuration of its administrator.
pub mod Atomic
pub mod Paths
pub mod Ready
pub mod Complete
pub mod Succeeds
use hambo.Base.{
  ℕ, String, Bool, List, [], ◌∷◌, Option, none, some, Result, ok, err, Error, failure, ◌>>=◌,
  or_fail,
}
use hambo.CliConfig.{Config, save}
use hambo.Files.{Files, NewFile, Outcome, join_path, go_on, on_error}
use hambo.Pki.{Credentials, Csr, issue_server_certificate, issue_admin_certificate}
use hambo.Pki.Authority.{X509, generate_ca, time_of}
use hambo.Pki.Save.{SaveCalls, save_certificate, remove_certificate}

-- What a run meets: the time, the keys that are generated, and how the calls on files end; at last
-- whether the CA's files, and the server's, can be removed at the end.
pub record InitRun (K : Type 0) : Type 0 where
  pub now : ℕ
  pub ca_key : Option K
  pub server_key : Option K
  pub admin_key : Option K
  pub ca_calls : SaveCalls
  pub server_calls : SaveCalls
  pub config_calls : NewFile
  pub ca_removes : Bool × Bool
  pub server_removes : Bool × Bool

pub record Prepared (K C : Type 0) : Type 0 where
  pub ca : Credentials K C
  pub server : Credentials K C
  pub config : Config

unfoldable pub pki_dir : String → String
pki_dir data_dir = join_path data_dir "pki"

unfoldable pub admin_path : String → String
admin_path data_dir = join_path data_dir "admin.yaml"

module _ {K C : Type 0} (x509 : X509 K C) (marshal : Config → Option String)
    (unmarshal : String → Option Config) where
  unfoldable pub admin_config : Credentials K C → Credentials K C → String → Config
  admin_config ca admin key_pem = record {
    server_url = "https://localhost:8080";
    ca_cert = x509.encode_certificate ca.certificate;
    client_cert = x509.encode_certificate admin.certificate;
    client_key = key_pem;
  }

  unfoldable pub issue_server : InitRun K → Credentials K C → Result (Credentials K C)
  unfolding time_of issue_server_certificate
  issue_server run ca =
      issue_server_certificate (λ der. none) (λ t key. x509.create t key ca.private_key)
        run.server_key (time_of x509 ca) run.now

  unfoldable pub issue_admin : InitRun K → Credentials K C → Result (Credentials K C)
  unfolding time_of issue_admin_certificate
  issue_admin run ca =
      issue_admin_certificate (λ der. none) (λ t key. x509.create t key ca.private_key)
        run.admin_key (time_of x509 ca) run.now

  -- All that comes before the first file.
  unfoldable pub prepare : InitRun K → Result (Prepared K C)
  unfolding generate_ca issue_server issue_admin admin_config
  prepare run = do
    ca ← generate_ca x509 run.ca_key run.now
    server ← issue_server run ca
    admin ← issue_admin run ca
    key_pem ← or_fail (x509.encode_key admin.private_key) (failure "encode admin private key")
    ok (record { ca = ca; server = server; config = admin_config ca admin key_pem })

  unfoldable pub save_config : InitRun K → String → Config → Files → Outcome
  unfolding save admin_path
  save_config run data_dir config files =
      save marshal unmarshal run.config_calls (admin_path data_dir) config files

  unfoldable pub save_server : InitRun K → String → Prepared K C → Files → Outcome
  unfolding go_on on_error save_certificate remove_certificate save_config pki_dir
  save_server run data_dir p files =
      go_on
        (save_certificate x509.encode_certificate x509.encode_key run.server_calls
          (pki_dir data_dir) "server" p.server files)
        (λ saved.
          on_error (remove_certificate run.server_removes (pki_dir data_dir) "server")
            (save_config run data_dir p.config saved))

  unfoldable pub save_ca : InitRun K → String → Prepared K C → Files → Outcome
  unfolding go_on on_error save_certificate remove_certificate save_server pki_dir
  save_ca run data_dir p files =
      go_on
        (save_certificate x509.encode_certificate x509.encode_key run.ca_calls (pki_dir data_dir)
          "ca" p.ca files)
        (λ saved.
          on_error (remove_certificate run.ca_removes (pki_dir data_dir) "ca")
            (save_server run data_dir p saved))

  unfoldable pub save_prepared : InitRun K → String → Files → Result (Prepared K C) → Outcome
  unfolding save_ca
  save_prepared run data_dir files (err e) = (e ∷ [], files)
  save_prepared run data_dir files (ok p) = save_ca run data_dir p files

  -- `RunE` of the command.
  unfoldable pub init : InitRun K → String → Files → Outcome
  unfolding prepare save_prepared
  init run data_dir files = save_prepared run data_dir files (prepare run)
