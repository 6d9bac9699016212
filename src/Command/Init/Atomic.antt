-- ===== src/Command/Init/Atomic.antt =====
-- A run of cmd/hambo-server/init.go that fails.
use hambo.Base.{String, true, [], Option, some, Result, ok, err, ◌≡◌, ◌≢◌, refl, inl}
use hambo.CliConfig.{Config}
use hambo.CliConfig.Saved.{save-Keeps, save-Same}
use hambo.Files.{Entry, Files}
use hambo.Files.Dirs.{Undone}
use hambo.Pki.Authority.{X509}
use hambo.Pki.Save.Within.{within-Keeps, within-StaysAt}
use hambo.Command.Init.{
  InitRun, Prepared, pki_dir, admin_path, prepare, save_config, save_server, save_ca, save_prepared,
  init,
}

-- Every removal that a run can come to is done.
pub record CanRemove {K : Type 0} (run : InitRun K) : Type 0 where
  pub ca_crt : run.ca_calls.crt.removes ≡ true
  pub ca_key : run.ca_calls.key.removes ≡ true
  pub server_crt : run.server_calls.crt.removes ≡ true
  pub server_key : run.server_calls.key.removes ≡ true
  pub config : run.config_calls.removes ≡ true
  pub ca_crt_later : run.ca_removes.0 ≡ true
  pub ca_key_later : run.ca_removes.1 ≡ true
  pub server_crt_later : run.server_removes.0 ≡ true
  pub server_key_later : run.server_removes.1 ≡ true

module _ {K C : Type 0} (x509 : X509 K C) (marshal : Config → Option String)
    (unmarshal : String → Option Config) (run : InitRun K) (data_dir : String) where
  save_server-Keeps :
      (p : Prepared K C) (files : Files) (path : String) (content : Entry)
      → files path ≡ some content
      → (save_server x509 marshal unmarshal run data_dir p files).1 path ≡ some content
  unfolding save_server save_config
  save_server-Keeps p files =
      within-Keeps x509.encode_certificate x509.encode_key run.server_calls run.server_removes
        (pki_dir data_dir) "server" p.server files
        (save_config x509 marshal unmarshal run data_dir p.config)
        (λ f. save-Keeps marshal unmarshal run.config_calls (admin_path data_dir) p.config f)

  save_prepared-Keeps :
      (r : Result (Prepared K C)) (files : Files) (path : String) (content : Entry)
      → files path ≡ some content
      → (save_prepared x509 marshal unmarshal run data_dir files r).1 path ≡ some content
  unfolding save_prepared save_ca
  save_prepared-Keeps (err e) files path content h = h
  save_prepared-Keeps (ok p) files path content h =
      within-Keeps x509.encode_certificate x509.encode_key run.ca_calls run.ca_removes
        (pki_dir data_dir) "ca" p.ca files (save_server x509 marshal unmarshal run data_dir p)
        (save_server-Keeps p) path content h

  -- Whatever fails in `init`, the removals included, a file or directory that was there before
  -- stays as it was.
  pub init-Keeps :
      (files : Files) (path : String) (content : Entry)
      → files path ≡ some content
      → (init x509 marshal unmarshal run data_dir files).1 path ≡ some content
  unfolding init
  init-Keeps = save_prepared-Keeps (prepare x509 marshal unmarshal run)

  save_server-Undone :
      (p : Prepared K C) (files : Files)
      → CanRemove run
      → (save_server x509 marshal unmarshal run data_dir p files).0 ≢ []
      → Undone (pki_dir data_dir) files (save_server x509 marshal unmarshal run data_dir p files).1
  unfolding save_server save_config
  save_server-Undone p files can =
      within-StaysAt x509.encode_certificate x509.encode_key run.server_calls run.server_removes
        (pki_dir data_dir) "server" p.server files
        (save_config x509 marshal unmarshal run data_dir p.config) can.server_crt can.server_key
        can.server_crt_later can.server_key_later
        (λ f bad path. inl (
          save-Same marshal unmarshal run.config_calls (admin_path data_dir) p.config f can.config
            bad path))

  save_prepared-Undone :
      (r : Result (Prepared K C)) (files : Files)
      → CanRemove run
      → (save_prepared x509 marshal unmarshal run data_dir files r).0 ≢ []
      → Undone
          (pki_dir data_dir)
          files
          (save_prepared x509 marshal unmarshal run data_dir files r).1
  unfolding save_prepared save_ca
  save_prepared-Undone (err e) files can failed path = inl refl
  save_prepared-Undone (ok p) files can failed path =
      within-StaysAt x509.encode_certificate x509.encode_key run.ca_calls run.ca_removes
        (pki_dir data_dir) "ca" p.ca files (save_server x509 marshal unmarshal run data_dir p)
        can.ca_crt can.ca_key can.ca_crt_later can.ca_key_later (λ f. save_server-Undone p f can)
        failed path

  -- If `init` fails, whether before its first file or at any call on one, and files can be removed,
  -- then every path holds what it held, but that a directory may be left where nothing was, at the
  -- directory of the keys or above it.
  pub init-Undone :
      (files : Files)
      → CanRemove run
      → (init x509 marshal unmarshal run data_dir files).0 ≢ []
      → Undone (pki_dir data_dir) files (init x509 marshal unmarshal run data_dir files).1
  unfolding init
  init-Undone = save_prepared-Undone (prepare x509 marshal unmarshal run)
