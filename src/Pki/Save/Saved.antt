-- ===== src/Pki/Save/Saved.antt =====
-- What a certificate's save that succeeded did (internal/pki/save.go), beside the directory.
use hambo.Base.{String, [], Option, none, some, false, ◌≡◌, ◌≢◌}
use hambo.Base.Names
use hambo.Files.{Files, Outcome, file, dirs_to}
use hambo.Files.Dirs.{StaysAt-other, mkdir_all-none}
use hambo.Pki.{Credentials}
use hambo.Pki.Save.{SaveCalls, save_certificate, crt_path, key_path}
use hambo.Pki.Save.Whole.{save_certificate-Written, save_certificate-others}

-- It made both files, which were not there, and nothing else but directories.
pub record Saved (dir crt key crt_pem key_pem : String) (files files' : Files) : Type 0 where
  pub new_crt : files crt ≡ none
  pub new_key : files key ≡ none
  pub has_crt : files' crt ≡ some (file crt_pem)
  pub has_key : files' key ≡ some (file key_pem)
  pub others :
      (p : String) → p ≢ crt → p ≢ key → Names.contains (dirs_to dir) p ≡ false → files' p ≡ files p

module _ {K C : Type 0} (encode_certificate : C → String) (encode_key : K → Option String)
    (calls : SaveCalls) (dir name : String) (c : Credentials K C) (files : Files) where
  abbrev saved : Outcome
  saved = save_certificate encode_certificate encode_key calls dir name c files

  pub save_certificate-Saved :
      saved.0 ≡ []
      → (key_pem : String) × (encode_key c.private_key ≡ some key_pem)
        × Saved dir
            (crt_path dir name)
            (key_path dir name)
            (encode_certificate c.certificate)
            key_pem
            files
            saved.1
  save_certificate-Saved fine =
      let w = save_certificate-Written encode_certificate encode_key calls dir name c files fine in
      let others =
        save_certificate-others encode_certificate encode_key calls dir name c files fine in
      (
        w.0,
        w.1,
        record {
          new_crt = mkdir_all-none calls.makes_dir dir files (crt_path dir name) w.2.new_crt;
          new_key = mkdir_all-none calls.makes_dir dir files (key_path dir name) w.2.new_key;
          has_crt = w.2.has_crt;
          has_key = w.2.has_key;
          others = λ p no_crt no_key apart.
              StaysAt-other (dirs_to dir) p (files p) (saved.1 p) apart (others p no_crt no_key);
        },
      )
