-- ===== src/Pki/Save.antt =====
-- internal/pki/save.go: a certificate and its key as two files. The encodings of encoding/pem and
-- crypto/x509 are parameters.
pub mod Pair
pub mod Undone
pub mod Whole
pub mod Within
pub mod Saved
use hambo.Base.{
  String, Bool, true, false, not, List, [], ◌∷◌, ◌++◌, ◌<>◌, Option, none, some, Result, ok, err,
  Error, failure, if◌then◌else◌,
}
use hambo.Pki.{Credentials}
use hambo.Files.{
  Files, NewFile, Outcome, join_path, open_new, write_new, remove_file, then_remove, go_on,
  mkdir_all,
}

-- How the system answers a save: which directories can be made, and its two files.
pub record SaveCalls : Type 0 where
  pub makes_dir : String → Bool
  pub crt : NewFile
  pub key : NewFile

unfoldable pub crt_path : String → String → String
crt_path dir name = join_path dir (name <> ".crt")

unfoldable pub key_path : String → String → String
key_path dir name = join_path dir (name <> ".key")

-- The key's file once the certificate's was written, and whether it was created.
save_key : NewFile → String → String → Outcome → Bool × Outcome
unfolding open_new write_new
save_key calls path key_pem (e ∷ es, files) = (false, (e ∷ es, files))
save_key calls path key_pem ([], files) = elim (open_new calls.opens path files) [
  | err e ↦ (false, (e ∷ [], files))
  | ok opened ↦ (true, write_new calls path key_pem opened)
]

-- The deferred function: after an error the key's file goes, if it was created, then the other.
clean_up : SaveCalls → String → String → Bool × Outcome → Outcome
unfolding then_remove
clean_up calls crt key (key_created, ([], files)) = ([], files)
clean_up calls crt key (true, (e ∷ es, files)) =
    then_remove calls.crt.removes crt (then_remove calls.key.removes key (e ∷ es, files))
clean_up calls crt key (false, (e ∷ es, files)) = then_remove calls.crt.removes crt (e ∷ es, files)

-- From the open file of the certificate on.
unfoldable pub save_pair : SaveCalls → String → String → String → String → Files → Outcome
unfolding save_key clean_up write_new
save_pair calls crt key certificate_pem key_pem opened =
    clean_up calls crt key
      (save_key calls.key key key_pem (write_new calls.crt crt certificate_pem opened))

unfoldable pub save_files : SaveCalls → String → String → String → String → Files → Outcome
unfolding save_pair open_new
save_files calls crt key certificate_pem key_pem files = elim (open_new calls.crt.opens crt files) [
  | err e ↦ (e ∷ [], files)
  | ok opened ↦ save_pair calls crt key certificate_pem key_pem opened
]

module _ {K C : Type 0} (encode_certificate : C → String) (encode_key : K → Option String) where
  -- Also `CA.Save`, with the name "ca", and `Certificate.Save`.
  unfoldable pub save_certificate : SaveCalls → String → String → Credentials K C → Files → Outcome
  unfolding go_on mkdir_all save_files crt_path key_path
  save_certificate calls dir name c files = elim (encode_key c.private_key) [
    | none ↦ (failure "encode private key" ∷ [], files)
    | some key_pem ↦ go_on (mkdir_all calls.makes_dir dir files) (
        save_files calls (crt_path dir name) (key_path dir name) (encode_certificate c.certificate)
          key_pem)
  ]

-- Also `CA.Remove`, with the name "ca", and `Certificate.Remove`: whether each file can be removed.
unfoldable pub remove_certificate : Bool × Bool → String → String → Outcome → Outcome
unfolding then_remove crt_path key_path
remove_certificate (crt, key) dir name before =
    then_remove key (key_path dir name) (then_remove crt (crt_path dir name) before)
