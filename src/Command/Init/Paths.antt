-- ===== src/Command/Init/Paths.antt =====
-- The paths that cmd/hambo-server/init.go writes.
use Prim.Native.Char.{code}
use text.Mathlib.TextLemmas.{head-eq_of_cons-eq, cons-append}
use hambo.Base.{String, ◌<>◌, ◌≢◌, ◌≡◌, ◌∙◌, ap, arith, false, refl, differ, dec_string}
use hambo.Base.Names
use hambo.Files.{join_path, dirs_to}
use hambo.Files.Paths.{join_path-names, join_path-deep, join_path-below, join_path-beside}
use hambo.Pki.Save.{crt_path, key_path}
use hambo.Command.Init.{pki_dir, admin_path}

pub names_differ :
    (dir : String)
    → (crt_path dir "ca" ≢ crt_path dir "server")
      × (crt_path dir "ca" ≢ key_path dir "server")
      × (key_path dir "ca" ≢ crt_path dir "server")
      × (key_path dir "ca" ≢ key_path dir "server")
unfolding crt_path key_path
names_differ dir = (
  join_path-names dir "ca.crt" "server.crt"
      (differ "ca.crt" "server.crt" (unfold dec_string in refl)),
  join_path-names dir "ca.crt" "server.key"
      (differ "ca.crt" "server.key" (unfold dec_string in refl)),
  join_path-names dir "ca.key" "server.crt"
      (differ "ca.key" "server.crt" (unfold dec_string in refl)),
  join_path-names dir "ca.key" "server.key"
      (differ "ca.key" "server.key" (unfold dec_string in refl)),
)

admin_path-pki_dir :
    (data_dir name : String)
    → ("pki" <> "/" <> name) ≢ "admin.yaml"
    → join_path (pki_dir data_dir) name ≢ admin_path data_dir
unfolding pki_dir admin_path
admin_path-pki_dir data_dir name h = join_path-deep data_dir "pki" name "admin.yaml" h

pub admin_path-certificates :
    (data_dir : String)
    → (crt_path (pki_dir data_dir) "ca" ≢ admin_path data_dir)
      × (key_path (pki_dir data_dir) "ca" ≢ admin_path data_dir)
      × (crt_path (pki_dir data_dir) "server" ≢ admin_path data_dir)
      × (key_path (pki_dir data_dir) "server" ≢ admin_path data_dir)
unfolding crt_path key_path
admin_path-certificates data_dir = (
  admin_path-pki_dir data_dir "ca.crt"
      (differ "pki/ca.crt" "admin.yaml" (unfold dec_string in refl)),
  admin_path-pki_dir data_dir "ca.key"
      (differ "pki/ca.key" "admin.yaml" (unfold dec_string in refl)),
  admin_path-pki_dir data_dir "server.crt"
      (differ "pki/server.crt" "admin.yaml" (unfold dec_string in refl)),
  admin_path-pki_dir data_dir "server.key"
      (differ "pki/server.key" "admin.yaml" (unfold dec_string in refl)),
)

-- No file that is written is where a directory must be.
pub certificates-below :
    (dir name : String)
    → (Names.contains (dirs_to dir) (crt_path dir name) ≡ false)
      × (Names.contains (dirs_to dir) (key_path dir name) ≡ false)
unfolding crt_path key_path
certificates-below dir name =
    (join_path-below dir (name <> ".crt"), join_path-below dir (name <> ".key"))

pub admin_path-beside :
    (data_dir : String) → Names.contains (dirs_to (pki_dir data_dir)) (admin_path data_dir) ≡ false
unfolding pki_dir admin_path
admin_path-beside data_dir = join_path-beside data_dir "pki" "admin.yaml" (λ r h.
    absurd (ground (arith, ap code (head-eq_of_cons-eq (h ∙ cons-append "a" "dmin.yaml" r)))))
