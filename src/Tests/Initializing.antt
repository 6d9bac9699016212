-- ===== src/Tests/Initializing.antt =====
-- Runs of cmd/hambo-server/init.go, that succeed and that fail.
use Prim.Native.Char.{code}
use text.Mathlib.TextLemmas.{cons≢nil}
use hambo.Base.{
  some-injective, ◌∙◌, String, true, false, List, [], ◌∷◌, Option, none, some, Error, ◌≡◌, refl,
  arith, nat_eq, if◌then◌else◌, failure, dec_string, Bool, ◌==◌,
}
use hambo.CliConfig.{Config}
use hambo.Files.Dirs.{Undone}
use hambo.Files.{directory, file, Files, NewFile, join_path}
use hambo.Files.Calls.{Works}
use hambo.Pki.Authority.{X509}
use hambo.Pki.Save.{SaveCalls}
use hambo.Command.Init.{InitRun, init, pki_dir}
use hambo.Command.Init.Atomic.{init-Keeps, init-Undone}
use hambo.Command.Init.Complete.{Initialized, init-Initialized}
use hambo.Command.Init.Ready.{AreReadable}
use hambo.Command.Init.Succeeds.{AllWork, IsFree, AreTotal, init-fine}
use hambo.Tests.Certificates.{Plain, plain_x509, plain_x509-AreLawful, encoded-some}

-- A configuration as a text: each character after a mark, each field with its end.
field : String → String → String
field String.[] rest = String.◌∷◌ "." rest
field (String.◌∷◌ c s) rest = String.◌∷◌ "x" (String.◌∷◌ c (field s rest))

next : Bool → String → String × String
next false String.[] = ("", "")
next false (String.◌∷◌ c s) =
    let rest = next true s in if nat_eq (code c) b'.' then ("", s) else rest
next true String.[] = ("", "")
next true (String.◌∷◌ c s) = let rest = next false s in (String.◌∷◌ c rest.0, rest.1)

next-field : (s rest : String) → next false (field s rest) ≡ (s, rest)
unfolding next field
next-field String.[] rest = refl
next-field (String.◌∷◌ c s) rest = ground (arith, next-field s rest)

marshal : Config → Option String
unfolding field
marshal cfg =
    some
      (field cfg.server_url (field cfg.ca_cert (field cfg.client_cert (field cfg.client_key ""))))

unmarshal : String → Option Config
unfolding next
unmarshal s =
    let (url, s1) = next false s in
    let (ca, s2) = next false s1 in
    let (crt, s3) = next false s2 in
    let (key, s4) = next false s3 in
    some (record { server_url = url; ca_cert = ca; client_cert = crt; client_key = key })

read_back : (cfg : Config) (text : String) → marshal cfg ≡ some text → unmarshal text ≡ some cfg
unfolding marshal unmarshal
read_back cfg text h =
    let f3 = field cfg.client_key "" in
    let f2 = field cfg.client_cert f3 in
    let f1 = field cfg.ca_cert f2 in
    ground (
      arith,
      next-field cfg.server_url f1,
      next-field cfg.ca_cert f2,
      next-field cfg.client_cert f3,
      next-field cfg.client_key "",
    )

readable : AreReadable plain_x509 marshal unmarshal
readable = record {
  some_certificate = encoded-some;
  some_key = λ key pem h e. cons≢nil (some-injective (String.◌∷◌ "K" key) pem h ∙ e);
  read_back = read_back;
}

total : AreTotal plain_x509 marshal
unfolding marshal
total = record {
  creates = λ t key issuer e. ground arith;
  encodes = λ key e. ground arith;
  marshals = λ cfg e. ground arith;
}

abbrev fine_file : NewFile
fine_file = record { opens = true; writes = true; closes = true; removes = true; partial = "" }

abbrev fine_calls : SaveCalls
fine_calls = record { makes_dir = λ path. true; crt = fine_file; key = fine_file }

abbrev fine_run : InitRun String
fine_run = record {
  now = 1000;
  ca_key = some "ca";
  server_key = some "server";
  admin_key = some "admin";
  ca_calls = fine_calls;
  server_calls = fine_calls;
  config_calls = fine_file;
  ca_removes = (true, true);
  server_removes = (true, true);
}

works : Works fine_file
works = record { opens = refl; writes = refl; closes = refl }

all_work : AllWork fine_run
all_work = record {
  ca_key = λ e. ground arith;
  server_key = λ e. ground arith;
  admin_key = λ e. ground arith;
  ca_dir = λ path. refl;
  ca_crt = works;
  ca_pem = works;
  server_dir = λ path. refl;
  server_crt = works;
  server_pem = works;
  config = works;
}

abbrev no_files : Files
no_files path = none

is_free : IsFree "data" no_files
is_free = record {
  ca_crt = refl;
  ca_key = refl;
  server_crt = refl;
  server_key = refl;
  admin = refl;
  dirs = λ p h. refl;
}

init-fine_example : (init plain_x509 marshal unmarshal fine_run "data" no_files).0 ≡ []
init-fine_example =
    init-fine plain_x509 marshal unmarshal plain_x509-AreLawful total fine_run "data" all_work
      no_files is_free

is_initialized : (init plain_x509 marshal unmarshal fine_run "data" no_files).0 ≡ []
is_initialized =
    init-fine plain_x509 marshal unmarshal plain_x509-AreLawful total fine_run "data" all_work
      no_files is_free

init-Initialized_example :
    Initialized plain_x509 marshal unmarshal plain_x509-AreLawful readable fine_run "data" no_files
      (init plain_x509 marshal unmarshal fine_run "data" no_files).1
init-Initialized_example =
    init-Initialized plain_x509 marshal unmarshal plain_x509-AreLawful readable fine_run "data"
      no_files is_initialized

-- An old configuration is in the way of the last file.
abbrev old_admin : Files
old_admin path = if path == "data/admin.yaml" then some (file "old") else none

-- The texts of certificates and keys do not matter to what goes again.
abbrev same_x509 : X509 String Plain
same_x509 = record plain_x509 { encode_certificate = λ c. "PEM" }

fails :
    (e : Error) × (es : List Error) × ((init same_x509 marshal unmarshal fine_run "data"
        old_admin).0
      ≡ e ∷ es)
unfolding init dec_string join_path marshal
fails = (failure "file exists", [], refl)

init-Undone_example :
    Undone (pki_dir "data") old_admin (init same_x509 marshal unmarshal fine_run "data" old_admin).1
init-Undone_example =
    init-Undone same_x509 marshal unmarshal fine_run "data" old_admin
      (record {
        ca_crt = refl;
        ca_key = refl;
        server_crt = refl;
        server_key = refl;
        config = refl;
        ca_crt_later = refl;
        ca_key_later = refl;
        server_crt_later = refl;
        server_key_later = refl;
      })
      (λ h. ground (arith, fails.2))

-- The directory of the keys stays, and the one above it.
left_behind :
    ((init same_x509 marshal unmarshal fine_run "data" old_admin).1 "data/pki" ≡ some directory)
    × ((init same_x509 marshal unmarshal fine_run "data" old_admin).1 "data" ≡ some directory)
    × ((init same_x509 marshal unmarshal fine_run "data" old_admin).1 "data/pki/ca.crt" ≡ none)
unfolding init dec_string join_path marshal
left_behind = (refl, refl, refl)

-- Nothing that was made can be removed.
abbrev stuck_run : InitRun String
stuck_run = record fine_run { ca_removes = (false, false); server_removes = (false, false) }

init-Keeps_example :
    (init same_x509 marshal unmarshal stuck_run "data" old_admin).1 "data/admin.yaml"
    ≡ some (file "old")
unfolding dec_string
init-Keeps_example =
    init-Keeps same_x509 marshal unmarshal stuck_run "data" old_admin "data/admin.yaml" (file "old")
      refl
