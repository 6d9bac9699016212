-- ===== src/Pki/Authority/Loaded.antt =====
-- A CA of internal/pki that was made, saved and loaded again.
use hambo.Base.{
  ℕ, ◌+◌, ◌-◌, ◌%◌, ◌≤◌, String, true, [], Option, none, some, ok, ◌≡◌, arith, Option-cases, inl,
  inr,
}
use hambo.Model.Node.{second}
use hambo.Files.{Files}
use hambo.Pki.{Template, Credentials, check_time}
use hambo.Pki.Save.{SaveCalls, save_certificate}
use hambo.Pki.Save.Whole.{save_certificate-Written}
use hambo.Pki.Authority.{X509, ca_template, generate_ca, check_ca, load_ca, time_of}

-- A parsed certificate says what its template set, with its times in whole seconds.
pub record Says (t d : Template) : Type 0 where
  pub valid : d.constraints_valid ≡ t.constraints_valid
  pub ca : d.is_ca ≡ t.is_ca
  pub sign : d.cert_sign ≡ t.cert_sign
  pub before : d.not_before ≡ t.not_before - t.not_before % second
  pub after : d.not_after ≡ t.not_after - t.not_after % second

-- What crypto/x509 and crypto/tls document: a certificate that was created can be read again, and
-- with the key that it was created for.
pub record AreLawful {K C : Type 0} (x509 : X509 K C) : Type 0 where
  pub says :
      (t : Template) (key issuer : K) (c : C)
      → x509.create t key issuer ≡ some c
      → Says t (x509.describe c)
  pub loads :
      (t : Template) (key issuer : K) (c : C) (pem : String)
      → x509.create t key issuer ≡ some c
      → x509.encode_key key ≡ some pem
      → x509.load_pair (x509.encode_certificate c) pem ≡ some (c, some key)
  pub later : (now : ℕ) → now + second ≤ x509.five_years_on now

module _ {K C : Type 0} (x509 : X509 K C) (laws : AreLawful x509) where
  pub generate_ca-created :
      (generated : Option K) (now : ℕ) (ca : Credentials K C)
      → generate_ca x509 generated now ≡ ok ca
      → x509.create (ca_template x509 now) ca.private_key ca.private_key ≡ some ca.certificate
  unfolding generate_ca
  generate_ca-created none now ca h = absurd (ground arith)
  generate_ca-created (some key) now ca h =
      elim (Option-cases (x509.create (ca_template x509 now) key key)) [
        | inl e ↦ absurd (ground arith)
        | inr (c, e) ↦ ground arith
      ]

  -- A CA that was made now can issue now.
  pub generate_ca-check_time :
      (generated : Option K) (now : ℕ) (ca : Credentials K C)
      → generate_ca x509 generated now ≡ ok ca
      → check_time (time_of x509 ca) now ≡ ok tt
  unfolding check_time time_of ca_template
  generate_ca-check_time generated now ca h =
      let s =
        laws.says (ca_template x509 now) ca.private_key ca.private_key ca.certificate
          (generate_ca-created generated now ca h) in
      ground (arith, s.before, s.after, laws.later now)

  -- If a CA was made and its save succeeded, then what was saved is loaded as the same certificate
  -- and key from the directory, as long as the files can be read.
  pub load_ca-generate_ca :
      (generated : Option K) (now : ℕ) (ca : Credentials K C) (calls : SaveCalls) (dir : String)
      (files : Files)
      → generate_ca x509 generated now ≡ ok ca
      → (save_certificate x509.encode_certificate x509.encode_key calls dir "ca" ca files).0 ≡ []
      → load_ca x509 true dir
          (save_certificate x509.encode_certificate x509.encode_key calls dir "ca" ca files).1
        ≡ ok ca
  unfolding load_ca check_ca ca_template
  load_ca-generate_ca generated now ca calls dir files h fine =
      let made = generate_ca-created generated now ca h in
      let w =
        save_certificate-Written x509.encode_certificate x509.encode_key calls dir "ca" ca files
          fine in
      let s = laws.says (ca_template x509 now) ca.private_key ca.private_key ca.certificate made in
      ground (
        arith,
        w.2.has_crt,
        w.2.has_key,
        laws.loads (ca_template x509 now) ca.private_key ca.private_key ca.certificate w.0 made w.1,
        s.valid,
        s.ca,
        s.sign,
      )
