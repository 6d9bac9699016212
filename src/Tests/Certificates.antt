-- ===== src/Tests/Certificates.antt =====
-- Certificates that keep what internal/pki reads of them, and their texts.
use Prim.Native.Char.{Char, code}
use Prim.Native.Nat.{ℕ, zero, suc}
use Prim.Native.String.{String}
use hambo.Base.{
  ◌+◌, ◌-◌, ◌%◌, ◌∷◌, [], Bool, true, false, Option, none, some, ◌≡◌, ◌≢◌, refl, ap, arith, nat_eq,
  if◌then◌else◌,
}
use hambo.Model.Node.{second}
use hambo.Pki.Authority.{X509}
use hambo.Pki.Authority.Loaded.{AreLawful}

-- As many copies of a character before a text.
put : Char → ℕ → String → String
put c zero s = s
put c (suc n) s = String.◌∷◌ c (put c n s)

tally : ℕ → String → ℕ
tally k String.[] = 0
tally k (String.◌∷◌ c s) = let rest = tally k s in if nat_eq (code c) k then suc rest else rest

tally-put : (c : Char) (n : ℕ) (s : String) → tally (code c) (put c n s) ≡ n + tally (code c) s
unfolding tally put
tally-put c zero s = omega arith
tally-put c (suc n) s = ground (arith, tally-put c n s)

tally-put_other :
    (k : ℕ) (c : Char) (n : ℕ) (s : String) → code c ≢ k → tally k (put c n s) ≡ tally k s
unfolding tally put
tally-put_other k c zero s differ = refl
tally-put_other k c (suc n) s differ = ground (arith, tally-put_other k c n s differ)

-- A certificate: its constraints, whether it is one of a CA, and its time.
pub record Plain : Type 0 where
  pub constraints_valid : Bool
  pub is_ca : Bool
  pub cert_sign : Bool
  pub not_before : ℕ
  pub not_after : ℕ

abbrev bit : Bool → ℕ
bit true = 1
bit false = 0

abbrev whole : ℕ → ℕ
whole t = t - t % second

pub encoded : Plain → String
unfolding put
encoded c = put "v" (bit c.constraints_valid) (
    put "c" (bit c.is_ca)
      (put "s" (bit c.cert_sign) (put "b" c.not_before (put "a" c.not_after "-"))))

pub read : String → Plain
unfolding tally
read s = record {
  constraints_valid = nat_eq (tally b'v' s) 1;
  is_ca = nat_eq (tally b'c' s) 1;
  cert_sign = nat_eq (tally b's' s) 1;
  not_before = tally b'b' s;
  not_after = tally b'a' s;
}

pub private_text : String → Option String
private_text String.[] = none
private_text (String.◌∷◌ c s) = some s

differs : (c : Char) (k : ℕ) → nat_eq (code c) k ≡ false → code c ≢ k
differs c k h e = ground arith

tally-encoded :
    (c : Plain)
    → (tally b'v' (encoded c) ≡ bit c.constraints_valid)
      × (tally b'c' (encoded c) ≡ bit c.is_ca)
      × (tally b's' (encoded c) ≡ bit c.cert_sign)
      × (tally b'b' (encoded c) ≡ c.not_before)
      × (tally b'a' (encoded c) ≡ c.not_after)
unfolding encoded tally
tally-encoded c =
    let s1 = put "a" c.not_after "-" in
    let s2 = put "b" c.not_before s1 in
    let s3 = put "s" (bit c.cert_sign) s2 in
    let s4 = put "c" (bit c.is_ca) s3 in
    (
      ground (
        arith,
        tally-put "v" (bit c.constraints_valid) s4,
        tally-put_other b'v' "c" (bit c.is_ca) s3 (differs "c" b'v' refl),
        tally-put_other b'v' "s" (bit c.cert_sign) s2 (differs "s" b'v' refl),
        tally-put_other b'v' "b" c.not_before s1 (differs "b" b'v' refl),
        tally-put_other b'v' "a" c.not_after "-" (differs "a" b'v' refl),
      ),
      ground (
        arith,
        tally-put_other b'c' "v" (bit c.constraints_valid) s4 (differs "v" b'c' refl),
        tally-put "c" (bit c.is_ca) s3,
        tally-put_other b'c' "s" (bit c.cert_sign) s2 (differs "s" b'c' refl),
        tally-put_other b'c' "b" c.not_before s1 (differs "b" b'c' refl),
        tally-put_other b'c' "a" c.not_after "-" (differs "a" b'c' refl),
      ),
      ground (
        arith,
        tally-put_other b's' "v" (bit c.constraints_valid) s4 (differs "v" b's' refl),
        tally-put_other b's' "c" (bit c.is_ca) s3 (differs "c" b's' refl),
        tally-put "s" (bit c.cert_sign) s2,
        tally-put_other b's' "b" c.not_before s1 (differs "b" b's' refl),
        tally-put_other b's' "a" c.not_after "-" (differs "a" b's' refl),
      ),
      ground (
        arith,
        tally-put_other b'b' "v" (bit c.constraints_valid) s4 (differs "v" b'b' refl),
        tally-put_other b'b' "c" (bit c.is_ca) s3 (differs "c" b'b' refl),
        tally-put_other b'b' "s" (bit c.cert_sign) s2 (differs "s" b'b' refl),
        tally-put "b" c.not_before s1,
        tally-put_other b'b' "a" c.not_after "-" (differs "a" b'b' refl),
      ),
      ground (
        arith,
        tally-put_other b'a' "v" (bit c.constraints_valid) s4 (differs "v" b'a' refl),
        tally-put_other b'a' "c" (bit c.is_ca) s3 (differs "c" b'a' refl),
        tally-put_other b'a' "s" (bit c.cert_sign) s2 (differs "s" b'a' refl),
        tally-put_other b'a' "b" c.not_before s1 (differs "b" b'a' refl),
        tally-put "a" c.not_after "-",
      ),
    )

same_bit : (b : Bool) (n : ℕ) → n ≡ bit b → nat_eq n 1 ≡ b
same_bit true n h = ground arith
same_bit false n h = ground arith

read-encoded : (c : Plain) → read (encoded c) ≡ c
unfolding read
read-encoded c =
    let (v, a, b, d, e) = tally-encoded c in
    ground (
      arith,
      same_bit c.constraints_valid (tally b'v' (encoded c)) v,
      same_bit c.is_ca (tally b'c' (encoded c)) a,
      same_bit c.cert_sign (tally b's' (encoded c)) b,
    )

-- A key is a text, and its PEM that text after a letter. Five years are one second.
abbrev pub plain_x509 : X509 String Plain
plain_x509 = record {
  create = λ t key issuer. some (record {
    constraints_valid = t.constraints_valid;
    is_ca = t.is_ca;
    cert_sign = t.cert_sign;
    not_before = whole t.not_before;
    not_after = whole t.not_after;
  });
  describe = λ c. record {
    common_name = "";
    organization = [];
    not_before = c.not_before;
    not_after = c.not_after;
    constraints_valid = c.constraints_valid;
    is_ca = c.is_ca;
    cert_sign = c.cert_sign;
    server_auth = false;
    dns_names = [];
    ip_addresses = [];
  };
  encode_certificate = encoded;
  encode_key = λ key. some (String.◌∷◌ "K" key);
  load_pair = λ crt key. some (read crt, private_text key);
  five_years_on = λ now. now + second;
  key_size = λ key. 64;
  create_request = λ key. some (1 ∷ []);
}

pub plain_x509-AreLawful : AreLawful plain_x509
unfolding private_text
plain_x509-AreLawful = record {
  says = λ t key issuer c h. record {
    valid = ground arith;
    ca = ground arith;
    sign = ground arith;
    before = ground arith;
    after = ground arith;
  };
  loads = λ t key issuer c pem h k. ground (arith, read-encoded c);
  later = λ now. omega arith;
}

-- No certificate has an empty text.
pub encoded-some : (c : Plain) → encoded c ≢ ""
unfolding encoded tally
encoded-some c h =
    let s1 = put "a" c.not_after "-" in
    let s2 = put "b" c.not_before s1 in
    let s3 = put "s" (bit c.cert_sign) s2 in
    let s4 = put "c" (bit c.is_ca) s3 in
    absurd (
      ground (
        arith,
        ap (tally b'-') h,
        tally-put_other b'-' "v" (bit c.constraints_valid) s4 (differs "v" b'-' refl),
        tally-put_other b'-' "c" (bit c.is_ca) s3 (differs "c" b'-' refl),
        tally-put_other b'-' "s" (bit c.cert_sign) s2 (differs "s" b'-' refl),
        tally-put_other b'-' "b" c.not_before s1 (differs "b" b'-' refl),
        tally-put_other b'-' "a" c.not_after "-" (differs "a" b'-' refl),
      ))
