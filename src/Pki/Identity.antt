-- ===== src/Pki/Identity.antt =====
-- What a certificate issued by internal/pki says to internal/api/middleware.go.
use Prim.Native.Char.{code}
use Prim.Native.String.{String}
use text.Mathlib.TextLemmas.{nil-append, cons-append}
use hambo.Base.{
  ℕ, ◌≤◌, ◌<◌, ◌<>◌, true, false, List, [], ◌∷◌, ◌≡◌, ◌≢◌, refl, arith, Option, some, ok, nat_eq,
  Option-cases, Result-cases, inl, inr, dec_string,
}
use hambo.Base.Text.{cut_prefix}
use hambo.Pki.{
  Template, Ca, Csr, node_template, check_time, issue_node_certificate, check_node_id, check_signed,
}

nat_eq_refl : (n : ℕ) → nat_eq n n ≡ true
nat_eq_refl n = ground arith

pub cut_prefix-append : (p s : String) → cut_prefix (p <> s) p ≡ some s
unfolding cut_prefix
cut_prefix-append String.[] s = rw nil-append refl
cut_prefix-append (String.◌∷◌ c p) s =
    rw (cons-append c p s, cut_prefix, nat_eq_refl (code c)) (cut_prefix-append p s)

-- The certificate is that of the node: the middleware finds the node's ID in its name, its group
-- is that of the nodes, it is valid now, and never outside the time of the CA.
pub record IsOf (ca : Ca) (now : ℕ) (node_id : String) (t : Template) : Type 0 where
  pub named : cut_prefix t.common_name "hambo:node:" ≡ some node_id
  pub grouped : t.organization ≡ "hambo:nodes" ∷ []
  pub no_ca : t.is_ca ≡ false
  pub no_cert_sign : t.cert_sign ≡ false
  pub begun : t.not_before ≤ now
  pub not_over : now < t.not_after
  pub after_ca : ca.not_before ≤ t.not_before
  pub before_ca : t.not_after ≤ ca.not_after

node_template-IsOf :
    (ca : Ca) (now : ℕ) (node_id : String)
    → check_time ca now ≡ ok tt
    → IsOf ca now node_id (node_template ca now node_id)
unfolding node_template check_time
node_template-IsOf ca now node_id h = record {
  named = cut_prefix-append "hambo:node:" node_id;
  grouped = refl;
  no_ca = refl;
  no_cert_sign = refl;
  begun = ground arith;
  not_over = ground arith;
  after_ca = ground arith;
  before_ca = ground arith;
}

module _ {K C : Type 0} (parse_csr : List ℕ → Option (Csr K)) (sign : Template → K → Option C)
    (generate_key : Option K) where
  pub record Issued (ca : Ca) (now : ℕ) (node_id : String) (der : List ℕ) (cert : C) : Type 0 where
    pub key : K
    pub some_id : node_id ≢ ""
    pub requested : parse_csr der ≡ some (record { public_key = some key; signed = true })
    pub signed : sign (node_template ca now node_id) key ≡ some cert
    pub is_of : IsOf ca now node_id (node_template ca now node_id)

  -- If a certificate is issued for a node, then the node's ID is not empty, the request holds an
  -- Ed25519 key and its signature was verified, the certificate was signed for that key, the
  -- middleware reads the node's ID back from its name, its one group is that of the nodes, it is no
  -- CA, it is valid now, and never outside the time of the CA.
  pub issue_node_certificate-Issued :
      (ca : Ca) (now : ℕ) (node_id : String) (der : List ℕ) (cert : C)
      → issue_node_certificate parse_csr sign generate_key ca now node_id der ≡ ok cert
      → Issued ca now node_id der cert
  unfolding issue_node_certificate check_node_id check_signed
  issue_node_certificate-Issued ca now node_id der cert h = elim (dec_string node_id "") [
    | yes e ↦ absurd (ground arith)
    | no ne ↦ elim (Result-cases (check_time ca now)) [
      | inr (x, p) ↦ absurd (ground arith)
      | inl (u, p) ↦ elim (Option-cases (parse_csr der)) [
        | inl q ↦ absurd (ground arith)
        | inr (r, q) ↦ elim (Option-cases r.public_key) [
          | inl k ↦ absurd (ground arith)
          | inr (key, k) ↦ record {
            key = key;
            some_id = ne;
            requested = ground arith;
            signed = ground arith;
            is_of = node_template-IsOf ca now node_id p;
          }
        ]
      ]
    ]
  ]
