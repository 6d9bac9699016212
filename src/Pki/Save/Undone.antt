-- ===== src/Pki/Save/Undone.antt =====
-- `saveCertificate` of internal/pki/save.go as a whole: all, or nothing.
use Prim.Native.String.{String}
use text.Mathlib.TextLemmas.{append_cancel_left}
use hambo.Base.{
  true, [], ◌<>◌, none, some, ◌≡◌, ◌≢◌, refl, arith, Result-cases, inl, inr, dec_string, differ,
}
use hambo.Files.{Entry, file, Files, Outcome, open_new}
use hambo.Files.Calls.{Same, open_new-ok}
use hambo.Files.Paths.{join_path-names}
use hambo.Pki.Save.{SaveCalls, save_files, crt_path, key_path}
use hambo.Pki.Save.Pair.{pair-other, pair-key, pair-crt, pair-undone_key, pair-saved}

pub key_path-crt_path : (dir name : String) → key_path dir name ≢ crt_path dir name
unfolding key_path crt_path
key_path-crt_path dir name = join_path-names dir (name <> ".key") (name <> ".crt") (λ h.
    differ ".key" ".crt" (unfold dec_string in refl) (append_cancel_left name ".key" ".crt" h))

-- What a save that succeeded did: it made both files, which were not there, and nothing else.
pub record Written (crt key crt_pem key_pem : String) (files files' : Files) : Type 0 where
  pub new_crt : files crt ≡ none
  pub new_key : files key ≡ none
  pub has_crt : files' crt ≡ some (file crt_pem)
  pub has_key : files' key ≡ some (file key_pem)
  pub others : (p : String) → p ≢ crt → p ≢ key → files' p ≡ files p

module _ (calls : SaveCalls) (crt key crt_pem key_pem : String) (apart : key ≢ crt)
    (files : Files) where
  abbrev after : Outcome
  after = save_files calls crt key crt_pem key_pem files

  pub save_files-Written : after.0 ≡ [] → Written crt key crt_pem key_pem files after.1
  unfolding save_files
  save_files-Written h = elim (Result-cases (open_new calls.crt.opens crt files)) [
    | inr (e, p) ↦ absurd (ground arith)
    | inl (opened, p) ↦
        let made = open_new-ok calls.crt.opens crt files opened p in
        let both = pair-saved calls crt key crt_pem key_pem apart opened (ground arith) in
        record {
          new_crt = made.0;
          new_key = ground (arith, both.0, made.1);
          has_crt = ground (arith, both.1);
          has_key = ground (arith, both.2);
          others = λ q no_crt no_key. ground (
            arith,
            pair-other calls crt key crt_pem key_pem apart opened q no_crt no_key,
            made.1,
          );
        }
  ]

  -- A file that was there before stays as it was, whatever fails.
  pub save_files-Keeps :
      (p : String) (content : Entry) → files p ≡ some content → after.1 p ≡ some content
  unfolding save_files
  save_files-Keeps p content h = elim (Result-cases (open_new calls.crt.opens crt files)) [
    | inr (e, q) ↦ ground arith
    | inl (opened, q) ↦
        let made = open_new-ok calls.crt.opens crt files opened q in
        elim (dec_string p crt) [
          | yes e ↦ absurd (ground (arith, made.0))
          | no no_crt ↦ elim (dec_string p key) [
            | yes e ↦
                ground (arith, made.1, pair-key calls crt key crt_pem key_pem apart opened content)
            | no no_key ↦ ground (
              arith,
              made.1,
              pair-other calls crt key crt_pem key_pem apart opened p no_crt no_key,
            )
          ]
        ]
  ]

  pub save_files-Same :
      calls.crt.removes ≡ true → calls.key.removes ≡ true → after.0 ≢ [] → Same files after.1
  unfolding save_files
  save_files-Same r s failed p = elim (Result-cases (open_new calls.crt.opens crt files)) [
    | inr (e, q) ↦ ground arith
    | inl (opened, q) ↦
        let made = open_new-ok calls.crt.opens crt files opened q in
        elim (dec_string p crt) [
          | yes e ↦ ground (
            arith,
            made.0,
            pair-crt calls crt key crt_pem key_pem apart opened (λ z. ground arith) r,
          )
          | no no_crt ↦ elim (dec_string p key) [
            | yes e ↦ ground (
              arith,
              made.1,
              pair-undone_key calls crt key crt_pem key_pem apart opened (λ z. ground arith) s,
            )
            | no no_key ↦ ground (
              arith,
              made.1,
              pair-other calls crt key crt_pem key_pem apart opened p no_crt no_key,
            )
          ]
        ]
  ]
