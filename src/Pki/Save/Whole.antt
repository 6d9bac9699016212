-- ===== src/Pki/Save/Whole.antt =====
-- A certificate's save as a whole (internal/pki/save.go): the directory, and then the two files.
use Prim.Native.String.{String}
use hambo.Base.{
  true, [], ◌<>◌, Option, none, some, ◌≡◌, ◌≢◌, arith, Option-cases, inl, inr, subst, ap, sym, ◌∙◌,
}
use hambo.Files.{Entry, Files, go_on, mkdir_all, dirs_to, Outcome, open_new, write_new}
use hambo.Files.Calls.{Works, go_on-cases}
use hambo.Files.Dirs.{
  StaysAt, StaysAt-trans, mkdir_all-StaysAt, mkdir_all-Keeps, mkdir_all-other, mkdir_all-fine,
  no_file,
}
use hambo.Base.Names
use hambo.Files.Paths.{join_path-below}
use hambo.Pki.{Credentials}
use hambo.Pki.Save.{
  SaveCalls, save_key, clean_up, save_pair, save_files, save_certificate, crt_path, key_path,
}
use hambo.Pki.Save.Undone.{
  key_path-crt_path, Written, save_files-Written, save_files-Keeps, save_files-Same,
}

module _ {K C : Type 0} (encode_certificate : C → String) (encode_key : K → Option String)
    (calls : SaveCalls) (dir name : String) (c : Credentials K C) (files : Files) where
  abbrev saved : Outcome
  saved = save_certificate encode_certificate encode_key calls dir name c files

  -- The files once the directory was made.
  abbrev pub made : Outcome
  made = mkdir_all calls.makes_dir dir files

  abbrev pair_of : String → Files → Outcome
  pair_of key_pem =
      save_files calls (crt_path dir name) (key_path dir name) (encode_certificate c.certificate)
        key_pem

  saved-pair :
      (key_pem : String)
      → encode_key c.private_key ≡ some key_pem
      → saved ≡ go_on made (pair_of key_pem)
  unfolding save_certificate
  saved-pair key_pem e = ground arith

  -- Without an error the certificate and the key are in two new files, and nothing else was made
  -- after the directory.
  pub save_certificate-Written :
      saved.0 ≡ []
      → (key_pem : String) × (encode_key c.private_key ≡ some key_pem)
        × Written
            (crt_path dir name)
            (key_path dir name)
            (encode_certificate c.certificate)
            key_pem
            made.1
            saved.1
  unfolding save_certificate
  save_certificate-Written h = elim (Option-cases (encode_key c.private_key)) [
    | inl e ↦ absurd (ground arith)
    | inr (key_pem, e) ↦ elim (go_on-cases made (pair_of key_pem)) [
      | inr (bad, is) ↦ absurd (bad (ap (λ x. x.0) (sym (saved-pair key_pem e ∙ is)) ∙ h))
      | inl (good, is) ↦
          let all = saved-pair key_pem e ∙ is in
          (
            key_pem,
            e,
            subst
                (λ x.
                  Written (crt_path dir name) (key_path dir name) (encode_certificate c.certificate)
                    key_pem made.1 x.1)
                (sym all)
                (save_files-Written calls (crt_path dir name) (key_path dir name)
                  (encode_certificate c.certificate) key_pem (key_path-crt_path dir name) made.1
                  (ap (λ x. x.0) (sym all) ∙ h)),
          )
    ]
  ]

  pub save_certificate-Keeps :
      (p : String) (content : Entry) → files p ≡ some content → saved.1 p ≡ some content
  unfolding save_certificate
  save_certificate-Keeps p content h = elim (Option-cases (encode_key c.private_key)) [
    | inl e ↦ ground arith
    | inr (key_pem, e) ↦
        let kept = mkdir_all-Keeps calls.makes_dir dir files p content h in
        elim (go_on-cases made (pair_of key_pem)) [
          | inr (bad, is) ↦ ap (λ x. x.1 p) (saved-pair key_pem e ∙ is) ∙ kept
          | inl (good, is) ↦
              ap (λ x. x.1 p) (saved-pair key_pem e ∙ is)
              ∙ save_files-Keeps calls (crt_path dir name) (key_path dir name)
                  (encode_certificate c.certificate) key_pem (key_path-crt_path dir name) made.1 p
                  content kept
        ]
  ]

  -- What was not there before is not there after a save, if it is nothing that the save makes.
  pub save_certificate-others :
      saved.0 ≡ []
      → (p : String) → p ≢ crt_path dir name
      → p ≢ key_path dir name
      → StaysAt (dirs_to dir) p (files p) (saved.1 p)
  save_certificate-others h p no_crt no_key =
      StaysAt-trans (dirs_to dir) p (files p) (made.1 p) (saved.1 p)
        (mkdir_all-StaysAt calls.makes_dir dir files p)
        (inl ((save_certificate-Written h).2.others p no_crt no_key))

  -- After an error, all is as it was but for directories that were made, if the files that were made
  -- can be removed.
  pub save_certificate-StaysAt :
      calls.crt.removes ≡ true
      → calls.key.removes ≡ true
      → saved.0 ≢ []
      → (p : String) → StaysAt (dirs_to dir) p (files p) (saved.1 p)
  unfolding save_certificate
  save_certificate-StaysAt r s failed p = elim (Option-cases (encode_key c.private_key)) [
    | inl e ↦ inl (ground arith)
    | inr (key_pem, e) ↦
        StaysAt-trans (dirs_to dir) p (files p) (made.1 p) (saved.1 p)
          (mkdir_all-StaysAt calls.makes_dir dir files p)
          (elim (go_on-cases made (pair_of key_pem)) [
            | inr (bad, is) ↦ inl (ap (λ x. x.1 p) (saved-pair key_pem e ∙ is))
            | inl (good, is) ↦
                let all = saved-pair key_pem e ∙ is in
                inl (
                  ap (λ x. x.1 p) all
                  ∙ save_files-Same calls (crt_path dir name) (key_path dir name)
                      (encode_certificate c.certificate) key_pem (key_path-crt_path dir name) made.1
                      r s (λ z. failed (ap (λ x. x.0) all ∙ z)) p)
          ])
  ]

  pair_of-fine :
      (key_pem : String)
      → Works calls.crt
      → Works calls.key
      → made.1 (crt_path dir name) ≡ none
      → made.1 (key_path dir name) ≡ none
      → (pair_of key_pem made.1).0 ≡ []
  unfolding save_files save_pair save_key clean_up open_new write_new
  pair_of-fine key_pem crt key no_crt no_key = ground (
    arith,
    key_path-crt_path dir name,
    crt.opens,
    crt.writes,
    crt.closes,
    key.opens,
    key.writes,
    key.closes,
  )

  -- Where the calls succeed, neither file is there, and no file is where a directory must be, the
  -- save succeeds.
  pub save_certificate-fine :
      encode_key c.private_key ≢ none
      → ((p : String) → calls.makes_dir p ≡ true)
      → ((p : String) → Names.contains (dirs_to dir) p ≡ true → no_file (files p) ≡ true)
      → Works calls.crt
      → Works calls.key
      → files (crt_path dir name) ≡ none
      → files (key_path dir name) ≡ none
      → saved.0 ≡ []
  unfolding crt_path key_path
  save_certificate-fine some_key m free crt key no_crt no_key =
      elim (Option-cases (encode_key c.private_key)) [
        | inl e ↦ absurd (some_key e)
        | inr (pem, e) ↦ elim (go_on-cases made (pair_of pem)) [
          | inr (bad, is) ↦ absurd (bad (mkdir_all-fine calls.makes_dir dir files m free))
          | inl (good, is) ↦
              ap (λ x. x.0) (saved-pair pem e ∙ is)
              ∙ pair_of-fine pem crt key
                  (mkdir_all-other calls.makes_dir dir files (crt_path dir name)
                      (join_path-below dir (name <> ".crt"))
                    ∙ no_crt)
                  (mkdir_all-other calls.makes_dir dir files (key_path dir name)
                      (join_path-below dir (name <> ".key"))
                    ∙ no_key)
        ]
      ]
