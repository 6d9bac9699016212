-- ===== src/Pki/Save/Within.antt =====
-- A saved certificate that goes again when what follows fails, as in cmd/hambo-server/init.go.
use hambo.Base.{
  String, Bool, true, [], Option, none, some, ◌≡◌, ◌≢◌, arith, inl, inr, dec_string, ◌⊎◌, sym, ap,
  ◌∙◌,
}
use hambo.Files.Dirs.{StaysAt, StaysAt-trans, mkdir_all-Keeps, mkdir_all-none}
use hambo.Files.{Entry, Files, dirs_to, mkdir_all, Outcome, then_remove, go_on, on_error}
use hambo.Files.Calls.{
  then_remove-other, then_remove-gone, then_remove-fails, go_on-cases, on_error-cases,
}
use hambo.Pki.{Credentials}
use hambo.Pki.Save.{SaveCalls, save_certificate, remove_certificate, crt_path, key_path}
use hambo.Pki.Save.Undone.{Written, key_path-crt_path}
use hambo.Pki.Save.Whole.{
  save_certificate-Written, save_certificate-Keeps, save_certificate-StaysAt,
  save_certificate-others,
}

remove_certificate-other :
    (removes : Bool × Bool) (dir name p : String) (before : Outcome)
    → p ≢ crt_path dir name
    → p ≢ key_path dir name
    → (remove_certificate removes dir name before).1 p ≡ before.1 p
unfolding remove_certificate
remove_certificate-other (crt, key) dir name p before no_crt no_key = ground (
  arith,
  then_remove-other key (key_path dir name) p (then_remove crt (crt_path dir name) before) no_key,
  then_remove-other crt (crt_path dir name) p before no_crt,
)

remove_certificate-gone :
    (removes : Bool × Bool) (dir name : String) (before : Outcome)
    → removes.0 ≡ true
    → removes.1 ≡ true
    → ((remove_certificate removes dir name before).1 (crt_path dir name) ≡ none)
      × ((remove_certificate removes dir name before).1 (key_path dir name) ≡ none)
unfolding remove_certificate
remove_certificate-gone (crt, key) dir name before c k =
    let first : Outcome = then_remove crt (crt_path dir name) before in
    (
      ground (
        arith,
        then_remove-other key (key_path dir name) (crt_path dir name) first
            (λ q. key_path-crt_path dir name (sym q)),
        then_remove-gone crt (crt_path dir name) before c,
      ),
      then_remove-gone key (key_path dir name) first k,
    )

remove_certificate-fails :
    (removes : Bool × Bool) (dir name : String) (before : Outcome)
    → before.0 ≢ []
    → (remove_certificate removes dir name before).0 ≢ []
unfolding remove_certificate
remove_certificate-fails (crt, key) dir name before failed =
    then_remove-fails key (key_path dir name) (then_remove crt (crt_path dir name) before)
      (then_remove-fails crt (crt_path dir name) before failed)

module _ {K C : Type 0} (encode_certificate : C → String) (encode_key : K → Option String)
    (calls : SaveCalls) (removes : Bool × Bool) (dir name : String) (c : Credentials K C)
    (files : Files) (rest : Files → Outcome) where
  abbrev saved : Outcome
  saved = save_certificate encode_certificate encode_key calls dir name c files

  abbrev kept : Files → Outcome
  kept f = on_error (remove_certificate removes dir name) (rest f)

  abbrev pub within : Outcome
  within = go_on saved kept

  within-cases :
      ((saved.0 ≢ []) × (within ≡ saved))
      ⊎ ((saved.0 ≡ []) × ((rest saved.1).0 ≡ []) × (within ≡ rest saved.1))
      ⊎ ((saved.0 ≡ [])
          × ((rest saved.1).0 ≢ [])
          × (within ≡ remove_certificate removes dir name (rest saved.1)))
  within-cases = elim (go_on-cases saved kept) [
    | inr (failed, is) ↦ inl (failed, is)
    | inl (fine, is) ↦ elim (on_error-cases (remove_certificate removes dir name) (rest saved.1)) [
      | inl (good, same) ↦ inr (inl (fine, good, is ∙ same))
      | inr (bad, same) ↦ inr (inr (fine, bad, is ∙ same))
    ]
  ]

  -- Without an error, both succeeded.
  pub within-ok :
      within.0 ≡ [] → (saved.0 ≡ []) × ((rest saved.1).0 ≡ []) × (within.1 ≡ (rest saved.1).1)
  within-ok h = elim within-cases [
    | inl (failed, is) ↦ absurd (failed (ap (λ x. x.0) (sym is) ∙ h))
    | inr (inl (fine, good, is)) ↦ (fine, good, ap (λ x. x.1) is)
    | inr (inr (fine, bad, is)) ↦
        absurd (
          remove_certificate-fails removes dir name (rest saved.1) bad (ap (λ x. x.0) (sym is) ∙ h))
  ]

  saved-Written :
      saved.0 ≡ []
      → (crt_pem : String) × (key_pem : String) × Written
          (crt_path dir name)
          (key_path dir name)
          crt_pem
          key_pem
          (mkdir_all calls.makes_dir dir files).1
          saved.1
  saved-Written fine =
      let w = save_certificate-Written encode_certificate encode_key calls dir name c files fine in
      (encode_certificate c.certificate, w.0, w.2)

  -- What was there before stays, if the rest keeps all that it finds.
  pub within-Keeps :
      ((f : Files) (p : String) (content : Entry)
        → f p ≡ some content
        → (rest f).1 p ≡ some content)
      → (p : String) (content : Entry) → files p ≡ some content
      → within.1 p ≡ some content
  within-Keeps keeps p content h =
      let first =
        save_certificate-Keeps encode_certificate encode_key calls dir name c files p content h in
      let there = mkdir_all-Keeps calls.makes_dir dir files p content h in
      elim within-cases [
        | inl (failed, is) ↦ ap (λ x. x.1 p) is ∙ first
        | inr (inl (fine, good, is)) ↦ ap (λ x. x.1 p) is ∙ keeps saved.1 p content first
        | inr (inr (fine, bad, is)) ↦
            let w = (saved-Written fine).2 in
            ap (λ x. x.1 p) is
            ∙ remove_certificate-other removes dir name p (rest saved.1)
                (λ e. absurd (ground (arith, w.new_crt, there)))
                (λ e. absurd (ground (arith, w.new_key, there)))
            ∙ keeps saved.1 p content first
      ]

  -- None of the two files was there before a save that succeeded.
  pub fresh : saved.0 ≡ [] → (files (crt_path dir name) ≡ none) × (files (key_path dir name) ≡ none)
  fresh fine =
      let w = (saved-Written fine).2 in
      (
        mkdir_all-none calls.makes_dir dir files (crt_path dir name) w.new_crt,
        mkdir_all-none calls.makes_dir dir files (key_path dir name) w.new_key,
      )

  -- After an error all is what it was, but for directories that were made, if the files that were
  -- made can be removed, and the rest undoes what it did.
  pub within-StaysAt :
      calls.crt.removes ≡ true
      → calls.key.removes ≡ true
      → removes.0 ≡ true
      → removes.1 ≡ true
      → ((f : Files)
          → (rest f).0 ≢ []
          → (p : String) → StaysAt (dirs_to dir) p (f p) ((rest f).1 p))
      → within.0 ≢ []
      → (p : String) → StaysAt (dirs_to dir) p (files p) (within.1 p)
  within-StaysAt a b r s undone failed p = elim within-cases [
    | inl (bad, is) ↦
        StaysAt-trans (dirs_to dir) p (files p) (saved.1 p) (within.1 p)
          (save_certificate-StaysAt encode_certificate encode_key calls dir name c files a b bad p)
          (inl (ap (λ x. x.1 p) is))
    | inr (inl (fine, good, is)) ↦ absurd (failed (ap (λ x. x.0) is ∙ good))
    | inr (inr (fine, bad, is)) ↦
        let new = fresh fine in
        let gone = remove_certificate-gone removes dir name (rest saved.1) r s in
        elim (dec_string p (crt_path dir name)) [
          | yes e ↦ inl (ap (λ x. x.1 p) is ∙ ground (arith, gone.0, new.0))
          | no no_crt ↦ elim (dec_string p (key_path dir name)) [
            | yes e ↦ inl (ap (λ x. x.1 p) is ∙ ground (arith, gone.1, new.1))
            | no no_key ↦
                StaysAt-trans (dirs_to dir) p (files p) (saved.1 p) (within.1 p)
                  (save_certificate-others encode_certificate encode_key calls dir name c files fine
                    p no_crt no_key)
                  (StaysAt-trans (dirs_to dir) p (saved.1 p) ((rest saved.1).1 p) (within.1 p)
                    (undone saved.1 bad p)
                    (inl (
                      ap (λ x. x.1 p) is
                      ∙ remove_certificate-other removes dir name p (rest saved.1) no_crt no_key)))
          ]
        ]
  ]

  pub within-fine : saved.0 ≡ [] → (rest saved.1).0 ≡ [] → within.0 ≡ []
  within-fine fine good = elim within-cases [
    | inl (failed, is) ↦ absurd (failed fine)
    | inr (inl (f, g, is)) ↦ ap (λ x. x.0) is ∙ g
    | inr (inr (f, bad, is)) ↦ absurd (bad good)
  ]
