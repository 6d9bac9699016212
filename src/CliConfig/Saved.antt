-- ===== src/CliConfig/Saved.antt =====
-- `Save` and `Load` of internal/cliconfig together.
use hambo.Base.{
  String, true, [], ◌∷◌, Option, none, some, ◌≡◌, ◌≢◌, refl, arith, Option-cases, Result-cases, inl,
  inr, dec_string,
}
use hambo.Files.{Entry, file, Files, NewFile, Outcome, open_new, write_new}
use hambo.Files.Calls.{
  Same, Works, open_new-ok, write_new-other, write_new-ok, then_remove-other, then_remove-gone,
  then_remove-fails,
}
use hambo.CliConfig.{Config, clean_up, save}

module _ (calls : NewFile) (path : String) where
  clean_up-other :
      (before : Outcome) (p : String) → p ≢ path → (clean_up calls path before).1 p ≡ before.1 p
  unfolding clean_up
  clean_up-other ([], files) p differ = refl
  clean_up-other (e ∷ es, files) p differ =
      then_remove-other calls.removes path p (e ∷ es, files) differ

  clean_up-gone :
      (before : Outcome)
      → calls.removes ≡ true
      → (clean_up calls path before).0 ≢ []
      → (clean_up calls path before).1 path ≡ none
  unfolding clean_up
  clean_up-gone ([], files) r failed = absurd (failed refl)
  clean_up-gone (e ∷ es, files) r failed = then_remove-gone calls.removes path (e ∷ es, files) r

  clean_up-ok :
      (before : Outcome)
      → (clean_up calls path before).0 ≡ []
      → (before.0 ≡ []) × ((clean_up calls path before).1 ≡ before.1)
  unfolding clean_up
  clean_up-ok ([], files) h = (refl, refl)
  clean_up-ok (e ∷ es, files) h =
      absurd (then_remove-fails calls.removes path (e ∷ es, files) (λ q. ground arith) h)

module _ (marshal : Config → Option String) (unmarshal : String → Option Config) (calls : NewFile)
    (path : String) (cfg : Config) (files : Files) where
  abbrev saved : Outcome
  saved = save marshal unmarshal calls path cfg files

  -- What a save that succeeded did.
  pub record Written (text : String) : Type 0 where
    pub encoded : marshal cfg ≡ some text
    pub new : files path ≡ none
    pub has : saved.1 path ≡ some (file text)
    pub others : (p : String) → p ≢ path → saved.1 p ≡ files p

  pub save-Written : saved.0 ≡ [] → (text : String) × Written text
  unfolding save
  save-Written h = elim (Option-cases (marshal cfg)) [
    | inl e ↦ absurd (ground arith)
    | inr (text, e) ↦ elim (Result-cases (open_new calls.opens path files)) [
      | inr (x, p) ↦ absurd (ground arith)
      | inl (opened, p) ↦
          let made = open_new-ok calls.opens path files opened p in
          let kept = clean_up-ok calls path (write_new calls path text opened) (ground arith) in
          (
            text,
            record {
              encoded = e;
              new = made.0;
              has = ground (arith, write_new-ok calls path text opened kept.0, kept.1);
              others = λ q differ.
                  ground (arith, write_new-other calls path text q opened differ, kept.1, made.1);
            },
          )
    ]
  ]

  pub save-Keeps :
      (p : String) (content : Entry) → files p ≡ some content → saved.1 p ≡ some content
  unfolding save
  save-Keeps p content h = elim (Option-cases (marshal cfg)) [
    | inl e ↦ ground arith
    | inr (text, e) ↦ elim (Result-cases (open_new calls.opens path files)) [
      | inr (x, q) ↦ ground arith
      | inl (opened, q) ↦
          let made = open_new-ok calls.opens path files opened q in
          elim (dec_string p path) [
            | yes same ↦ absurd (ground (arith, made.0))
            | no differ ↦ ground (
              arith,
              made.1,
              clean_up-other calls path (write_new calls path text opened) p differ,
              write_new-other calls path text p opened differ,
            )
          ]
    ]
  ]

  pub save-Same : calls.removes ≡ true → saved.0 ≢ [] → Same files saved.1
  unfolding save
  save-Same r failed p = elim (Option-cases (marshal cfg)) [
    | inl e ↦ ground arith
    | inr (text, e) ↦ elim (Result-cases (open_new calls.opens path files)) [
      | inr (x, q) ↦ ground arith
      | inl (opened, q) ↦
          let made = open_new-ok calls.opens path files opened q in
          elim (dec_string p path) [
            | yes same ↦ ground (
              arith,
              made.0,
              clean_up-gone calls path (write_new calls path text opened) r (λ z. ground arith),
            )
            | no differ ↦ ground (
              arith,
              made.1,
              clean_up-other calls path (write_new calls path text opened) p differ,
              write_new-other calls path text p opened differ,
            )
          ]
    ]
  ]

  -- Where the calls succeed and the file is not there, the save succeeds.
  pub save-fine : marshal cfg ≢ none → Works calls → files path ≡ none → saved.0 ≡ []
  unfolding save open_new write_new clean_up
  save-fine encoded works new = elim (Option-cases (marshal cfg)) [
    | inl e ↦ absurd (encoded e)
    | inr (text, e) ↦ ground (arith, works.opens, works.writes, works.closes)
  ]
