-- ===== src/Pki/Save/Pair.antt =====
-- The two files of `saveCertificate` of internal/pki/save.go on each way through it.
use hambo.Base.{
  String, true, List, [], ◌∷◌, none, some, ok, err, Error, ◌≡◌, ◌≢◌, refl, arith, Result-cases,
  List-cases, inl, inr, sym,
}
use hambo.Files.{Entry, file, Files, Outcome, open_new, write_new, then_remove}
use hambo.Files.Calls.{
  open_new-ok, write_new-other, write_new-ok, then_remove-other, then_remove-gone,
  then_remove-fails,
}
use hambo.Pki.Save.{SaveCalls, save_key, clean_up, save_pair}

module _ (calls : SaveCalls) (crt key certificate_pem key_pem : String) (apart : key ≢ crt) where
  abbrev written : Files → Outcome
  written opened = write_new calls.crt crt certificate_pem opened

  -- How a save goes on from the open file of the certificate: neither file is there at the end, or
  -- the key's file was in the way, or both are written.
  data Course (opened : Files) (out : Outcome) : Type 0 where
    first_failed :
        (e : Error) (es : List Error)
        → written opened ≡ (e ∷ es, (written opened).1)
        → out ≡ then_remove calls.crt.removes crt (e ∷ es, (written opened).1)
        → Course opened out
    no_key :
        (e : Error)
        → open_new calls.key.opens key (written opened).1 ≡ err e
        → out ≡ then_remove calls.crt.removes crt (e ∷ [], (written opened).1)
        → Course opened out
    second_failed :
        (e : Error) (es : List Error) (both : Files)
        → open_new calls.key.opens key (written opened).1 ≡ ok both
        → out
          ≡ then_remove calls.crt.removes crt
              (then_remove calls.key.removes key (e ∷ es, (write_new calls.key key key_pem both).1))
        → Course opened out
    saved :
        (both : Files)
        → (written opened).0 ≡ []
        → open_new calls.key.opens key (written opened).1 ≡ ok both
        → (write_new calls.key key key_pem both).0 ≡ []
        → out ≡ ([], (write_new calls.key key key_pem both).1)
        → Course opened out

  from_key :
      (opened : Files) (first : Outcome)
      → first ≡ written opened
      → Course opened (clean_up calls crt key (save_key calls.key key key_pem first))
  unfolding save_key clean_up
  from_key opened (e ∷ es, files) h = first_failed e es (ground arith) (ground arith)
  from_key opened ([], files) h = elim (Result-cases (open_new calls.key.opens key files)) [
    | inr (e, p) ↦ no_key e (ground arith) (ground arith)
    | inl (both, p) ↦ elim (List-cases (write_new calls.key key key_pem both).0) [
      | inl q ↦ saved both (ground arith) (ground arith) q (ground arith)
      | inr (e, es, q) ↦ second_failed e es both (ground arith) (ground arith)
    ]
  ]

  abbrev pair_saved : Files → Outcome
  pair_saved opened = save_pair calls crt key certificate_pem key_pem opened

  course : (opened : Files) → Course opened (pair_saved opened)
  unfolding save_pair
  course opened = from_key opened (written opened) refl

  written-other : (opened : Files) (p : String) → p ≢ crt → (written opened).1 p ≡ opened p
  written-other opened p differ = write_new-other calls.crt crt certificate_pem p opened differ

  both-other :
      (opened both : Files) (p : String)
      → open_new calls.key.opens key (written opened).1 ≡ ok both
      → p ≢ crt
      → p ≢ key
      → (write_new calls.key key key_pem both).1 p ≡ opened p
  both-other opened both p o no_crt no_k = ground (
    arith,
    write_new-other calls.key key key_pem p both no_k,
    (open_new-ok calls.key.opens key (written opened).1 both o).1,
    written-other opened p no_crt,
  )

  pub pair-other :
      (opened : Files) (p : String) → p ≢ crt → p ≢ key → (pair_saved opened).1 p ≡ opened p
  pair-other opened p no_crt no_k = elim (course opened) [
    | first_failed e es w is ↦ ground (
      arith,
      then_remove-other calls.crt.removes crt p (e ∷ es, (written opened).1) no_crt,
      written-other opened p no_crt,
    )
    | no_key e o is ↦ ground (
      arith,
      then_remove-other calls.crt.removes crt p (e ∷ [], (written opened).1) no_crt,
      written-other opened p no_crt,
    )
    | second_failed e es both o is ↦
        let second : Outcome = (e ∷ es, (write_new calls.key key key_pem both).1) in
        ground (
          arith,
          then_remove-other calls.crt.removes crt p (then_remove calls.key.removes key second)
              no_crt,
          then_remove-other calls.key.removes key p second no_k,
          both-other opened both p o no_crt no_k,
        )
    | saved both w o k is ↦ ground (arith, both-other opened both p o no_crt no_k)
  ]

  -- A key's file that was there stays as it was.
  pub pair-key :
      (opened : Files) (content : Entry)
      → opened key ≡ some content
      → (pair_saved opened).1 key ≡ some content
  pair-key opened content h = elim (course opened) [
    | first_failed e es w is ↦ ground (
      arith,
      then_remove-other calls.crt.removes crt key (e ∷ es, (written opened).1) apart,
      written-other opened key apart,
    )
    | no_key e o is ↦ ground (
      arith,
      then_remove-other calls.crt.removes crt key (e ∷ [], (written opened).1) apart,
      written-other opened key apart,
    )
    | second_failed e es both o is ↦ absurd (
        ground (
          arith,
          (open_new-ok calls.key.opens key (written opened).1 both o).0,
          written-other opened key apart,
        ))
    | saved both w o k is ↦ absurd (
        ground (
          arith,
          (open_new-ok calls.key.opens key (written opened).1 both o).0,
          written-other opened key apart,
        ))
  ]

  -- After an error, if both files can be removed, neither is there that was not.
  pub pair-crt :
      (opened : Files)
      → (pair_saved opened).0 ≢ []
      → calls.crt.removes ≡ true
      → (pair_saved opened).1 crt ≡ none
  pair-crt opened failed removes = elim (course opened) [
    | first_failed e es w is ↦
        ground (arith, then_remove-gone calls.crt.removes crt (e ∷ es, (written opened).1) removes)
    | no_key e o is ↦
        ground (arith, then_remove-gone calls.crt.removes crt (e ∷ [], (written opened).1) removes)
    | second_failed e es both o is ↦ ground (
      arith,
      then_remove-gone calls.crt.removes crt
          (then_remove calls.key.removes key (e ∷ es, (write_new calls.key key key_pem both).1))
          removes,
    )
    | saved both w o k is ↦ absurd (ground arith)
  ]

  pub pair-undone_key :
      (opened : Files)
      → (pair_saved opened).0 ≢ []
      → calls.key.removes ≡ true
      → (pair_saved opened).1 key ≡ opened key
  pair-undone_key opened failed removes = elim (course opened) [
    | first_failed e es w is ↦ ground (
      arith,
      then_remove-other calls.crt.removes crt key (e ∷ es, (written opened).1) apart,
      written-other opened key apart,
    )
    | no_key e o is ↦ ground (
      arith,
      then_remove-other calls.crt.removes crt key (e ∷ [], (written opened).1) apart,
      written-other opened key apart,
    )
    | second_failed e es both o is ↦
        let second : Outcome = (e ∷ es, (write_new calls.key key key_pem both).1) in
        ground (
          arith,
          then_remove-other calls.crt.removes crt key (then_remove calls.key.removes key second)
              apart,
          then_remove-gone calls.key.removes key second removes,
          (open_new-ok calls.key.opens key (written opened).1 both o).0,
          written-other opened key apart,
        )
    | saved both w o k is ↦ absurd (ground arith)
  ]

  fails : (before : Outcome) → before.0 ≢ [] → (then_remove calls.crt.removes crt before).0 ≢ []
  fails = then_remove-fails calls.crt.removes crt

  -- Without an error the key's file was not there, and both are written.
  pub pair-saved :
      (opened : Files)
      → (pair_saved opened).0 ≡ []
      → (opened key ≡ none)
        × ((pair_saved opened).1 crt ≡ some (file certificate_pem))
        × ((pair_saved opened).1 key ≡ some (file key_pem))
  pair-saved opened h = elim (course opened) [
    | first_failed e es w is ↦
        absurd (fails (e ∷ es, (written opened).1) (λ q. ground arith) (ground arith))
    | no_key e o is ↦ absurd (fails (e ∷ [], (written opened).1) (λ q. ground arith) (ground arith))
    | second_failed e es both o is ↦
        let second : Outcome = (e ∷ es, (write_new calls.key key key_pem both).1) in
        absurd (
          fails (then_remove calls.key.removes key second)
            (then_remove-fails calls.key.removes key second (λ q. ground arith)) (ground arith))
    | saved both w o k is ↦ (
      ground (
        arith,
        (open_new-ok calls.key.opens key (written opened).1 both o).0,
        written-other opened key apart,
      ),
      ground (
        arith,
        write_new-ok calls.crt crt certificate_pem opened w,
        write_new-other calls.key key key_pem crt both (λ q. apart (sym q)),
        (open_new-ok calls.key.opens key (written opened).1 both o).1,
      ),
      ground (arith, write_new-ok calls.key key key_pem both k),
    )
  ]
