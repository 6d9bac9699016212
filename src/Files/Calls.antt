-- ===== src/Files/Calls.antt =====
-- What the calls on one file leave of the others.
use hambo.Base.{
  String, Bool, true, false, [], ◌∷◌, none, some, ok, ◌≡◌, ◌≢◌, refl, arith, Option-cases, inl, inr,
  ◌⊎◌,
}
use hambo.Files.{
  Files, file, replaced, NewFile, Outcome, open_new, write_new, os_remove, remove_file, then_remove,
  go_on, on_error,
}

-- The files hold what they held.
abbrev pub Same : Files → Files → Type 0
Same files files' = (p : String) → files' p ≡ files p

pub open_new-ok :
    (opens : Bool) (path : String) (files files' : Files)
    → open_new opens path files ≡ ok files'
    → (files path ≡ none) × (files' ≡ replaced files path (some (file "")))
unfolding open_new
open_new-ok opens path files files' h = elim (Option-cases (files path)) [
  | inl e ↦ (e, ground arith)
  | inr (c, e) ↦ absurd (ground arith)
]

pub write_new-other :
    (calls : NewFile) (path content p : String) (files : Files)
    → p ≢ path
    → (write_new calls path content files).1 p ≡ files p
unfolding write_new
write_new-other calls path content p files differ = ground arith

pub write_new-ok :
    (calls : NewFile) (path content : String) (files : Files)
    → (write_new calls path content files).0 ≡ []
    → (write_new calls path content files).1 path ≡ some (file content)
unfolding write_new
write_new-ok calls path content files h = ground arith

pub remove_file-other :
    (removes : Bool) (path p : String) (files : Files)
    → p ≢ path
    → (remove_file removes path files).1 p ≡ files p
unfolding remove_file os_remove
remove_file-other removes path p files differ = elim (Option-cases (files path)) [
  | inl e ↦ ground arith
  | inr (c, e) ↦ ground arith
]

pub remove_file-gone : (path : String) (files : Files) → (remove_file true path files).1 path ≡ none
unfolding remove_file os_remove
remove_file-gone path files = elim (Option-cases (files path)) [
  | inl e ↦ ground arith
  | inr (c, e) ↦ ground arith
]

pub then_remove-other :
    (removes : Bool) (path p : String) (before : Outcome)
    → p ≢ path
    → (then_remove removes path before).1 p ≡ before.1 p
unfolding then_remove
then_remove-other removes path p (errors, files) = remove_file-other removes path p files

pub then_remove-gone :
    (removes : Bool) (path : String) (before : Outcome)
    → removes ≡ true
    → (then_remove removes path before).1 path ≡ none
unfolding then_remove
then_remove-gone true path (errors, files) r = remove_file-gone path files
then_remove-gone false path (errors, files) r = absurd (ground arith)

-- Errors stay.
pub then_remove-fails :
    (removes : Bool) (path : String) (before : Outcome)
    → before.0 ≢ []
    → (then_remove removes path before).0 ≢ []
unfolding then_remove
then_remove-fails removes path ([], files) some_error h = some_error refl
then_remove-fails removes path (e ∷ es, files) some_error h = ground arith

pub go_on-cases :
    (before : Outcome) (next : Files → Outcome)
    → ((before.0 ≡ []) × (go_on before next ≡ next before.1))
      ⊎ ((before.0 ≢ []) × (go_on before next ≡ before))
unfolding go_on
go_on-cases ([], files) next = inl (refl, refl)
go_on-cases (e ∷ es, files) next = inr (λ h. ground arith, refl)

pub on_error-cases :
    (undo : Outcome → Outcome) (before : Outcome)
    → ((before.0 ≡ []) × (on_error undo before ≡ before))
      ⊎ ((before.0 ≢ []) × (on_error undo before ≡ undo before))
unfolding on_error
on_error-cases undo ([], files) = inl (refl, refl)
on_error-cases undo (e ∷ es, files) = inr (λ h. ground arith, refl)

-- A new file can be opened, written and closed.
pub record Works (calls : NewFile) : Type 0 where
  pub opens : calls.opens ≡ true
  pub writes : calls.writes ≡ true
  pub closes : calls.closes ≡ true
