-- ===== src/Files/Dirs.antt =====
-- What `os.MkdirAll` makes, and where.
use Prim.Native.String.{String}
use hambo.Base.{
  Bool, true, false, List, [], ◌∷◌, Option, none, some, ◌≡◌, refl, arith, Option-cases, Bool-cases,
  inl, inr, ◌⊎◌, ap, sym, ◌∙◌, dec_string,
}
use hambo.Base.Names
use hambo.Files.{Entry, directory, file, Files, Outcome, dirs_to, make_dir, make_dirs, mkdir_all}

-- At one of these paths: what was there, or a directory where nothing was.
abbrev pub StaysAt : List String → String → Option Entry → Option Entry → Type 0
StaysAt ds p before after =
    (after ≡ before) ⊎ ((before ≡ none) × (after ≡ some directory) × (Names.contains ds p ≡ true))

pub StaysAt-trans :
    (ds : List String) (p : String) (a b c : Option Entry)
    → StaysAt ds p a b
    → StaysAt ds p b c
    → StaysAt ds p a c
StaysAt-trans ds p a b c (inl e) (inl f) = inl (f ∙ e)
StaysAt-trans ds p a b c (inl e) (inr (n, d, i)) = inr (sym e ∙ n, d, i)
StaysAt-trans ds p a b c (inr (n, d, i)) (inl f) = inr (n, f ∙ d, i)
StaysAt-trans ds p a b c (inr (n, d, i)) (inr (m, f, j)) = inr (n, f, j)

pub StaysAt-other :
    (ds : List String) (p : String) (a b : Option Entry)
    → Names.contains ds p ≡ false
    → StaysAt ds p a b
    → b ≡ a
StaysAt-other ds p a b h (inl e) = e
StaysAt-other ds p a b h (inr (n, d, i)) = absurd (ground arith)

StaysAt-more :
    (ds : List String) (x p : String) (a b : Option Entry)
    → StaysAt ds p a b
    → StaysAt (x ∷ ds) p a b
unfolding Names.contains
StaysAt-more ds x p a b (inl e) = inl e
StaysAt-more ds x p a b (inr (n, d, i)) = inr (n, d, ground arith)

make_dir_cases :
    (makes : String → Bool) (d p : String) (before : Outcome)
    → ((make_dir makes d before).1 p ≡ before.1 p)
      ⊎ ((p ≡ d) × ((make_dir makes d before).1 p ≡ some directory))
unfolding make_dir
make_dir_cases makes d p (e ∷ es, files) = inl refl
make_dir_cases makes d p ([], files) = elim (dec_string p d) [
  | yes is ↦ elim (Bool-cases (makes d)) [
    | inl m ↦ inr (is, ground arith)
    | inr m ↦ inl (ground arith)
  ]
  | no differ ↦ inl (ground arith)
]

make_dirs-StaysAt :
    (makes : String → Bool) (ds : List String) (files : Files) (p : String)
    → StaysAt ds p (files p) ((make_dirs makes ds files).1 p)
unfolding make_dirs Names.contains
make_dirs-StaysAt makes [] files p = inl refl
make_dirs-StaysAt makes (d ∷ ds) files p = elim (Option-cases (files d)) [
  | inr (directory, e) ↦ inl (ground arith)
  | inr (file text, e) ↦ inl (ground arith)
  | inl n ↦
      let above = make_dirs makes ds files in
      let is : (make_dirs makes (d ∷ ds) files).1 p ≡ (make_dir makes d above).1 p = ground arith in
      elim (make_dir_cases makes d p above) [
        | inl e ↦
            StaysAt-trans (d ∷ ds) p (files p) (above.1 p) ((make_dirs makes (d ∷ ds) files).1 p)
              (StaysAt-more ds d p (files p) (above.1 p) (make_dirs-StaysAt makes ds files p))
              (inl (is ∙ e))
        | inr (same, e) ↦ inr (ap files same ∙ n, is ∙ e, ground arith)
      ]
]

pub mkdir_all-StaysAt :
    (makes : String → Bool) (dir : String) (files : Files) (p : String)
    → StaysAt (dirs_to dir) p (files p) ((mkdir_all makes dir files).1 p)
unfolding mkdir_all
mkdir_all-StaysAt makes dir = make_dirs-StaysAt makes (dirs_to dir)

-- All is what it was, but for directories where nothing was, at that path and above it.
abbrev pub Undone : String → Files → Files → Type 0
Undone dir files files' = (p : String) → StaysAt (dirs_to dir) p (files p) (files' p)

-- What is there stays.
pub mkdir_all-Keeps :
    (makes : String → Bool) (dir : String) (files : Files) (p : String) (entry : Entry)
    → files p ≡ some entry
    → (mkdir_all makes dir files).1 p ≡ some entry
mkdir_all-Keeps makes dir files p entry h = elim (mkdir_all-StaysAt makes dir files p) [
  | inl e ↦ e ∙ h
  | inr (n, d, i) ↦ absurd (ground (arith, h, n))
]

-- Where nothing is after the call, nothing was.
pub mkdir_all-none :
    (makes : String → Bool) (dir : String) (files : Files) (p : String)
    → (mkdir_all makes dir files).1 p ≡ none
    → files p ≡ none
mkdir_all-none makes dir files p h = elim (mkdir_all-StaysAt makes dir files p) [
  | inl e ↦ sym e ∙ h
  | inr (n, d, i) ↦ n
]

pub mkdir_all-other :
    (makes : String → Bool) (dir : String) (files : Files) (p : String)
    → Names.contains (dirs_to dir) p ≡ false
    → (mkdir_all makes dir files).1 p ≡ files p
mkdir_all-other makes dir files p h = elim (mkdir_all-StaysAt makes dir files p) [
  | inl e ↦ e
  | inr (n, d, i) ↦ absurd (ground arith)
]

-- What is no file.
abbrev pub no_file : Option Entry → Bool
no_file none = true
no_file (some directory) = true
no_file (some (file text)) = false

pub StaysAt-no_file :
    (ds : List String) (p : String) (a b : Option Entry)
    → StaysAt ds p a b
    → no_file a ≡ true
    → no_file b ≡ true
StaysAt-no_file ds p a b (inl e) h = ap no_file e ∙ h
StaysAt-no_file ds p a b (inr (n, d, i)) h = ap no_file d

make_dir-fine :
    (makes : String → Bool) (d : String) (before : Outcome)
    → makes d ≡ true
    → before.0 ≡ []
    → (make_dir makes d before).0 ≡ []
unfolding make_dir
make_dir-fine makes d ([], files) m h = ground arith
make_dir-fine makes d (e ∷ es, files) m h = absurd (ground arith)

make_dirs-fine :
    (makes : String → Bool) (ds : List String) (files : Files)
    → ((p : String) → makes p ≡ true)
    → ((p : String) → Names.contains ds p ≡ true → no_file (files p) ≡ true)
    → (make_dirs makes ds files).0 ≡ []
unfolding make_dirs Names.contains
make_dirs-fine makes [] files m free = refl
make_dirs-fine makes (d ∷ ds) files m free = elim (Option-cases (files d)) [
  | inr (directory, e) ↦ ground arith
  | inr (file text, e) ↦ absurd (ground (arith, free d))
  | inl n ↦
      let rest = make_dirs-fine makes ds files m (λ p h. free p (ground arith)) in
      ground (arith, make_dir-fine makes d (make_dirs makes ds files) (m d) rest)
]

pub mkdir_all-fine :
    (makes : String → Bool) (dir : String) (files : Files)
    → ((p : String) → makes p ≡ true)
    → ((p : String) → Names.contains (dirs_to dir) p ≡ true → no_file (files p) ≡ true)
    → (mkdir_all makes dir files).0 ≡ []
unfolding mkdir_all
mkdir_all-fine makes dir = make_dirs-fine makes (dirs_to dir)
