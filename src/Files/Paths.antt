-- ===== src/Files/Paths.antt =====
-- Paths that internal/pki and internal/cliconfig tell apart.
use Prim.Native.String.{String}
use text.Mathlib.TextLemmas.{
  append_assoc, append_cancel_left, append-nil, cons-append, nil-append, nil≢cons,
}
use Prim.Native.Char.{code}
use hambo.Base.{
  ◌<>◌, ◌≢◌, ◌∙◌, sym, ap, ◌≡◌, ◌⊎◌, inl, inr, List, [], ◌∷◌, true, false, arith, dec_string,
  Bool-cases, Bool, if◌then◌else◌, ◌&&◌, not, ◌==◌, nat_eq, subst,
}
use hambo.Base.Names
use hambo.Files.{join_path, dirs_from, dirs_to}

-- Two names in a directory are two paths.
pub join_path-names : (dir n m : String) → n ≢ m → join_path dir n ≢ join_path dir m
unfolding join_path
join_path-names dir n m differ h =
    differ (append_cancel_left "/" n m (append_cancel_left dir ("/" <> n) ("/" <> m) h))

-- A file of a directory's directory is none of its own, unless its name is such a path.
pub join_path-deep :
    (dir sub n m : String)
    → (sub <> "/" <> n) ≢ m
    → join_path (join_path dir sub) n ≢ join_path dir m
unfolding join_path
join_path-deep dir sub n m differ h = differ (
    append_cancel_left "/" (sub <> "/" <> n) m (
      sym (append_assoc "/" sub ("/" <> n))
      ∙ append_cancel_left dir (("/" <> sub) <> "/" <> n) ("/" <> m)
          (sym (append_assoc dir ("/" <> sub) ("/" <> n)) ∙ h)))

-- What is above, or a beginning of the path.
abbrev Begins : List String → String → String → Type 0
Begins above p whole = (Names.contains above p ≡ true) ⊎ ((r : String) × (whole ≡ p <> r))

Begins-cons :
    (above : List String) (done p rest : String)
    → Names.contains (done ∷ above) p ≡ true
    → Begins above p (done <> rest)
unfolding Names.contains
Begins-cons above done p rest h = elim (dec_string done p) [
  | yes e ↦ inr (rest, ap (λ d. d <> rest) e)
  | no differ ↦ inl (ground arith)
]

-- However the next path above is found.
Begins-if :
    (b : Bool) (above : List String) (done p rest : String)
    → Begins (if b then done ∷ above else above) p (done <> rest)
    → Begins above p (done <> rest)
Begins-if false above done p rest h = h
Begins-if true above done p rest (inr h) = inr h
Begins-if true above done p rest (inl h) = Begins-cons above done p rest h

dirs_from-Begins :
    (above : List String) (done s p : String)
    → Names.contains (dirs_from above done s) p ≡ true
    → Begins above p (done <> s)
unfolding dirs_from
dirs_from-Begins above done String.[] p h = Begins-cons above done p String.[] h
dirs_from-Begins above done (String.◌∷◌ c s) p h =
    let b = nat_eq (code c) b'/' && not (done == "") in
    let next = done <> String.◌∷◌ c String.[] in
    Begins-if b above done p (String.◌∷◌ c s) (
      subst (Begins (if b then done ∷ above else above) p)
        (append_assoc done (String.◌∷◌ c String.[]) s
          ∙ ap (λ x. done <> x) (cons-append c "" s ∙ ap (String.◌∷◌ c) (nil-append s)))
        (dirs_from-Begins (if b then done ∷ above else above) next s p h))

-- A path above another is a beginning of it.
dirs_to-Begins :
    (dir p : String) → Names.contains (dirs_to dir) p ≡ true → (r : String) × (dir ≡ p <> r)
unfolding dirs_to Names.contains
dirs_to-Begins dir p h = elim (dirs_from-Begins [] "" dir p h) [
  | inl e ↦ absurd (ground arith)
  | inr (r, is) ↦ (r, sym (nil-append dir) ∙ is)
]

-- No path in a directory is above it.
pub join_path-below :
    (dir name : String) → Names.contains (dirs_to dir) (join_path dir name) ≡ false
unfolding join_path
join_path-below dir name = elim (Bool-cases (Names.contains (dirs_to dir) (join_path dir name))) [
  | inr e ↦ e
  | inl e ↦
      let x = dirs_to-Begins dir (join_path dir name) e in
      absurd (
        nil≢cons (
          append_cancel_left dir "" (("/" <> name) <> x.0)
            (append-nil dir ∙ x.1 ∙ append_assoc dir ("/" <> name) x.0)
          ∙ append_assoc "/" name x.0
          ∙ cons-append "/" "" (name <> x.0)))
]

-- Nor is one of two names in a directory above the other, unless it begins as that.
pub join_path-beside :
    (dir sub name : String)
    → ((r : String) → sub ≢ name <> r)
    → Names.contains (dirs_to (join_path dir sub)) (join_path dir name) ≡ false
unfolding join_path
join_path-beside dir sub name differ =
    elim (Bool-cases (Names.contains (dirs_to (join_path dir sub)) (join_path dir name))) [
      | inr e ↦ e
      | inl e ↦
          let x = dirs_to-Begins (join_path dir sub) (join_path dir name) e in
          absurd (
            differ x.0 (
              append_cancel_left "/" sub (name <> x.0) (
                append_cancel_left dir ("/" <> sub) (("/" <> name) <> x.0)
                  (x.1 ∙ append_assoc dir ("/" <> name) x.0)
                ∙ append_assoc "/" name x.0)))
    ]
