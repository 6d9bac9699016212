-- ===== src/Token/RoundTrip.antt =====
-- `Format` and `Parse` of internal/token/token.go and parse.go, one after the other.
use Prim.Native.Char.{Char, code}
use Prim.Native.String.{String}
use text.Mathlib.TextLemmas.{nil-append, cons-append}
use text.Mathlib.TextEquality.{Char-path}
use hambo.Base.{
  ℕ, ◌<>◌, Bool, true, false, List, [], ◌∷◌, ◌≡◌, refl, sym, ap, ◌∙◌, arith, Option, none, some, ok,
  if◌then◌else◌, nat_eq, length, Bool-cases, Result-cases, inl, inr, subst, some-injective,
}
use hambo.Base.Text.{split_dots, prepend}
use hambo.Token.{Token, format, parse, parse_parts, check_parts, check_decoded}

unfoldable pub has_dot : String → Bool
has_dot String.[] = false
has_dot (String.◌∷◌ c s) = let rest = has_dot s in if nat_eq (code c) b'.' then true else rest

split_dots_one : (s : String) → has_dot s ≡ false → split_dots s ≡ s ∷ []
unfolding split_dots has_dot
split_dots_one String.[] h = refl
split_dots_one (String.◌∷◌ c s) h = elim (Bool-cases (nat_eq (code c) b'.')) [
  | inl e ↦ absurd (ground arith)
  | inr e ↦ rw (e, split_dots_one s (ground arith))
]

split_dots-dot : (r : String) → split_dots ("." <> r) ≡ "" ∷ split_dots r
unfolding split_dots
split_dots-dot r = rw (cons-append "." "" r, nil-append r)

split_dots-append :
    (s r : String) → has_dot s ≡ false → split_dots (s <> ("." <> r)) ≡ s ∷ split_dots r
unfolding split_dots has_dot
split_dots-append String.[] r h = rw nil-append (split_dots-dot r)
split_dots-append (String.◌∷◌ c s) r h = elim (Bool-cases (nat_eq (code c) b'.')) [
  | inl e ↦ absurd (ground arith)
  | inr e ↦
      rw (cons-append c s ("." <> r), split_dots, e, split_dots-append s r (ground arith)) refl
]

-- `strings.Join(parts, ".")`
join : List String → String
join [] = ""
join (p ∷ []) = p
join (p ∷ q ∷ rest) = p <> ("." <> join (q ∷ rest))

-- A text is split into at least one part.
split_dots-cons : (s : String) → (p : String) × (ps : List String) × (split_dots s ≡ p ∷ ps)
unfolding split_dots prepend
split_dots-cons String.[] = ("", [], refl)
split_dots-cons (String.◌∷◌ c s) = elim (Bool-cases (nat_eq (code c) b'.')) [
  | inl e ↦ ("", split_dots s, rw e)
  | inr e ↦ let (p, ps, q) = split_dots-cons s in (String.◌∷◌ c p, ps, rw (e, q))
]

join-push :
    (c : Char) (p : String) (ps : List String)
    → join (String.◌∷◌ c p ∷ ps) ≡ String.◌∷◌ c (join (p ∷ ps))
unfolding join
join-push c p [] = refl
join-push c p (q ∷ ps) = cons-append c p ("." <> join (q ∷ ps))

join-dot : (p : String) (ps : List String) → join ("" ∷ p ∷ ps) ≡ String.◌∷◌ "." (join (p ∷ ps))
unfolding join
join-dot p ps =
    nil-append ("." <> join (p ∷ ps))
    ∙ cons-append "." "" (join (p ∷ ps))
    ∙ ap (String.◌∷◌ ".") (nil-append (join (p ∷ ps)))

join-split_dots : (s : String) → join (split_dots s) ≡ s
unfolding split_dots join prepend
join-split_dots String.[] = refl
join-split_dots (String.◌∷◌ c s) =
    let (p, ps, q) = split_dots-cons s in
    let ih : join (p ∷ ps) ≡ s = subst (λ l. join l ≡ s) q (join-split_dots s) in
    elim (Bool-cases (nat_eq (code c) b'.')) [
      | inl e ↦
          rw (e, q)
            (join-dot p ps
              ∙ ap (String.◌∷◌ ".") ih
              ∙ ap (λ x. String.◌∷◌ x s) (Char-path "." c (ground arith)))
      | inr e ↦ rw (e, q) (join-push c p ps ∙ ap (String.◌∷◌ c) ih)
    ]

module _ (decode : String → Option (List ℕ)) where
  -- Two parts of 32 bytes each.
  unfoldable pub AreParts : Token → Type 0
  AreParts t =
      ((a : List ℕ) × (decode t.ca_fingerprint ≡ some a) × (length a ≡ 32))
      × ((b : List ℕ) × (decode t.secret ≡ some b) × (length b ≡ 32))

  check_decoded-ok :
      (o : Option (List ℕ)) (a : List ℕ)
      → o ≡ some a
      → length a ≡ 32
      → check_decoded decode o ≡ ok tt
  unfolding check_decoded
  check_decoded-ok none a e n = absurd (ground arith)
  check_decoded-ok (some b) a e n = ground (arith, ap length (some-injective b a e))

  check_decoded-inv :
      (o : Option (List ℕ))
      → check_decoded decode o ≡ ok tt
      → (a : List ℕ) × (o ≡ some a) × (length a ≡ 32)
  unfolding check_decoded
  check_decoded-inv none h = absurd (ground arith)
  check_decoded-inv (some a) h = (a, refl, ground arith)

  -- If the decoder accepts no text with a dot, then a token whose parts decode to 32 bytes each is
  -- read back from its text.
  pub parse-format :
      ((s : String) (bytes : List ℕ) → decode s ≡ some bytes → has_dot s ≡ false)
      → (t : Token) → AreParts t
      → parse decode (format t) ≡ ok t
  unfolding parse format parse_parts check_parts AreParts
  parse-format alphabet t ((a, ea, na), (b, eb, nb)) =
      rw
        (
          split_dots-append t.ca_fingerprint t.secret (alphabet t.ca_fingerprint a ea),
          split_dots_one t.secret (alphabet t.secret b eb),
          check_decoded-ok (decode t.ca_fingerprint) a ea na,
          check_decoded-ok (decode t.secret) b eb nb,
        )
        refl

  parse_parts-inv :
      (parts : List String) (t : Token)
      → parse_parts decode parts ≡ ok t
      → (parts ≡ t.ca_fingerprint ∷ t.secret ∷ []) × AreParts t
  unfolding parse_parts check_parts AreParts
  parse_parts-inv [] t h = absurd (ground arith)
  parse_parts-inv (p ∷ []) t h = absurd (ground arith)
  parse_parts-inv (p ∷ q ∷ r ∷ rest) t h = absurd (ground arith)
  parse_parts-inv (p ∷ q ∷ []) t h = elim (Result-cases (check_decoded decode (decode p))) [
    | inr (e, x) ↦ absurd (ground arith)
    | inl (u, x) ↦ elim (Result-cases (check_decoded decode (decode q))) [
      | inr (e, y) ↦ absurd (ground arith)
      | inl (v, y) ↦
          let same : record { ca_fingerprint = p; secret = q } ≡ t = ground arith in
          (
            ground arith,
            subst AreParts same (check_decoded-inv (decode p) x, check_decoded-inv (decode q) y),
          )
    ]
  ]

  -- A text that is read as a token is that token's text, and the token's parts decode to 32 bytes
  -- each.
  pub format-parse :
      (value : String) (t : Token) → parse decode value ≡ ok t → (format t ≡ value) × AreParts t
  unfolding parse format
  format-parse value t h =
      let (parts, are_parts) = parse_parts-inv (split_dots value) t h in
      (unfold join in sym (ap join parts) ∙ join-split_dots value, are_parts)
