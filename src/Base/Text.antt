-- ===== src/Base/Text.antt =====
-- Go's `strings` functions that the code calls, over the characters of a text.
use Prim.Native.Nat.{ℕ, ◌+◌}
use Prim.Native.Char.{Char, code}
use Prim.Native.String.{String}
use mathlib.Core.Bool.{Bool, true, false, ◌&&◌, ◌||◌}
use mathlib.Core.List.{List, [], ◌∷◌}
use mathlib.Core.Option.{Option, none, some}
use hambo.Base.Tests.{leb, nat_eq, if◌then◌else◌, ◌==◌}

-- `unicode.IsSpace`
unfoldable pub is_space : Char → Bool
is_space c =
    let n = code c in
    (leb 9 n && leb n 13)
    || nat_eq n 32
    || nat_eq n 0x85
    || nat_eq n 0xa0
    || nat_eq n 0x1680
    || (leb 0x2000 n && leb n 0x200a)
    || nat_eq n 0x2028
    || nat_eq n 0x2029
    || nat_eq n 0x202f
    || nat_eq n 0x205f
    || nat_eq n 0x3000

trim_left : String → String
trim_left String.[] = ""
trim_left (String.◌∷◌ c s) = let rest = trim_left s in if is_space c then rest else String.◌∷◌ c s

trim_right : String → String
trim_right String.[] = ""
trim_right (String.◌∷◌ c s) =
    let rest = trim_right s in if rest == "" && is_space c then "" else String.◌∷◌ c rest

-- `strings.TrimSpace`
unfoldable pub trim_space : String → String
unfolding trim_left trim_right is_space
trim_space s = trim_right (trim_left s)

opens_word : String → Bool
opens_word String.[] = true
opens_word (String.◌∷◌ c s) = is_space c

unfoldable pub prepend : Char → Bool → List String → List String
prepend c true ws = String.◌∷◌ c "" ∷ ws
prepend c false [] = String.◌∷◌ c "" ∷ []
prepend c false (w ∷ ws) = String.◌∷◌ c w ∷ ws

-- `strings.Fields`
unfoldable pub fields : String → List String
unfolding opens_word prepend is_space
fields String.[] = []
fields (String.◌∷◌ c s) =
    let words = fields s in if is_space c then words else prepend c (opens_word s) words

-- `strings.Split(s, ".")`
unfoldable pub split_dots : String → List String
unfolding prepend
split_dots String.[] = "" ∷ []
split_dots (String.◌∷◌ c s) =
    let parts = split_dots s in if nat_eq (code c) b'.' then "" ∷ parts else prepend c false parts

-- `strings.CutPrefix`: the rest, if the prefix is there.
unfoldable pub cut_prefix : String → String → Option String
cut_prefix s String.[] = some s
cut_prefix String.[] (String.◌∷◌ d t) = none
cut_prefix (String.◌∷◌ c s) (String.◌∷◌ d t) =
    let rest = cut_prefix s t in if nat_eq (code c) (code d) then rest else none

lower : ℕ → ℕ
lower n = if leb b'A' n && leb n b'Z' then n + 32 else n

-- `strings.EqualFold` against a text whose letters have no case but the ASCII ones.
unfoldable pub equal_fold : String → String → Bool
unfolding lower
equal_fold String.[] String.[] = true
equal_fold String.[] (String.◌∷◌ d t) = false
equal_fold (String.◌∷◌ c s) String.[] = false
equal_fold (String.◌∷◌ c s) (String.◌∷◌ d t) =
    let rest = equal_fold s t in if nat_eq (lower (code c)) (lower (code d)) then rest else false
