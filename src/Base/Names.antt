-- ===== src/Base/Names.antt =====
-- A Go set of texts, `map[string]struct{}`, by its keys.
use Prim.Native.String.{String}
use mathlib.Core.Path.{◌≡◌}
use mathlib.Core.Bool.{Bool, true, false}
use mathlib.Core.List.{List, [], ◌∷◌}
use native.Mathlib.Omega.{arith}
use hambo.Base.Tests.{◌==◌, if◌then◌else◌}

unfoldable pub contains : List String → String → Bool
contains [] n = false
contains (x ∷ xs) n = let rest = contains xs n in if x == n then true else rest

-- `set[name] = struct{}{}`
unfoldable pub insert : String → List String → List String
insert n xs = n ∷ xs

-- `delete(set, name)`
unfoldable pub remove : String → List String → List String
remove n [] = []
remove n (x ∷ xs) = let rest = remove n xs in if x == n then rest else x ∷ rest

pub contains-insert :
    (m n : String) (xs : List String)
    → contains (insert n xs) m ≡ (if m == n then true else contains xs m)
unfolding contains insert
contains-insert m n xs = ground arith

pub contains-remove :
    (m n : String) (xs : List String)
    → contains (remove n xs) m ≡ (if m == n then false else contains xs m)
unfolding contains remove
contains-remove m n [] = ground arith
contains-remove m n (x ∷ xs) = ground (arith, contains-remove m n xs)
