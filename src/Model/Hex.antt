-- ===== src/Model/Hex.antt =====
-- `hex.EncodeToString`, by which the code turns random bytes and digests into identifiers.
use Prim.Native.Char.{Char}
use hambo.Base.{ℕ, zero, suc, ◌%◌, String, List, [], ◌∷◌, ◌≢◌}
use Prim.Native.Nat.{◌/◌}
use text.Mathlib.TextLemmas.{cons-ne-nil}

digit_at : String → ℕ → Char
digit_at String.[] i = "0"
digit_at (String.◌∷◌ c s) zero = c
digit_at (String.◌∷◌ c s) (suc i) = digit_at s i

abbrev digit : ℕ → Char
digit n = digit_at "0123456789abcdef" n

unfoldable pub hex : List ℕ → String
unfolding digit_at
hex [] = ""
hex (b ∷ bs) = String.◌∷◌ (digit (b / 16)) (String.◌∷◌ (digit (b % 16)) (hex bs))

-- An identifier of at least one byte is not empty.
pub hex-ne-nil : (b : ℕ) (bs : List ℕ) → hex (b ∷ bs) ≢ ""
unfolding hex
hex-ne-nil b bs = cons-ne-nil _ _
