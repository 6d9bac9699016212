-- ===== src/Model/Token.antt =====
-- internal/token/token.go: what the server stores of a token.
use hambo.Base.{ℕ, String, Bool, not, Option, ltb}

pub record EnrollmentResult : Type 0 where
  pub request_hash : String
  pub node_id : String
  pub certificate : String

pub record Metadata : Type 0 where
  pub expires_at : ℕ
  pub enrollment : Option EnrollmentResult

unfoldable pub expired : Metadata → ℕ → Bool
expired m now = not (ltb now m.expires_at)
