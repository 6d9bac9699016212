-- ===== src/Model/Container.antt =====
-- internal/container/container.go.
use hambo.Base.{ℕ, String, Bool, true, false, Option, List}
use hambo.Base.Int.{ℤ}
use hambo.Model.Hex.{hex}

-- A Go string type with three constants; `other` stands for any other text.
pub data State : Type 0 where
  pending running exited : State
  other : String → State

abbrev pub is_pending : State → Bool
is_pending pending = true
is_pending _ = false

abbrev pub is_running : State → Bool
is_running running = true
is_running _ = false

abbrev pub is_exited : State → Bool
is_exited exited = true
is_exited _ = false

pub record Container : Type 0 where
  pub id : String
  pub name : String
  pub image : String
  pub node_id : String
  pub state : State
  pub exit_code : Option ℤ
  pub reason : String
  pub message : String
  pub created_at : ℕ
  pub deletion_requested_at : Option ℕ

-- From the sixteen bytes that `rand.Read` fills in.
unfoldable pub generate_container_id : List ℕ → String
unfolding hex
generate_container_id bytes = hex bytes
