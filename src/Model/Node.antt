-- ===== src/Model/Node.antt =====
-- internal/node/node.go.
use hambo.Base.{ℕ, ◌+◌, ◌*◌, String, Bool, false, Option, none, some, List, ltb}
use hambo.Model.Hex.{hex}

pub record Node : Type 0 where
  pub id : String
  pub name : String
  pub runtime_ready : Bool
  pub last_seen_at : Option ℕ
  pub status_session_id : String
  pub status_sequence : ℕ  -- uint64

abbrev pub second : ℕ
second = 1000000000

abbrev pub heartbeat_max_age : ℕ
heartbeat_max_age = 90 * second

unfoldable pub is_reachable : Node → ℕ → Bool
is_reachable n now = elim n.last_seen_at [
  | none ↦ false
  | some seen ↦ ltb now (seen + heartbeat_max_age)
]

-- From the sixteen bytes that `rand.Read` fills in.
unfoldable pub generate_node_id : List ℕ → String
unfolding hex
generate_node_id bytes = hex bytes
