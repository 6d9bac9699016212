-- ===== src/Watch.antt =====
-- internal/watch/nodes.go: who waits for a change of a node's assignments.
pub mod Valid
pub mod Wakeups
use hambo.Base.{
  ℕ, suc, ◌+◌, String, Bool, true, false, List, [], ◌∷◌, Option, none, some, Result, ok, err, Error,
  failure, if◌then◌else◌, ◌==◌, nat_eq,
}

-- A channel is a number; `closed` holds the channels that were closed, and `next_channel` the
-- next that `make` gives.
pub record NodeWatcher : Type 0 where
  pub nodes : List (String × ℕ)
  pub closed : List ℕ
  pub next_channel : ℕ

abbrev pub new_node_watcher : NodeWatcher
new_node_watcher = record { nodes = []; closed = []; next_channel = 0 }

unfoldable pub channel_of : String → List (String × ℕ) → Option ℕ
channel_of n [] = none
channel_of n ((m, c) ∷ rest) = let found = channel_of n rest in if m == n then some c else found

unfoldable pub forget : String → List (String × ℕ) → List (String × ℕ)
forget n [] = []
forget n ((m, c) ∷ rest) = let others = forget n rest in if m == n then others else (m, c) ∷ others

unfoldable pub is_closed : ℕ → List ℕ → Bool
is_closed c [] = false
is_closed c (d ∷ rest) = let found = is_closed c rest in if nat_eq d c then true else found

abbrev pub empty_node_id : Error
empty_node_id = failure "node ID must not be empty"

watch_channel : Option ℕ → String → NodeWatcher → Result ℕ × NodeWatcher
watch_channel (some c) node_id w = (ok c, w)
watch_channel none node_id w = (
  ok w.next_channel,
  record w { nodes = (node_id, w.next_channel) ∷ w.nodes; next_channel = w.next_channel + 1 },
)

unfoldable pub watch : String → NodeWatcher → Result ℕ × NodeWatcher
unfolding watch_channel
watch node_id w =
    if node_id == ""
    then (err empty_node_id, w)
    else watch_channel (channel_of node_id w.nodes) node_id w

-- Closing the channel wakes all who wait for it.
notify_channel : Option ℕ → String → NodeWatcher → Result (Unit {0}) × NodeWatcher
notify_channel none node_id w = (ok tt, w)
notify_channel (some c) node_id w =
    (ok tt, record w { nodes = forget node_id w.nodes; closed = c ∷ w.closed })

unfoldable pub notify : String → NodeWatcher → Result (Unit {0}) × NodeWatcher
unfolding notify_channel
notify node_id w =
    if node_id == ""
    then (err empty_node_id, w)
    else notify_channel (channel_of node_id w.nodes) node_id w
