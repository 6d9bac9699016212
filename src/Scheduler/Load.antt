-- ===== src/Scheduler/Load.antt =====
-- The counts of internal/scheduler/scheduler.go and the loads of the nodes.
use hambo.Base.{ℕ, suc, ◌+◌, String, ◌&&◌, not, List, [], ◌∷◌, ◌≡◌, ◌≢◌, arith, if◌then◌else◌, ◌==◌}
use hambo.Store.{Entry}
use hambo.Model.Container.{Container, is_exited}
use hambo.Scheduler.{Counts, count_of, bump, tally}

-- How many containers are assigned to a node and have not exited.
unfoldable pub load : String → List (Entry Container) → ℕ
load n [] = 0
load n (e ∷ es) =
    let rest = load n es in
    if e.value.node_id == n && not (is_exited e.value.state) then suc rest else rest

count_of-bump :
    (n m : String) (counts : Counts)
    → count_of n (bump m counts) ≡ (if n == m then count_of n counts + 1 else count_of n counts)
unfolding count_of bump
count_of-bump n m [] = ground arith
count_of-bump n m ((k, v) ∷ rest) = ground (arith, count_of-bump n m rest)

tally-load_from :
    (n : String) (es : List (Entry Container)) (counts : Counts)
    → n ≢ ""
    → count_of n (tally es counts) ≡ count_of n counts + load n es
unfolding tally load
tally-load_from n [] counts h = omega arith
tally-load_from n (e ∷ es) counts h = ground (
  arith,
  tally-load_from n es (bump e.value.node_id counts) h,
  tally-load_from n es counts h,
  count_of-bump n e.value.node_id counts,
)

pub tally-load :
    (n : String) (es : List (Entry Container)) → n ≢ "" → count_of n (tally es []) ≡ load n es
unfolding count_of
tally-load n es h = omega (arith, tally-load_from n es [] h)
