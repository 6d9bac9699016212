-- ===== src/Api/WatchNode/Snapshot.antt =====
-- What a node is sent (internal/api/nodes.go, `watchNodeHandler`).
use hambo.Base.{
  ℕ, String, Bool, true, false, List, [], ◌∷◌, ◌≡◌, ap, refl, arith, Option, none, some, Result, ok,
  err, if◌then◌else◌, ◌==◌, All, Result-cases, inl, inr, dec_string,
}
use hambo.Store.{Entry, find_entry, UniqueKeys}
use hambo.Store.Tx.{Faults, view}
use hambo.Model.Container.{Container}
use hambo.Model.Database.{Database, Collections}
use hambo.Watch.{new_node_watcher, is_closed, watch}
use hambo.Watch.Valid.{Call, run}
use hambo.Watch.Wakeups.{notified, watch-wakes}
use hambo.Api.WatchNode.{ContainerAssignment, assignment, snapshot, writes, round, read, send}

unfoldable pub find_assignment : String → List ContainerAssignment → Option ContainerAssignment
find_assignment k [] = none
find_assignment k (a ∷ rest) =
    let found = find_assignment k rest in if a.id == k then some a else found

-- Containers are stored under their IDs.
abbrev pub IsKeyed : Entry Container → Type 0
IsKeyed e = e.value.id ≡ e.key

-- What a node should be sent of one container.
abbrev pub wanted : String → Result Container → Option ContainerAssignment
wanted n (ok c) = if c.node_id == n then some (assignment c) else none
wanted n (err e) = none

-- If each listed container is stored under its ID and no key is listed twice, then what a node is
-- sent for an ID is the container of that ID if it is assigned to the node, and nothing otherwise.
pub snapshot-find :
    (n k : String) (es : List (Entry Container))
    → All IsKeyed es
    → UniqueKeys es
    → find_assignment k (snapshot n es) ≡ wanted n (find_entry k es)
unfolding snapshot find_assignment find_entry
snapshot-find n k [] keyed u = refl
snapshot-find n k (e ∷ es) keyed u = elim (dec_string e.key k) [
  | no other ↦ ground (arith, snapshot-find n k es keyed.1 u.1)
  | yes same ↦ ground (arith, snapshot-find n k es keyed.1 u.1, ap (λ j. find_entry j es) same)
]

module _ {N C T : Type 0} (c : Collections N C T) where
  sent_channel :
      (f : Faults) (n : String) (db : Database N C T) (r : Result ℕ)
      (items : List ContainerAssignment) (channel : ℕ)
      → read c f n db r ≡ writes items channel
      → r ≡ ok channel
  unfolding read send
  sent_channel f n db (err e) items channel h = absurd (ground arith)
  sent_channel f n db (ok ch) items channel h =
      elim (Result-cases (view f (λ (d : Database N C T). c.containers.list_tx d.containers) db)) [
        | inr (e, p) ↦ absurd (ground arith)
        | inl (es, p) ↦ ground arith
      ]

  -- If a round of the watch loop writes a snapshot and waits for a channel, whatever was called
  -- before, then that channel is closed after any later calls exactly if one of them notifies the
  -- node.
  pub round-wakes :
      (f : Faults) (cancelled : Bool) (n : String) (before after : List Call) (db : Database N C T)
      (items : List ContainerAssignment) (channel : ℕ)
      → (round c f cancelled n (run before new_node_watcher) db).0 ≡ writes items channel
      → is_closed channel
          (run after (round c f cancelled n (run before new_node_watcher) db).1).closed
        ≡ notified n after
  unfolding round
  round-wakes f true n before after db items channel h = absurd (ground arith)
  round-wakes f false n before after db items channel h =
      watch-wakes n channel before after (watch n (run before new_node_watcher)).1 (
        ground
          (arith, sent_channel f n db (watch n (run before new_node_watcher)).0 items channel h))
