-- ===== src/Watch/Wakeups.antt =====
-- Which calls of `Notify` close the channel of a call of `Watch` (internal/watch/nodes.go).
use hambo.Base.{
  ℕ, String, Bool, true, false, List, [], ◌∷◌, Option, none, some, ◌≡◌, ◌≢◌, refl, arith, ok,
  if◌then◌else◌, ◌==◌, dec_string, if_pos, if_neg,
}
use hambo.Watch.{
  NodeWatcher, new_node_watcher, channel_of, is_closed, watch_channel, notify_channel, watch,
  notify,
}
use hambo.Watch.Valid.{
  IsValid, Call, watches, notifies, apply, run, channel_of-forget, channel_of-cons, apply-IsValid,
  watch-IsValid, new_node_watcher-IsValid, run-IsValid,
}

-- Whether a call notifies a node.
unfoldable pub notified : String → List Call → Bool
notified n [] = false
notified n (watches m ∷ cs) = notified n cs
notified n (notifies m ∷ cs) = let later = notified n cs in if m == n then true else later

notify-closed_kept :
    (c : ℕ) (k : Call) (w : NodeWatcher)
    → is_closed c w.closed ≡ true
    → is_closed c (apply k w).closed ≡ true
unfolding apply watch notify is_closed
notify-closed_kept c (watches n) w h = ground arith
notify-closed_kept c (notifies n) w h = ground arith

run-closed_kept :
    (c : ℕ) (cs : List Call) (w : NodeWatcher)
    → is_closed c w.closed ≡ true
    → is_closed c (run cs w).closed ≡ true
unfolding run
run-closed_kept c [] w h = h
run-closed_kept c (k ∷ cs) w h = run-closed_kept c cs (apply k w) (notify-closed_kept c k w h)

closes :
    (n m : String) (c : ℕ) (w : NodeWatcher)
    → m ≡ n
    → n ≢ ""
    → channel_of n w.nodes ≡ some c
    → is_closed c (apply (notifies m) w).closed ≡ true
unfolding apply notify is_closed
closes n m c w p some_node e = ground arith

keeps :
    (n m : String) (c : ℕ) (w : NodeWatcher)
    → ¬ (m ≡ n)
    → channel_of n w.nodes ≡ some c
    → channel_of n (apply (notifies m) w).nodes ≡ some c
unfolding apply notify
keeps n m c w p e = ground (arith, channel_of-forget n m w.nodes)

keeps_watch :
    (n m : String) (c : ℕ) (w : NodeWatcher)
    → channel_of n w.nodes ≡ some c
    → channel_of n (apply (watches m) w).nodes ≡ some c
unfolding apply watch
keeps_watch n m c w e = ground (arith, channel_of-cons n m w.next_channel w.nodes)

registered-closed :
    (n : String) (c : ℕ) (cs : List Call) (w : NodeWatcher)
    → n ≢ ""
    → IsValid w
    → channel_of n w.nodes ≡ some c
    → is_closed c (run cs w).closed ≡ notified n cs
unfolding run notified
registered-closed n c [] w some_node v e = v.open_channels n c e
registered-closed n c (watches m ∷ cs) w some_node v e =
    registered-closed n c cs (apply (watches m) w) some_node (apply-IsValid (watches m) w v)
      (keeps_watch n m c w e)
registered-closed n c (notifies m ∷ cs) w some_node v e = elim (dec_string m n) [
  | yes p ↦ rw (if_pos (dec_string m n) p) (run-closed_kept c cs _ (closes n m c w p some_node e))
  | no p ↦ rw (if_neg (dec_string m n) p) (
      registered-closed n c cs (apply (notifies m) w) some_node (apply-IsValid (notifies m) w v)
        (keeps n m c w p e))
]

watched_channel :
    (o : Option ℕ) (n : String) (c : ℕ) (w w' : NodeWatcher)
    → channel_of n w.nodes ≡ o
    → watch_channel o n w ≡ (ok c, w')
    → channel_of n w'.nodes ≡ some c
unfolding watch_channel channel_of
watched_channel (some d) n c w w' e h = ground arith
watched_channel none n c w w' e h = ground arith

-- Whatever was called before, the channel that a call of `Watch` gives is closed after any later
-- calls exactly if one of them is a call of `Notify` for its node.
pub watch-wakes :
    (n : String) (c : ℕ) (before cs : List Call) (w : NodeWatcher)
    → watch n (run before new_node_watcher) ≡ (ok c, w)
    → is_closed c (run cs w).closed ≡ notified n cs
unfolding watch
watch-wakes n c before cs w h =
    registered-closed n c cs w (ground arith) (ground (arith, watch-IsValid n start started))
      (ground (arith, watched_channel (channel_of n start.nodes) n c start w refl))
  where
    start : NodeWatcher
    start = run before new_node_watcher

    started : IsValid start
    started = run-IsValid before new_node_watcher new_node_watcher-IsValid

notify_channel_ok : (o : Option ℕ) (n : String) (w : NodeWatcher) → (notify_channel o n w).0 ≡ ok tt
unfolding notify_channel
notify_channel_ok none n w = refl
notify_channel_ok (some ch) n w = refl

-- `Notify` fails on the empty ID alone.
pub notify_ok : (n : String) (w : NodeWatcher) → n ≢ "" → (notify n w).0 ≡ ok tt
unfolding notify
notify_ok n w h = rw (if_neg (dec_string n "") h) (notify_channel_ok (channel_of n w.nodes) n w)

-- After any calls, a registered channel is open, so that `Notify` closes no channel that is closed
-- already, which would panic.
pub run-closes_open :
    (cs : List Call) (n : String) (c : ℕ)
    → channel_of n (run cs new_node_watcher).nodes ≡ some c
    → is_closed c (run cs new_node_watcher).closed ≡ false
run-closes_open cs n c h =
    (run-IsValid cs new_node_watcher new_node_watcher-IsValid).open_channels n c h
