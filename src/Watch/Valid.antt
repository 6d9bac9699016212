-- ===== src/Watch/Valid.antt =====
-- What holds of the watcher of internal/watch/nodes.go after any calls of `Watch` and `Notify`.
use hambo.Base.{
  ℕ, ◌<◌, String, true, false, List, [], ◌∷◌, Option, none, some, ◌≡◌, refl, arith, if◌then◌else◌,
  ◌==◌, nat_eq, Bool-cases, inl, inr,
}
use hambo.Watch.{
  NodeWatcher, new_node_watcher, channel_of, forget, is_closed, watch_channel, notify_channel,
  watch, notify,
}

-- The channels that are registered and those that are closed were made, and no registered
-- channel is closed or registered for another node.
pub record IsValid (w : NodeWatcher) : Type 0 where
  pub open_channels :
      (n : String) (c : ℕ) → channel_of n w.nodes ≡ some c → is_closed c w.closed ≡ false
  pub made : (n : String) (c : ℕ) → channel_of n w.nodes ≡ some c → c < w.next_channel
  pub closed_made : (c : ℕ) → is_closed c w.closed ≡ true → c < w.next_channel
  pub own :
      (n m : String) (c : ℕ) → channel_of n w.nodes ≡ some c → channel_of m w.nodes ≡ some c → n ≡ m

pub channel_of-forget :
    (n m : String) (l : List (String × ℕ))
    → channel_of n (forget m l) ≡ (if n == m then none else channel_of n l)
unfolding channel_of forget
channel_of-forget n m [] = ground arith
channel_of-forget n m ((k, c) ∷ l) = ground (arith, channel_of-forget n m l)

pub channel_of-cons :
    (n m : String) (c : ℕ) (l : List (String × ℕ))
    → channel_of n ((m, c) ∷ l) ≡ (if m == n then some c else channel_of n l)
unfolding channel_of
channel_of-cons n m c l = refl

is_closed-cons :
    (c d : ℕ) (l : List ℕ) → is_closed c (d ∷ l) ≡ (if nat_eq d c then true else is_closed c l)
unfolding is_closed
is_closed-cons c d l = refl

watch_channel-IsValid :
    (o : Option ℕ) (n : String) (w : NodeWatcher)
    → channel_of n w.nodes ≡ o
    → IsValid w
    → IsValid (watch_channel o n w).1
unfolding watch_channel
watch_channel-IsValid (some c) n w e v = v
watch_channel-IsValid none n w e v = record {
  open_channels = λ m c h. ground (
    arith,
    channel_of-cons m n w.next_channel w.nodes,
    v.open_channels m c,
    v.closed_made c,
    Bool-cases (is_closed c w.closed),
  );
  made = λ m c h. ground (arith, channel_of-cons m n w.next_channel w.nodes, v.made m c);
  closed_made = λ c h. ground (arith, v.closed_made c);
  own = λ m k c h g. ground (
    arith,
    channel_of-cons m n w.next_channel w.nodes,
    channel_of-cons k n w.next_channel w.nodes,
    v.own m k c,
    v.made m c,
    v.made k c,
  );
}

notify_channel-IsValid :
    (o : Option ℕ) (n : String) (w : NodeWatcher)
    → channel_of n w.nodes ≡ o
    → IsValid w
    → IsValid (notify_channel o n w).1
unfolding notify_channel
notify_channel-IsValid none n w e v = v
notify_channel-IsValid (some c) n w e v = record {
  open_channels = λ m d h. ground (
    arith,
    channel_of-forget m n w.nodes,
    is_closed-cons d c w.closed,
    v.open_channels m d,
    v.own n m c e,
  );
  made = λ m d h. ground (arith, channel_of-forget m n w.nodes, v.made m d);
  closed_made = λ d h. ground (arith, is_closed-cons d c w.closed, v.closed_made d, v.made n c e);
  own = λ m k d h g.
      ground (arith, channel_of-forget m n w.nodes, channel_of-forget k n w.nodes, v.own m k d);
}

pub watch-IsValid : (n : String) (w : NodeWatcher) → IsValid w → IsValid (watch n w).1
unfolding watch
watch-IsValid n w v = elim (Bool-cases (n == "")) [
  | inl e ↦ rw e v
  | inr e ↦ rw e (watch_channel-IsValid (channel_of n w.nodes) n w refl v)
]

pub notify-IsValid : (n : String) (w : NodeWatcher) → IsValid w → IsValid (notify n w).1
unfolding notify
notify-IsValid n w v = elim (Bool-cases (n == "")) [
  | inl e ↦ rw e v
  | inr e ↦ rw e (notify_channel-IsValid (channel_of n w.nodes) n w refl v)
]

pub data Call : Type 0 where
  watches notifies : String → Call

unfoldable pub apply : Call → NodeWatcher → NodeWatcher
apply (watches n) w = (watch n w).1
apply (notifies n) w = (notify n w).1

unfoldable pub run : List Call → NodeWatcher → NodeWatcher
run [] w = w
run (c ∷ cs) w = run cs (apply c w)

pub apply-IsValid : (c : Call) (w : NodeWatcher) → IsValid w → IsValid (apply c w)
unfolding apply
apply-IsValid (watches n) w v = watch-IsValid n w v
apply-IsValid (notifies n) w v = notify-IsValid n w v

pub new_node_watcher-IsValid : IsValid new_node_watcher
unfolding channel_of is_closed
new_node_watcher-IsValid = record {
  open_channels = λ n c h. cc;
  made = λ n c h. absurd (ground arith);
  closed_made = λ c h. absurd (ground arith);
  own = λ n m c h g. absurd (ground arith);
}

pub run-IsValid : (cs : List Call) (w : NodeWatcher) → IsValid w → IsValid (run cs w)
unfolding run
run-IsValid [] w v = v
run-IsValid (c ∷ cs) w v = run-IsValid cs (apply c w) (apply-IsValid c w v)
