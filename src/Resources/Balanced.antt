-- ===== src/Resources/Balanced.antt =====
-- Traces in which each resource is given back once, after all that was acquired after it.
use mathlib.Core.List.{append_assoc}
use hambo.Base.{subst, sym, List, [], ◌∷◌, ◌++◌, Result, ok, err, Error}
use hambo.Resources.{
  Resource, Event, acquired, released, queue_shut_down, Traced, after, hold, defer_shutdown,
}

pub data Balanced : List Event → Type 0 where
  quiet : Balanced []
  held :
      (r : Resource) (inner later : List Event)
      → Balanced inner
      → Balanced later
      → Balanced (acquired r ∷ inner ++ released r ∷ later)
  shuts : (later : List Event) → Balanced later → Balanced (queue_shut_down ∷ later)

append-Balanced : (xs ys : List Event) → Balanced xs → Balanced ys → Balanced (xs ++ ys)
append-Balanced _ ys quiet c = c
append-Balanced _ ys (shuts later b) c = shuts (later ++ ys) (append-Balanced later ys b c)
append-Balanced _ ys (held r inner later b d) c =
    subst (λ x. Balanced (acquired r ∷ x)) (sym (append_assoc inner (released r ∷ later) ys))
      (held r inner (later ++ ys) b (append-Balanced later ys d c))

pub defer_shutdown-Balanced : (t : Traced) → Balanced t.0 → Balanced (defer_shutdown t).0
unfolding defer_shutdown
defer_shutdown-Balanced (events, errors) b =
    append-Balanced events (queue_shut_down ∷ []) b (shuts [] quiet)

pub hold-Balanced :
    (r : Resource) (close_errors : List Error) (t : Traced)
    → Balanced t.0
    → Balanced (hold r close_errors t).0
unfolding hold
hold-Balanced r close_errors (events, errors) b = held r events [] b quiet

pub after-Balanced :
    {T : Type 0} (first : Result T) (next : T → Traced)
    → ((v : T) → Balanced (next v).0)
    → Balanced (after first next).0
unfolding after
after-Balanced (err e) next b = quiet
after-Balanced (ok v) next b = b v

-- Two resources that are given back in the opposite order.
pub both-Balanced :
    (r s : Resource) (inner : List Event)
    → Balanced inner
    → Balanced (acquired r ∷ acquired s ∷ inner ++ released s ∷ released r ∷ [])
both-Balanced r s inner b =
    subst (λ x. Balanced (acquired r ∷ acquired s ∷ x))
      (append_assoc inner (released s ∷ []) (released r ∷ []))
      (held r (acquired s ∷ inner ++ released s ∷ []) [] (held s inner [] b quiet) quiet)
