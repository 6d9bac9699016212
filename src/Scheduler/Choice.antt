-- ===== src/Scheduler/Choice.antt =====
-- The node that the loop over the nodes in internal/scheduler/scheduler.go picks.
use mathlib.Core.List.{append_assoc, append-nil}
use hambo.Base.{
  ℕ, ◌≤◌, ◌<◌, String, true, false, List, [], ◌∷◌, ◌++◌, ◌≡◌, ◌≢◌, refl, sym, ap, subst, ◌∙◌, arith,
  ltb, All, All-append, All-map, Bool-cases, inl, inr,
}
use hambo.Store.{Entry}
use hambo.Model.Node.{Node}
use hambo.Model.Container.{Container}
use hambo.Scheduler.{Counts, count_of, consider, select, tally, is_eligible}
use hambo.Scheduler.Load.{load, tally-load}

abbrev pub Ineligible : ℕ → Entry Node → Type 0
Ineligible now e = is_eligible now e.value ≡ false

-- A node that could run the container, but carries more than `k` containers, or no fewer.
abbrev pub Fuller : ℕ → List (Entry Container) → ℕ → Entry Node → Type 0
Fuller now cs k e = is_eligible now e.value ≡ true → k < load e.value.id cs

abbrev pub NoEmptier : ℕ → List (Entry Container) → ℕ → Entry Node → Type 0
NoEmptier now cs k e = is_eligible now e.value ≡ true → k ≤ load e.value.id cs

abbrev pub IsNamed : Entry Node → Type 0
IsNamed e = e.value.id ≢ ""

-- What the loop has selected after the nodes `ns`: nothing, if none of them is eligible, or the
-- first of those that are eligible and carry the fewest containers, and how many these are.
pub data Chosen (now : ℕ) (cs : List (Entry Container)) (ns : List (Entry Node)) (s : String × ℕ)
    : Type 0 where
  nobody : All (Ineligible now) ns → s ≡ ("", 0) → Chosen now cs ns s
  best :
      (before after : List (Entry Node)) (e : Entry Node)
      → ns ≡ before ++ e ∷ after
      → IsNamed e
      → is_eligible now e.value ≡ true
      → s ≡ (e.value.id, load e.value.id cs)
      → All (Fuller now cs (load e.value.id cs)) before
      → All (NoEmptier now cs (load e.value.id cs)) after
      → Chosen now cs ns s

module _ (now : ℕ) (cs : List (Entry Container)) (counts : Counts) where
  -- An eligible node that carries fewer than those before it is selected.
  replaces :
      (ns before after : List (Entry Node)) (e x : Entry Node)
      → ns ≡ before ++ e ∷ after
      → load x.value.id cs < load e.value.id cs
      → All (Fuller now cs (load e.value.id cs)) before
      → All (NoEmptier now cs (load e.value.id cs)) after
      → All (Fuller now cs (load x.value.id cs)) ns
  replaces ns before after e x split less hb ha =
      subst (All (Fuller now cs (load x.value.id cs))) (sym split) (
        All-append _ before (e ∷ after) (All-map _ _ before (λ b h ok. omega (arith, h ok)) hb)
          (λ ok. less, All-map _ _ after (λ a h ok. omega (arith, h ok)) ha))

  consider-Chosen :
      (ns : List (Entry Node)) (x : Entry Node) (s : String × ℕ)
      → IsNamed x
      → count_of x.value.id counts ≡ load x.value.id cs
      → Chosen now cs ns s
      → Chosen now cs (ns ++ x ∷ []) (consider now counts x.value s)
  unfolding consider
  consider-Chosen ns x s named counted (nobody none_of start) =
      elim (Bool-cases (is_eligible now x.value)) [
        | inr e ↦ nobody (All-append _ ns (x ∷ []) none_of (e, tt)) (rw e start)
        | inl e ↦
            best ns [] x refl named e (rw (e, start, counted) (ground arith))
              (All-map _ _ ns (λ b h ok. absurd (ground arith)) none_of) tt
      ]
  consider-Chosen ns x s named counted (best before after y split y_named ok is hb ha) =
      elim (Bool-cases (is_eligible now x.value)) [
        | inr e ↦
            best before (after ++ x ∷ []) y
              (ap (λ l. l ++ x ∷ []) split ∙ append_assoc before (y ∷ after) (x ∷ [])) y_named ok
              (rw e is) hb (All-append _ after (x ∷ []) ha (λ h. absurd (ground arith), tt))
        | inl e ↦ elim (Bool-cases (ltb (load x.value.id cs) (load y.value.id cs))) [
          | inl l ↦
              best ns [] x refl named e (rw (e, is, counted) (ground arith))
                (replaces ns before after y x split (ground arith) hb ha) tt
          | inr l ↦
              best before (after ++ x ∷ []) y
                (ap (λ l. l ++ x ∷ []) split ∙ append_assoc before (y ∷ after) (x ∷ [])) y_named ok
                (rw (e, is, counted) (ground arith)) hb
                (All-append _ after (x ∷ []) ha (λ h. ground arith, tt))
        ]
      ]

  select-Chosen_from :
      (ns rest : List (Entry Node)) (s : String × ℕ)
      → All IsNamed rest
      → ((n : String) → n ≢ "" → count_of n counts ≡ load n cs)
      → Chosen now cs ns s
      → Chosen now cs (ns ++ rest) (select now counts rest s)
  unfolding select
  select-Chosen_from ns [] s named counted h = rw append-nil h
  select-Chosen_from ns (x ∷ rest) s named counted h =
      subst (λ l. Chosen now cs l (select now counts rest (consider now counts x.value s)))
        (append_assoc ns (x ∷ []) rest)
        (select-Chosen_from (ns ++ x ∷ []) rest (consider now counts x.value s) named.1 counted
          (consider-Chosen ns x s named.0 (counted x.value.id named.0) h))

-- The loop over the nodes, with the counts that the loop over the containers made, agrees with the
-- description of its choice: if every listed node has a non-empty ID, it ends with no node if none
-- is reachable and ready, and otherwise with the first of those that are and that carry the fewest
-- containers that have not exited.
pub select-Chosen :
    (now : ℕ) (cs : List (Entry Container)) (ns : List (Entry Node))
    → All IsNamed ns
    → Chosen now cs ns (select now (tally cs []) ns ("", 0))
select-Chosen now cs ns named =
    select-Chosen_from now cs (tally cs []) [] ns ("", 0) named (λ n h. tally-load n cs h)
      (nobody tt refl)
