-- ===== src/Model/Names.antt =====
-- Changes of the stored containers that leave their names (internal/container/container.go).
use hambo.Base.{String, ◌≡◌, refl, sym, ap, ◌∙◌, arith, ok, dec_string}
use hambo.Model.Container.{Container}
use hambo.Model.Database.{Collections, AreLawful}

module _ {N C T : Type 0} (c : Collections N C T) where
  -- No two stored containers have one name.
  abbrev pub HasUniqueNames : C → Type 0
  HasUniqueNames s =
      (j k : String) (a b : Container)
      → c.containers.get_tx j s ≡ ok a
      → c.containers.get_tx k s ≡ ok b
      → a.name ≡ b.name
      → j ≡ k

  -- Whatever is stored afterwards was stored before, with the same name.
  abbrev pub KeepsNames : C → C → Type 0
  KeepsNames s s' =
      (j : String) (a' : Container)
      → c.containers.get_tx j s' ≡ ok a'
      → (a : Container) × (c.containers.get_tx j s ≡ ok a) × (a.name ≡ a'.name)

  pub KeepsNames-refl : (s s' : C) → s' ≡ s → KeepsNames s s'
  KeepsNames-refl s s' e j a h = (a, ap (λ x. c.containers.get_tx j x) (sym e) ∙ h, refl)

  pub KeepsNames-trans : (s t u : C) → KeepsNames s t → KeepsNames t u → KeepsNames s u
  KeepsNames-trans s t u p q j a h =
      let (b, hb, nb) = q j a h in let (d, hd, nd) = p j b hb in (d, hd, nd ∙ nb)

  pub KeepsNames-HasUniqueNames :
      (s s' : C) → KeepsNames s s' → HasUniqueNames s → HasUniqueNames s'
  KeepsNames-HasUniqueNames s s' kept unique j k a b ga gb same =
      let (x, hx, nx) = kept j a ga in
      let (y, hy, ny) = kept k b gb in unique j k x y hx hy (nx ∙ same ∙ sym ny)

  pub update-KeepsNames :
      AreLawful c
      → (id : String) (current value : Container) (s s' : C) → c.containers.get_tx id s ≡ ok current
      → value.name ≡ current.name
      → c.containers.update_tx id value s ≡ ok s'
      → KeepsNames s s'
  update-KeepsNames lawful id current value s s' found same h j a g = elim (dec_string j id) [
    | yes e ↦ (
      current,
      ap (λ k. c.containers.get_tx k s) e ∙ found,
      ground (arith, lawful.containers.update-get id j value s s' h),
    )
    | no ne ↦ (a, ground (arith, lawful.containers.update-get id j value s s' h), refl)
  ]
