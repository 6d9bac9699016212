-- ===== src/SimpleWorker/Docker/Pulls.antt =====
-- When cmd/simpleworker/docker.go pulls an image.
use hambo.Base.{
  String, Result, ok, err, Error, ◌≡◌, ◌≢◌, refl, arith, dec_string, differ, sym, subst, ◌∙◌,
}
use hambo.SimpleWorker.{pull_missing, pull_always, pull_never}
use hambo.SimpleWorker.Docker.{
  Docker, Image, Inspected, found, absent, broken, inspect_image, inspect_after, wait_after, pull,
  pull_if_missing, ensure_image,
}

module _ {D : Type 0} (docker : Docker D) where
  -- The pull began and was waited for, and left this daemon.
  pub record Pulled (name : String) (d d' : D) : Type 0 where
    pub between : D
    pub begun : docker.image_pull name d ≡ (ok tt, between)
    pub waited : docker.pull_wait name between ≡ (ok tt, d')

  inspected_at :
      (name : String) (d : D) (i : Inspected Image) (image : Image)
      → docker.image_inspect name d ≡ i
      → inspect_image docker name d ≡ ok image
      → docker.image_inspect name d ≡ found image
  unfolding inspect_image
  inspected_at name d (found x) image e h = ground arith
  inspected_at name d (absent x) image e h = absurd (ground arith)
  inspected_at name d (broken x) image e h = absurd (ground arith)

  inspect_after-found :
      (name : String) (x : Result (Unit {0}) × D) (image : Image) (d' : D)
      → inspect_after docker name x ≡ (ok image, d')
      → (x ≡ (ok tt, d')) × (docker.image_inspect name d' ≡ found image)
  unfolding inspect_after
  inspect_after-found name (err e, d) image d' h = absurd (ground arith)
  inspect_after-found name (ok u, d) image d' h =
      (ground arith, ground (arith, inspected_at name d (docker.image_inspect name d) image refl))

  wait_after-Pulled :
      (name : String) (x : Result (Unit {0}) × D) (image : Image) (d d' : D)
      → docker.image_pull name d ≡ x
      → wait_after docker name x ≡ (ok image, d')
      → Pulled name d d' × (docker.image_inspect name d' ≡ found image)
  unfolding wait_after
  wait_after-Pulled name (err e, b) image d d' p h = absurd (ground arith)
  wait_after-Pulled name (ok u, b) image d d' p h =
      let is = inspect_after-found name (docker.pull_wait name b) image d' h in
      (record { between = b; begun = p; waited = is.0 }, is.1)

  pull-Pulled :
      (name : String) (d d' : D) (image : Image)
      → pull docker name d ≡ (ok image, d')
      → Pulled name d d' × (docker.image_inspect name d' ≡ found image)
  unfolding pull
  pull-Pulled name d d' image h =
      wait_after-Pulled name (docker.image_pull name d) image d d' refl h

  -- Why a pull was made, or not.
  pub data Because (name policy : String) (d d' : D) : Type 0 where
    not_pulled : d' ≡ d → policy ≢ pull_always → Because name policy d d'
    was_missing :
        (e : Error)
        → policy ≡ pull_missing
        → docker.image_inspect name d ≡ absent e
        → Pulled name d d'
        → Because name policy d d'
    always : policy ≡ pull_always → Pulled name d d' → Because name policy d d'

  if_missing_at :
      (name : String) (i : Inspected Image) (d d' : D) (image : Image)
      → docker.image_inspect name d ≡ i
      → pull_if_missing docker name i d ≡ (ok image, d')
      → Because name pull_missing d d' × (docker.image_inspect name d' ≡ found image)
  unfolding pull_if_missing
  if_missing_at name (found x) d d' image e h = (
    not_pulled (ground arith) (differ pull_missing pull_always (unfold dec_string in refl)),
    ground arith,
  )
  if_missing_at name (absent x) d d' image e h =
      let is = pull-Pulled name d d' image h in (was_missing x refl e is.0, is.1)
  if_missing_at name (broken x) d d' image e h = absurd (ground arith)

  pub ensure_image-Because :
      (name policy : String) (d d' : D) (image : Image)
      → ensure_image docker name policy d ≡ (ok image, d')
      → Because name policy d d' × (docker.image_inspect name d' ≡ found image)
  unfolding ensure_image
  ensure_image-Because name policy d d' image h = elim (dec_string policy pull_never) [
    | yes n ↦ (
      not_pulled (ground arith)
          (λ a. differ pull_never pull_always (unfold dec_string in refl) (sym n ∙ a)),
      ground (arith, inspected_at name d (docker.image_inspect name d) image refl),
    )
    | no nn ↦ elim (dec_string policy pull_missing) [
      | yes m ↦
          subst (λ p. Because name p d d' × (docker.image_inspect name d' ≡ found image)) (sym m)
            (if_missing_at name (docker.image_inspect name d) d d' image refl (ground arith))
      | no nm ↦ elim (dec_string policy pull_always) [
        | yes a ↦ let is = pull-Pulled name d d' image (ground arith) in (always a is.0, is.1)
        | no na ↦ absurd (ground arith)
      ]
    ]
  ]
