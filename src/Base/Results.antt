-- ===== src/Base/Results.antt =====
-- Go's `(value, error)` results as values. A wrapped error is the error that it wraps, since
-- the code tells errors apart by `errors.Is` alone.
use Prim.Native.String.{String}
use mathlib.Core.Path.{◌≡◌, refl}
use mathlib.Core.Logic.{◌⊎◌, inl, inr}
use mathlib.Core.Option.{Option, none, some}

-- The sentinels of errdefs/errors.go.
pub data Kind : Type 0 where
  invalid_argument unauthenticated permission_denied missing method_not_allowed : Kind
  conflict internal unavailable : Kind

-- `already_exists` and `not_found` are the store's sentinels. `errdef` carries a sentinel of
-- errdefs and the message that the code sets beside it. `duplicate_name` is `errNameExists` of
-- internal/api/containers.go. The rest are errors that the code only
-- passes on.
pub data Error : Type 0 where
  already_exists not_found : Error
  duplicate_name : Error
  errdef : Kind → String → Error
  failure : String → Error

-- A value or the reason why there is none.
pub data Result {ℓ} (T : Type ℓ) : Type ℓ where
  err : Error → Result T
  ok : T → Result T

pub Result-cases {ℓ} :
    {T : Type ℓ} (res : Result T) → ((v : T) × (res ≡ ok v)) ⊎ ((e : Error) × (res ≡ err e))
Result-cases (err e) = inr (e, refl)
Result-cases (ok v) = inl (v, refl)

pub ok-injective {ℓ} : {T : Type ℓ} (v w : T) → ok v ≡ ok w → v ≡ w
ok-injective v w h = cc

-- A missing value becomes the given error.
abbrev pub or_fail {ℓ} : {T : Type ℓ} → Option T → Error → Result T
or_fail (some v) cause = ok v
or_fail none cause = err cause

infixl 5 ◌>>=◌ ◌>>◌
-- `if err != nil { return err }`, and what follows it.
abbrev pub ◌>>=◌ {ℓ ℓ'} : {T : Type ℓ} {U : Type ℓ'} → Result T → (T → Result U) → Result U
err cause >>= next = err cause
ok v >>= next = next v

abbrev pub ◌>>◌ {ℓ} : {U : Type ℓ} → Result (Unit {0}) → Result U → Result U
checked >> next = checked >>= λ done. next
