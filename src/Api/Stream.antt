-- ===== src/Api/Stream.antt =====
-- `jsonStream` of internal/api/json.go: values that are sent one after another, up to an error.
use hambo.Base.{
  Bool, true, List, [], ◌∷◌, ◌++◌, Option, none, some, Result, ok, err, Error, if◌then◌else◌, ◌≡◌,
  refl, arith, ◌∙◌, subst, some-injective,
}
use mathlib.Core.List.{append_assoc, append-nil}

-- What was sent and flushed, and the field `err`.
pub record JsonStream (V : Type 0) : Type 0 where
  pub sent : List V
  pub error : Option Error

-- Whether the response writer is an `http.Flusher`.
unfoldable pub start_json_stream : {V : Type 0} → Bool → Option (JsonStream V)
start_json_stream flushes = if flushes then some (record { sent = []; error = none }) else none

-- A value with what its encoding to the writer comes to.
abbrev pub Write : Type 0 → Type 0
Write V = V × Result (Unit {0})

encode : {V : Type 0} → V → Result (Unit {0}) → JsonStream V → Result (Unit {0}) × JsonStream V
encode v (err e) s = (err e, record s { error = some e })
encode v (ok u) s = (ok tt, record s { sent = s.sent ++ v ∷ [] })

write_at : {V : Type 0} → Option Error → Write V → JsonStream V → Result (Unit {0}) × JsonStream V
unfolding encode
write_at (some e) w s = (err e, s)
write_at none (v, r) s = encode v r s

unfoldable pub write : {V : Type 0} → Write V → JsonStream V → Result (Unit {0}) × JsonStream V
unfolding write_at
write w s = write_at s.error w s

-- Writes in turn, whether or not their errors are looked at.
unfoldable pub write_all : {V : Type 0} → List (Write V) → JsonStream V → JsonStream V
unfolding write
write_all [] s = s
write_all (w ∷ ws) s = write_all ws (write w s).1

-- The values up to the first whose encoding fails, and its error.
abbrev pub up_to_error : {V : Type 0} → List (Write V) → List V × Option Error
up_to_error [] = ([], none)
up_to_error ((v, err e) ∷ ws) = ([], some e)
up_to_error ((v, ok u) ∷ ws) = (v ∷ (up_to_error ws).0, (up_to_error ws).1)

module _ {V : Type 0} where
  stuck :
      (ws : List (Write V)) (sent : List V) (e : Error)
      → write_all ws (record { sent = sent; error = some e })
        ≡ record { sent = sent; error = some e }
  unfolding write_all write write_at
  stuck [] sent e = refl
  stuck (w ∷ ws) sent e = stuck ws sent e

  from :
      (ws : List (Write V)) (sent : List V)
      → write_all ws (record { sent = sent; error = none })
        ≡ record { sent = sent ++ (up_to_error ws).0; error = (up_to_error ws).1 }
  unfolding write_all write write_at encode
  from [] sent = ground (arith, append-nil sent)
  from ((v, err e) ∷ ws) sent = stuck ws sent e ∙ ground (arith, append-nil sent)
  from ((v, ok u) ∷ ws) sent =
      from ws (sent ++ v ∷ []) ∙ ground (arith, append_assoc sent (v ∷ []) (up_to_error ws).0)

  -- Over any writes to a stream that was started, in turn and whether or not their errors are
  -- looked at, what is sent are the values before the first whose encoding fails, and the stream's
  -- error is that of this one.
  pub write_all-up_to_error :
      (ws : List (Write V)) (s : JsonStream V)
      → start_json_stream true ≡ some s
      → write_all ws s ≡ record { sent = (up_to_error ws).0; error = (up_to_error ws).1 }
  unfolding start_json_stream
  write_all-up_to_error ws s h =
      subst (λ t. write_all ws t ≡ record { sent = (up_to_error ws).0; error = (up_to_error ws).1 })
        (some-injective (record { sent = []; error = none }) s h) (from ws [])
