-- ===== src/Store/Bolt.antt =====
-- What internal/store relies on of go.etcd.io/bbolt and of encoding/json, as parameters.
use hambo.Base.{String, Option, none, some, List, [], ◌∷◌, ◌≡◌, if◌then◌else◌, ◌==◌}

-- One bucket of type `B`, with stored data of type `D`. A write fails on an empty or oversized
-- key or value, for example. `for_each` gives each key once, with no data for a nested bucket.
pub record Bolt (B D : Type 0) : Type 0 where
  pub empty : B
  pub get : B → String → Option D
  pub put : B → String → D → Option B
  pub delete : B → String → Option B
  pub for_each : B → List (String × Option D)

-- What a key holds in a listing; a nested bucket is no value.
unfoldable pub stored : {D : Type 0} → String → List (String × Option D) → Option D
stored k [] = none
stored k ((j, d) ∷ rest) = let found = stored k rest in if j == k then d else found

abbrev pub UniqueKeys : {D : Type 0} → List (String × Option D) → Type 0
UniqueKeys [] = Unit {0}
UniqueKeys ((k, d) ∷ rest) = (stored k rest ≡ none) × UniqueKeys rest

-- The documented behaviour of a bucket.
pub record IsBucket {B D : Type 0} (b : Bolt B D) : Type 0 where
  pub get-empty : (k : String) → b.get b.empty k ≡ none
  pub put-get :
      (s s' : B) (k j : String) (d : D)
      → b.put s k d ≡ some s'
      → b.get s' j ≡ (if j == k then some d else b.get s j)
  pub delete-get :
      (s s' : B) (k j : String)
      → b.delete s k ≡ some s'
      → b.get s' j ≡ (if j == k then none else b.get s j)
  pub for_each-get : (s : B) (k : String) → b.get s k ≡ stored k (b.for_each s)
  pub for_each-unique : (s : B) → UniqueKeys (b.for_each s)

-- `json.Marshal` and `json.Unmarshal` at one type. Either may fail.
pub record Codec (T D : Type 0) : Type 0 where
  pub marshal : T → Option D
  pub unmarshal : D → Option T

-- What was encoded is decoded to the value that it was.
abbrev pub IsCodec : {T D : Type 0} → Codec T D → Type 0
IsCodec {T} {D} c = (v : T) (d : D) → c.marshal v ≡ some d → c.unmarshal d ≡ some v
