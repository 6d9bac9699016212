-- ===== src/Store/Collection.antt =====
-- internal/store/collection.go and tx.go: the methods of a collection.
use hambo.Base.{
  String, Option, none, some, List, [], ◌∷◌, Result, ok, err, Error, not_found, already_exists,
  failure, or_fail, ◌>>=◌, ◌>>◌,
}
use hambo.Store.{Entry, Table}
use hambo.Store.Bolt.{Bolt, Codec}

abbrev pub no_collection : Error
no_collection = failure "collection does not exist"

abbrev pub not_encoded : Error
not_encoded = failure "encode entry"

abbrev pub not_decoded : Error
not_decoded = failure "decode entry"

abbrev pub not_written : Error
not_written = failure "bucket write"

abbrev pub nested : Error
nested = failure "unexpected nested bucket"

-- The content of a collection's bucket; `none` if the database has no bucket of its name.
abbrev pub Content : Type 0 → Type 0
Content B = Option B

module _ {B D T : Type 0} (bolt : Bolt B D) (json : Codec T D) where
  -- `NewCollection`: `CreateBucketIfNotExists`.
  unfoldable pub new_collection : Content B → Content B
  new_collection none = some bolt.empty
  new_collection (some b) = some b

  absent : Option D → Result (Unit {0})
  absent none = ok tt
  absent (some d) = err already_exists

  present : Option D → Result (Unit {0})
  present none = err not_found
  present (some d) = ok tt

  unfoldable pub create_tx : String → T → Content B → Result (Content B)
  unfolding absent
  create_tx key value c = do
    bucket ← or_fail c no_collection
    absent (bolt.get bucket key)
    data' ← or_fail (json.marshal value) not_encoded
    bucket' ← or_fail (bolt.put bucket key data') not_written
    ok (some bucket')

  unfoldable pub get_tx : String → Content B → Result T
  get_tx key c = do
    bucket ← or_fail c no_collection
    data' ← or_fail (bolt.get bucket key) not_found
    or_fail (json.unmarshal data') not_decoded

  unfoldable pub update_tx : String → T → Content B → Result (Content B)
  unfolding present
  update_tx key value c = do
    bucket ← or_fail c no_collection
    present (bolt.get bucket key)
    data' ← or_fail (json.marshal value) not_encoded
    bucket' ← or_fail (bolt.put bucket key data') not_written
    ok (some bucket')

  unfoldable pub modify_tx : String → (T → Result T) → Content B → Result (Content B)
  unfolding get_tx update_tx
  modify_tx key modify c = do value ← get_tx key c; value' ← modify value; update_tx key value' c

  unfoldable pub delete_tx : String → Content B → Result (Content B)
  delete_tx key c = do
    bucket ← or_fail c no_collection
    bucket' ← or_fail (bolt.delete bucket key) not_written
    ok (some bucket')

  -- One round of the `ForEach` of a listing.
  unfoldable pub decode_entry : String → Option D → Result (Entry T)
  decode_entry key data' = do
    present' ← or_fail data' nested
    value ← or_fail (json.unmarshal present') not_decoded
    ok (record { key = key; value = value })

  unfoldable pub decode_all : List (String × Option D) → Result (List (Entry T))
  unfolding decode_entry
  decode_all [] = ok []
  decode_all ((key, data') ∷ rest) = do
    entry ← decode_entry key data'
    entries ← decode_all rest
    ok (entry ∷ entries)

  unfoldable pub list_tx : Content B → Result (List (Entry T))
  unfolding decode_all
  list_tx c = do bucket ← or_fail c no_collection; decode_all (bolt.for_each bucket)

  abbrev pub table : Table (Content B) T
  table = record {
    create_tx = create_tx;
    get_tx = get_tx;
    update_tx = update_tx;
    delete_tx = delete_tx;
    list_tx = list_tx;
  }
