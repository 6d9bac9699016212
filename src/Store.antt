-- ===== src/Store.antt =====
-- internal/store: typed collections over buckets of bbolt.
-- `Table` is what the scheduler and the handlers use of a collection, `IsLawful` what they rely
-- on; Store/Collection.antt has the code's collection.
pub mod Bolt
pub mod Collection
pub mod Laws
pub mod Memory
pub mod Tx
pub mod File
use hambo.Base.{
  String, List, [], ◌∷◌, ◌≡◌, ◌≢◌, if◌then◌else◌, ◌==◌, Result, ok, err, Error, not_found,
  already_exists,
}

pub record Entry (T : Type 0) : Type 0 where
  pub key : String
  pub value : T

-- The operations of a collection inside a transaction, over the content `S` of its bucket.
pub record Table (S T : Type 0) : Type 0 where
  pub create_tx : String → T → S → Result S
  pub get_tx : String → S → Result T
  pub update_tx : String → T → S → Result S
  pub delete_tx : String → S → Result S
  pub list_tx : S → Result (List (Entry T))

-- What the entries of a listing hold under a key.
unfoldable pub find_entry : {T : Type 0} → String → List (Entry T) → Result T
find_entry k [] = err not_found
find_entry k (e ∷ es) = let rest = find_entry k es in if e.key == k then ok e.value else rest

-- No key stands twice in a listing.
abbrev pub UniqueKeys : {T : Type 0} → List (Entry T) → Type 0
UniqueKeys [] = Unit {0}
UniqueKeys (e ∷ es) = (find_entry e.key es ≡ err not_found) × UniqueKeys es

pub record IsLawful {S T : Type 0} (t : Table S T) : Type 0 where
  pub create-get :
      (k j : String) (v : T) (s s' : S)
      → t.create_tx k v s ≡ ok s'
      → t.get_tx j s' ≡ (if j == k then ok v else t.get_tx j s)
  pub create-fresh :
      (k : String) (v : T) (s s' : S) → t.create_tx k v s ≡ ok s' → t.get_tx k s ≡ err not_found
  pub update-get :
      (k j : String) (v : T) (s s' : S)
      → t.update_tx k v s ≡ ok s'
      → t.get_tx j s' ≡ (if j == k then ok v else t.get_tx j s)
  pub update-known :
      (k : String) (v w : T) (s : S) → t.get_tx k s ≡ ok w → t.update_tx k v s ≢ err not_found
  pub update-unknown :
      (k : String) (v : T) (s : S)
      → t.get_tx k s ≡ err not_found
      → t.update_tx k v s ≡ err not_found
  pub delete-get :
      (k j : String) (s s' : S)
      → t.delete_tx k s ≡ ok s'
      → t.get_tx j s' ≡ (if j == k then err not_found else t.get_tx j s)
  pub list-get :
      (k : String) (s : S) (es : List (Entry T))
      → t.list_tx s ≡ ok es
      → t.get_tx k s ≡ find_entry k es
  pub list-UniqueKeys : (s : S) (es : List (Entry T)) → t.list_tx s ≡ ok es → UniqueKeys es
