-- ===== src/Store/Memory.antt =====
-- A bucket and an encoding that meet the contracts of Store/Bolt.antt: an association list, and
-- the value itself as its encoding.
use hambo.Base.{String, Option, none, some, List, [], ◌∷◌, ◌≡◌, refl, arith, if◌then◌else◌, ◌==◌}
use hambo.Store.{Table, IsLawful}
use hambo.Store.Bolt
use hambo.Store.Bolt.{Bolt, IsBucket, Codec, IsCodec, stored}
use hambo.Store.Collection.{Content, table}
use hambo.Store.Laws.{table-IsLawful}

module _ {D : Type 0} where
  unfoldable pub find : List (String × D) → String → Option D
  find [] k = none
  find ((j, d) ∷ rest) k = let found = find rest k in if j == k then some d else found

  unfoldable pub erase : String → List (String × D) → List (String × D)
  erase k [] = []
  erase k ((j, d) ∷ rest) = let others = erase k rest in if j == k then others else (j, d) ∷ others

  -- bbolt refuses an empty key.
  unfoldable pub put : List (String × D) → String → D → Option (List (String × D))
  unfolding erase
  put b k d = if k == "" then none else some ((k, d) ∷ erase k b)

  find-erase :
      (b : List (String × D)) (k j : String)
      → find (erase k b) j ≡ (if j == k then none else find b j)
  unfolding find erase
  find-erase [] k j = ground arith
  find-erase ((i, d) ∷ b) k j = ground (arith, find-erase b k j)

  find-put :
      (b b' : List (String × D)) (k j : String) (d : D)
      → put b k d ≡ some b'
      → find b' j ≡ (if j == k then some d else find b j)
  unfolding find put
  find-put b b' k j d h = ground (arith, find-erase b k j)

module _ {D : Type 0} where
  stored-erase :
      (l : List (String × Option D)) (k j : String)
      → stored j (erase k l) ≡ (if j == k then none else stored j l)
  unfolding stored erase
  stored-erase [] k j = ground arith
  stored-erase ((i, d) ∷ l) k j = ground (arith, stored-erase l k j)

  erase-UniqueKeys :
      (l : List (String × Option D)) (k : String) → Bolt.UniqueKeys l → Bolt.UniqueKeys (erase k l)
  unfolding erase
  erase-UniqueKeys [] k u = tt
  erase-UniqueKeys ((i, d) ∷ l) k u = ground (arith, stored-erase l k i, erase-UniqueKeys l k u.1)

  -- An entry behind another of its key is not seen.
  unfoldable pub entries : List (String × D) → List (String × Option D)
  unfolding erase
  entries [] = []
  entries ((k, d) ∷ rest) = (k, some d) ∷ erase k (entries rest)

  find-stored : (b : List (String × D)) (k : String) → find b k ≡ stored k (entries b)
  unfolding find stored entries
  find-stored [] k = refl
  find-stored ((j, d) ∷ b) k = ground (arith, find-stored b k, stored-erase (entries b) j k)

  entries-UniqueKeys : (b : List (String × D)) → Bolt.UniqueKeys (entries b)
  unfolding entries
  entries-UniqueKeys [] = tt
  entries-UniqueKeys ((k, d) ∷ b) = (
    ground (arith, stored-erase (entries b) k k),
    erase-UniqueKeys (entries b) k (entries-UniqueKeys b),
  )

  find-empty : (k : String) → find {D = D} [] k ≡ none
  unfolding find
  find-empty k = refl

abbrev pub memory : {D : Type 0} → Bolt (List (String × D)) D
memory = record {
  empty = [];
  get = find;
  put = put;
  delete = λ b k. some (erase k b);
  for_each = entries;
}

erased-find :
    {D : Type 0} (b b' : List (String × D)) (k j : String)
    → some (erase k b) ≡ some b'
    → find b' j ≡ (if j == k then none else find b j)
erased-find b b' k j h = ground (arith, find-erase b k j)

pub memory-IsBucket : {D : Type 0} → IsBucket (memory {D = D})
memory-IsBucket = record {
  get-empty = find-empty;
  put-get = find-put;
  delete-get = erased-find;
  for_each-get = find-stored;
  for_each-unique = entries-UniqueKeys;
}

abbrev pub plain : {T : Type 0} → Codec T T
plain = record { marshal = λ v. some v; unmarshal = λ v. some v }

pub plain-IsCodec : {T : Type 0} → IsCodec (plain {T = T})
plain-IsCodec v d h = ground arith

abbrev pub Memory : Type 0 → Type 0
Memory T = Content (List (String × T))

abbrev pub memory_table : {T : Type 0} → Table (Memory T) T
memory_table = table memory plain

pub memory_table-IsLawful : {T : Type 0} → IsLawful (memory_table {T = T})
memory_table-IsLawful = table-IsLawful memory-IsBucket plain-IsCodec
