-- ===== src/Store/Laws.antt =====
-- The collections of internal/store against the contract of Store.antt, over any bucket and
-- encoding.
use hambo.Base.{
  String, Option, none, some, List, [], ◌∷◌, ◌≡◌, ◌≢◌, refl, sym, arith, inl, inr, Result, ok, err,
  not_found, if◌then◌else◌, ◌==◌, or_fail, ◌>>=◌, ok-injective, Option-cases, Result-cases,
}
use hambo.Store.{Entry, IsLawful, find_entry, UniqueKeys}
use hambo.Store.Bolt
use hambo.Store.Bolt.{Bolt, IsBucket, Codec, IsCodec, stored}
use hambo.Store.Collection.{
  Content, create_tx, get_tx, update_tx, delete_tx, list_tx, decode_all, table, not_decoded,
}

module _ {B D T : Type 0} {bolt : Bolt B D} {json : Codec T D} (bucket : IsBucket bolt)
    (codec : IsCodec json) where
  -- A write of a value is read back, and nothing else changes.
  put-get_tx :
      (b b' : B) (k j : String) (v : T) (d : D)
      → json.marshal v ≡ some d
      → bolt.put b k d ≡ some b'
      → get_tx bolt json j (some b') ≡ (if j == k then ok v else get_tx bolt json j (some b))
  unfolding get_tx
  put-get_tx b b' k j v d m p = rw (bucket.put-get b b' k j d p) (ground (arith, codec v d m))

  create-get :
      (k j : String) (v : T) (s s' : Content B)
      → create_tx bolt json k v s ≡ ok s'
      → get_tx bolt json j s' ≡ (if j == k then ok v else get_tx bolt json j s)
  unfolding create_tx
  create-get k j v none s' h = cc
  create-get k j v (some b) s' h = elim (Option-cases (json.marshal v)) [
    | inl e ↦ absurd (ground arith)
    | inr (d, e) ↦ elim (Option-cases (bolt.put b k d)) [
      | inl p ↦ absurd (ground arith)
      | inr (b', p) ↦ ground (arith, put-get_tx b b' k j v d e p)
    ]
  ]

  update-get :
      (k j : String) (v : T) (s s' : Content B)
      → update_tx bolt json k v s ≡ ok s'
      → get_tx bolt json j s' ≡ (if j == k then ok v else get_tx bolt json j s)
  unfolding update_tx
  update-get k j v none s' h = cc
  update-get k j v (some b) s' h = elim (Option-cases (json.marshal v)) [
    | inl e ↦ absurd (ground arith)
    | inr (d, e) ↦ elim (Option-cases (bolt.put b k d)) [
      | inl p ↦ absurd (ground arith)
      | inr (b', p) ↦ ground (arith, put-get_tx b b' k j v d e p)
    ]
  ]

  delete-get :
      (k j : String) (s s' : Content B)
      → delete_tx bolt json k s ≡ ok s'
      → get_tx bolt json j s' ≡ (if j == k then err not_found else get_tx bolt json j s)
  unfolding delete_tx get_tx
  delete-get k j none s' h = cc
  delete-get k j (some b) s' h = elim (Option-cases (bolt.delete b k)) [
    | inl p ↦ absurd (ground arith)
    | inr (b', p) ↦ ground (arith, bucket.delete-get b b' k j p)
  ]

  -- What a key of a listing decodes to.
  abbrev read : Option D → Result T
  read d = do data' ← or_fail d not_found; or_fail (json.unmarshal data') not_decoded

  decode_all-find :
      (k : String) (l : List (String × Option D)) (es : List (Entry T))
      → decode_all bolt json l ≡ ok es
      → find_entry k es ≡ read (stored k l)
  unfolding decode_all find_entry stored
  decode_all-find k [] es h = rw (← ok-injective _ _ h) refl
  decode_all-find k ((j, none) ∷ l) es h = cc
  decode_all-find k ((j, some d) ∷ l) es h = elim (Option-cases (json.unmarshal d)) [
    | inl e ↦ absurd (ground arith)
    | inr (v, e) ↦ elim (Result-cases (decode_all bolt json l)) [
      | inl (es', p) ↦ ground (arith, decode_all-find k l es' p)
      | inr (x, p) ↦ absurd (ground arith)
    ]
  ]

  decode_all-UniqueKeys :
      (l : List (String × Option D)) (es : List (Entry T))
      → Bolt.UniqueKeys l
      → decode_all bolt json l ≡ ok es
      → UniqueKeys es
  unfolding decode_all
  decode_all-UniqueKeys [] es u h = rw (← ok-injective _ _ h) tt
  decode_all-UniqueKeys ((j, none) ∷ l) es u h = cc
  decode_all-UniqueKeys ((j, some d) ∷ l) es u h = elim (Option-cases (json.unmarshal d)) [
    | inl e ↦ absurd (ground arith)
    | inr (v, e) ↦ elim (Result-cases (decode_all bolt json l)) [
      | inl (es', p) ↦ ground (arith, decode_all-find j l es' p, decode_all-UniqueKeys l es' u.1 p)
      | inr (x, p) ↦ absurd (ground arith)
    ]
  ]

  list-get :
      (k : String) (s : Content B) (es : List (Entry T))
      → list_tx bolt json s ≡ ok es
      → get_tx bolt json k s ≡ find_entry k es
  unfolding list_tx get_tx
  list-get k none es h = cc
  list-get k (some b) es h =
      rw (bucket.for_each-get b k) (sym (decode_all-find k (bolt.for_each b) es h))

  list-UniqueKeys :
      (s : Content B) (es : List (Entry T)) → list_tx bolt json s ≡ ok es → UniqueKeys es
  unfolding list_tx
  list-UniqueKeys none es h = cc
  list-UniqueKeys (some b) es h =
      decode_all-UniqueKeys (bolt.for_each b) es (bucket.for_each-unique b) h

  create-fresh :
      (k : String) (v : T) (s s' : Content B)
      → create_tx bolt json k v s ≡ ok s'
      → get_tx bolt json k s ≡ err not_found
  unfolding create_tx get_tx
  create-fresh k v none s' h = cc
  create-fresh k v (some b) s' h = ground arith

  update-known :
      (k : String) (v w : T) (s : Content B)
      → get_tx bolt json k s ≡ ok w
      → update_tx bolt json k v s ≢ err not_found
  unfolding update_tx get_tx
  update-known k v w none h = λ e. cc
  update-known k v w (some b) h = λ e. ground arith

  update-unknown :
      (k : String) (v : T) (s : Content B)
      → get_tx bolt json k s ≡ err not_found
      → update_tx bolt json k v s ≡ err not_found
  unfolding update_tx get_tx
  update-unknown k v none h = cc
  update-unknown k v (some b) h = ground arith

  -- A collection whose bucket and whose encoding behave as documented implements a lawful table:
  -- what `CreateTx` and `UpdateTx` wrote is read back under its key and nothing else changes,
  -- `CreateTx` writes only a key that was free, `DeleteTx` removes one key, and a listing has each
  -- key once and agrees with `GetTx`.
  pub table-IsLawful : IsLawful (table bolt json)
  table-IsLawful = record {
    create-get = create-get;
    create-fresh = create-fresh;
    update-get = update-get;
    update-known = update-known;
    update-unknown = update-unknown;
    delete-get = delete-get;
    list-get = list-get;
    list-UniqueKeys = list-UniqueKeys;
  }
