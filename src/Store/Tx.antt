-- ===== src/Store/Tx.antt =====
-- internal/store/tx.go `WriteTx`, and the methods of internal/store/collection.go that make a
-- transaction of their own. `View` and `Update` of bbolt are as documented: `Update` commits
-- what its function did, or, on any error, leaves the database as it was. Whether bbolt can
-- begin and commit a transaction is an argument.
use hambo.Base.{
  String, Bool, true, List, ◌≡◌, Result, ok, err, Error, failure, if◌then◌else◌, ◌>>=◌, inl, inr,
  ◌⊎◌, none, some, Bool-cases, Result-cases,
}
use hambo.Store.{Entry}
use hambo.Store.Bolt.{Bolt, Codec}
use hambo.Store.Collection.{Content, create_tx, get_tx, modify_tx, delete_tx, list_tx, not_encoded}

pub record Faults : Type 0 where
  pub begins : Bool
  pub commits : Bool

abbrev pub not_begun : Error
not_begun = failure "begin transaction"

abbrev pub not_committed : Error
not_committed = failure "commit transaction"

commit : {S A : Type 0} → Faults → S → Result (A × S) → Result A × S
commit f s (err e) = (err e, s)
commit f s (ok (a, s')) = if f.commits then (ok a, s') else (err not_committed, s)

-- `WriteTx`, over a function that reads and writes the whole database `S`.
unfoldable pub write_tx : {S A : Type 0} → Faults → (S → Result (A × S)) → S → Result A × S
unfolding commit
write_tx f fn s = if f.begins then commit f s (fn s) else (err not_begun, s)

-- A read-only transaction.
unfoldable pub view : {S A : Type 0} → Faults → (S → Result A) → S → Result A
view f fn s = if f.begins then fn s else err not_begun

-- A write transaction either ends with an error and leaves the database as it was, or ends with the
-- result of its function and the database that the function made.
pub write_tx-atomic :
    {S A : Type 0} (f : Faults) (fn : S → Result (A × S)) (s : S)
    → ((e : Error) × (write_tx f fn s ≡ (err e, s)))
      ⊎ ((a : A) × (s' : S) × (fn s ≡ ok (a, s')) × (write_tx f fn s ≡ (ok a, s')))
unfolding write_tx
write_tx-atomic f fn s = elim (Result-cases (fn s)) [
  | inr (e, p) ↦ elim (Bool-cases f.begins) [
    | inl b ↦ inl (e, rw (b, p))
    | inr b ↦ inl (not_begun, rw b)
  ]
  | inl (r, p) ↦ elim (Bool-cases f.begins) [
    | inl b ↦ elim (Bool-cases f.commits) [
      | inl c ↦ inr (r.0, r.1, p, rw (b, p, commit, c))
      | inr c ↦ inl (not_committed, rw (b, p, commit, c))
    ]
    | inr b ↦ inl (not_begun, rw b)
  ]
]

-- A transaction that can begin and commit does what its function does.
pub write_tx-runs :
    {S A : Type 0} (f : Faults) (fn : S → Result (A × S)) (s s' : S) (a : A)
    → f.begins ≡ true
    → f.commits ≡ true
    → fn s ≡ ok (a, s')
    → write_tx f fn s ≡ (ok a, s')
unfolding write_tx
write_tx-runs f fn s s' a b c h = rw (b, h, commit, c)

-- The methods that open a transaction of their own, over the content of the bucket.
module _ {B D T : Type 0} (bolt : Bolt B D) (json : Codec T D) (f : Faults) where
  abbrev silent : Result (Content B) → Result (Unit {0} × Content B)
  silent r = do c ← r; ok (tt, c)

  -- `Create` encodes before it opens the transaction.
  unfoldable pub create : String → T → Content B → Result (Unit {0}) × Content B
  create key value c = elim (json.marshal value) [
    | none ↦ (err not_encoded, c)
    | some d ↦ write_tx f (λ c. silent (create_tx bolt json key value c)) c
  ]

  unfoldable pub get : String → Content B → Result T
  get key c = view f (get_tx bolt json key) c

  unfoldable pub modify : String → (T → Result T) → Content B → Result (Unit {0}) × Content B
  modify key change c = write_tx f (λ c. silent (modify_tx bolt json key change c)) c

  unfoldable pub delete : String → Content B → Result (Unit {0}) × Content B
  delete key c = write_tx f (λ c. silent (delete_tx bolt json key c)) c

  unfoldable pub list : Content B → Result (List (Entry T))
  list c = view f (list_tx bolt json) c
