-- ===== src/Api/Join/Cases.antt =====
-- The two ways in which `joinNodeHandler` (internal/api/nodes.go) answers with a token.
use hambo.Base.{
  ℕ, String, List, ◌≡◌, ◌⊎◌, arith, Option, none, some, Result, ok, Result-cases, inl, inr,
}
use hambo.Model.Token.{Metadata, EnrollmentResult}
use hambo.Model.Database.{Database, Collections, AreLawful}
use hambo.Api.Join.{JoinNodeRequest, Joined, join_tx, use_token, retry, retried}
use hambo.Api.Join.Enroll.{Enrolled, enroll-Enrolled}
use hambo.Api.Join.Retry.{join_tx-token}

module _ {N C T : Type 0} (c : Collections N C T)
    (issue : ℕ → String → List ℕ → Result String) where
  retry-kept :
      (hash : String) (e : EnrollmentResult) (j : Joined) (db db' : Database N C T)
      → retry c issue hash e db ≡ ok (j, db')
      → db' ≡ db
  unfolding retry retried
  retry-kept hash e j db db' h = elim (Result-cases (c.nodes.get_tx e.node_id db.nodes)) [
    | inr (x, p) ↦ ground arith
    | inl (n, p) ↦ ground arith
  ]

  use_token_cases :
      AreLawful c
      → (now : ℕ) (node_id secret_hash request_hash : String) (request : JoinNodeRequest)
        (m : Metadata) (o : Option EnrollmentResult) (j : Joined) (db db' : Database N C T)
      → use_token c issue now node_id secret_hash request_hash request m o db ≡ ok (j, db')
      → (db' ≡ db) ⊎ Enrolled c issue node_id secret_hash request_hash request m j db db'
  unfolding use_token
  use_token_cases lawful now node_id secret_hash request_hash request m (some e) j db db' h =
      inl (retry-kept request_hash e j db db' h)
  use_token_cases lawful now node_id secret_hash request_hash request m none j db db' h =
      inr (enroll-Enrolled c issue lawful now node_id secret_hash request_hash request m j db db' h)

  pub join_tx_cases :
      AreLawful c
      → (now : ℕ) (node_id secret_hash request_hash : String) (request : JoinNodeRequest)
        (j : Joined) (db db' : Database N C T)
      → join_tx c issue now node_id secret_hash request_hash request db ≡ ok (j, db')
      → (db' ≡ db)
        ⊎ ((m : Metadata) × Enrolled c issue node_id secret_hash request_hash request m j db db')
  join_tx_cases lawful now node_id secret_hash request_hash request j db db' h =
      let (m, found, t, used) =
        join_tx-token c issue now node_id secret_hash request_hash request db (j, db') h in
      elim (use_token_cases lawful now node_id secret_hash request_hash request m m.enrollment j db
        db' used) [ inl e ↦ inl e | inr e ↦ inr (m, e) ]
