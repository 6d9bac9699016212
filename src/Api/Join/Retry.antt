-- ===== src/Api/Join/Retry.antt =====
-- Several requests with one token (internal/api/nodes.go, `joinNodeHandler`).
use hambo.Base.{
  ℕ, ◌<◌, String, List, ◌≡◌, ◌≢◌, refl, sym, ◌∙◌, arith, Option, none, some, Result, ok, err,
  Result-cases, inl, inr, ok-injective, subst,
}
use hambo.Model.Node.{Node}
use hambo.Model.Token.{Metadata, EnrollmentResult, expired}
use hambo.Model.Database.{Database, Collections, AreLawful}
use hambo.Api.Http.{JoinNodeResponse}
use hambo.Api.Join.{
  JoinNodeRequest, Joined, other_request, fresh_node, enrolled, use_token, retry, retried,
  token_found, join_tx,
}
use hambo.Api.Join.Enroll.{enroll-Enrolled}

module _ {N C T : Type 0} (c : Collections N C T)
    (issue : ℕ → String → List ℕ → Result String) where
  -- A request is answered only with a stored token that is not past its time.
  pub join_tx-token :
      (now : ℕ) (node_id secret_hash request_hash : String) (request : JoinNodeRequest)
      (db : Database N C T) (r : Joined × Database N C T)
      → join_tx c issue now node_id secret_hash request_hash request db ≡ ok r
      → (m : Metadata) × (c.tokens.get_tx secret_hash db.tokens ≡ ok m)
        × (now < m.expires_at)
        × (use_token c issue now node_id secret_hash request_hash request m m.enrollment db ≡ ok r)
  unfolding join_tx token_found expired
  join_tx-token now node_id secret_hash request_hash request db r h =
      elim (Result-cases (c.tokens.get_tx secret_hash db.tokens)) [
        | inr (e, p) ↦ absurd (ground arith)
        | inl (m, p) ↦ (m, p, ground arith, ground arith)
      ]

  -- The token holds the answer to the request of this hash, and its node is stored.
  pub record Holds (secret_hash request_hash : String) (m : Metadata) (response : JoinNodeResponse)
      (db : Database N C T) : Type 0 where
    pub stored :
        c.tokens.get_tx secret_hash db.tokens
        ≡ ok (record m {
          enrollment = some (enrolled request_hash response.node_id response.certificate);
        })
    pub node : (n : Node) × (c.nodes.get_tx response.node_id db.nodes ≡ ok n)

  retried-Holds :
      (secret_hash request_hash : String) (m : Metadata) (e : EnrollmentResult) (j : Joined)
      (db db' : Database N C T)
      → c.tokens.get_tx secret_hash db.tokens ≡ ok m
      → m.enrollment ≡ some e
      → retry c issue request_hash e db ≡ ok (j, db')
      → Holds secret_hash request_hash m j.response db'
  unfolding retry retried
  retried-Holds secret_hash request_hash m e j db db' found used h =
      elim (Result-cases (c.nodes.get_tx e.node_id db.nodes)) [
        | inr (x, p) ↦ absurd (ground arith)
        | inl (n, p) ↦ record { stored = ground arith; node = (n, ground arith) }
      ]

  held_again :
      (later : ℕ) (node_id secret_hash request_hash : String) (request : JoinNodeRequest)
      (m : Metadata) (response : JoinNodeResponse) (db : Database N C T)
      → Holds secret_hash request_hash m response db
      → later < m.expires_at
      → join_tx c issue later node_id secret_hash request_hash request db
        ≡ ok (record { status_code = 200; response = response }, db)
  unfolding join_tx token_found use_token retry retried expired
  held_again later node_id secret_hash request_hash request m response db holds in_time =
      ground (arith, holds.stored, holds.node.1)

  held_other :
      (later : ℕ) (node_id secret_hash request_hash other_hash : String) (request : JoinNodeRequest)
      (m : Metadata) (response : JoinNodeResponse) (db : Database N C T)
      → Holds secret_hash request_hash m response db
      → later < m.expires_at
      → other_hash ≢ request_hash
      → join_tx c issue later node_id secret_hash other_hash request db ≡ err other_request
  unfolding join_tx token_found use_token retry expired
  held_other later node_id secret_hash request_hash other_hash request m response db holds in_time
        ne =
      ground (arith, holds.stored)

  module _ (lawful : AreLawful c) where
    use_token-Holds :
        (now : ℕ) (node_id secret_hash request_hash : String) (request : JoinNodeRequest)
        (m : Metadata) (o : Option EnrollmentResult) (j : Joined) (db db' : Database N C T)
        → c.tokens.get_tx secret_hash db.tokens ≡ ok m
        → m.enrollment ≡ o
        → use_token c issue now node_id secret_hash request_hash request m o db ≡ ok (j, db')
        → Holds secret_hash request_hash m j.response db'
    unfolding use_token
    use_token-Holds now node_id secret_hash request_hash request m (some e) j db db' found used h =
        retried-Holds secret_hash request_hash m e j db db' found used h
    use_token-Holds now node_id secret_hash request_hash request m none j db db' found used h =
        let e =
          enroll-Enrolled c issue lawful now node_id secret_hash request_hash request m j db db'
            h in
        record {
          stored = ground (arith, e.tokens secret_hash, e.answered);
          node =
              (fresh_node node_id request, ground (arith, e.nodes j.response.node_id, e.answered));
        }

    -- Once a request was answered with a stored token, the request of the same hash has the same
    -- node ID and certificate again, with the status 200, for as long as the token is valid, and
    -- changes nothing, whatever node ID would be generated.
    pub join_tx-retry :
        (now later : ℕ) (node_id node_id' secret_hash request_hash : String)
        (request : JoinNodeRequest) (j : Joined) (db db' : Database N C T) (m : Metadata)
        → c.tokens.get_tx secret_hash db.tokens ≡ ok m
        → later < m.expires_at
        → join_tx c issue now node_id secret_hash request_hash request db ≡ ok (j, db')
        → join_tx c issue later node_id' secret_hash request_hash request db'
          ≡ ok (record { status_code = 200; response = j.response }, db')
    join_tx-retry now later node_id node_id' secret_hash request_hash request j db db' m found
          in_time h =
        let (m', found', t, used) =
          join_tx-token now node_id secret_hash request_hash request db (j, db') h in
        let same = ok-injective m m' (sym found ∙ found') in
        held_again later node_id' secret_hash request_hash request m j.response db'
          (subst (λ k. Holds secret_hash request_hash k j.response db') (sym same)
            (use_token-Holds now node_id secret_hash request_hash request m' m'.enrollment j db db'
              found' refl used))
          in_time

    -- Once a request was answered with a stored token, a request of another hash is refused with a
    -- conflict for as long as the token is valid, whatever node ID would be generated.
    pub join_tx-single_use :
        (now later : ℕ) (node_id node_id' secret_hash request_hash other_hash : String)
        (request other : JoinNodeRequest) (j : Joined) (db db' : Database N C T) (m : Metadata)
        → c.tokens.get_tx secret_hash db.tokens ≡ ok m
        → later < m.expires_at
        → other_hash ≢ request_hash
        → join_tx c issue now node_id secret_hash request_hash request db ≡ ok (j, db')
        → join_tx c issue later node_id' secret_hash other_hash other db' ≡ err other_request
    join_tx-single_use now later node_id node_id' secret_hash request_hash other_hash request other
          j db db' m found in_time ne h =
        let (m', found', t, used) =
          join_tx-token now node_id secret_hash request_hash request db (j, db') h in
        let same = ok-injective m m' (sym found ∙ found') in
        held_other later node_id' secret_hash request_hash other_hash other m j.response db'
          (subst (λ k. Holds secret_hash request_hash k j.response db') (sym same)
            (use_token-Holds now node_id secret_hash request_hash request m' m'.enrollment j db db'
              found' refl used))
          in_time ne
