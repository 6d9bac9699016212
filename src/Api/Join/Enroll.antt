-- ===== src/Api/Join/Enroll.antt =====
-- What an enrollment (internal/api/nodes.go, `joinNodeHandler`) stores.
use hambo.Base.{
  ℕ, String, List, ◌≡◌, arith, none, some, Result, ok, err, not_found, if◌then◌else◌, ◌==◌,
  Result-cases, inl, inr,
}
use hambo.Model.Token.{Metadata, expired}
use hambo.Model.Database.{Database, Collections, AreLawful}
use hambo.Api.Join.{
  JoinNodeRequest, Joined, fresh_node, enrolled, enroll, use_token, token_found, join_tx,
}

module _ {N C T : Type 0} (c : Collections N C T)
    (issue : ℕ → String → List ℕ → Result String) where
  -- The node is new and is stored with its certificate's result under the token, and nothing
  -- else changes.
  pub record Enrolled (node_id secret_hash request_hash : String) (request : JoinNodeRequest)
      (m : Metadata) (j : Joined) (db db' : Database N C T) : Type 0 where
    pub created : j.status_code ≡ 201
    pub answered : j.response.node_id ≡ node_id
    pub fresh : c.nodes.get_tx node_id db.nodes ≡ err not_found
    pub nodes :
        (k : String)
        → c.nodes.get_tx k db'.nodes
          ≡ (if k == node_id then ok (fresh_node node_id request) else c.nodes.get_tx k db.nodes)
    pub tokens :
        (k : String)
        → c.tokens.get_tx k db'.tokens ≡ (
            if k == secret_hash
            then ok (record m {
              enrollment = some (enrolled request_hash node_id j.response.certificate);
            })
            else c.tokens.get_tx k db.tokens)
    pub containers : db'.containers ≡ db.containers

  module _ (lawful : AreLawful c) where
    pub enroll-Enrolled :
        (now : ℕ) (node_id secret_hash request_hash : String) (request : JoinNodeRequest)
        (m : Metadata) (j : Joined) (db db' : Database N C T)
        → enroll c issue now node_id secret_hash request_hash request m db ≡ ok (j, db')
        → Enrolled node_id secret_hash request_hash request m j db db'
    unfolding enroll
    enroll-Enrolled now node_id secret_hash request_hash request m j db db' h =
        elim (Result-cases (issue now node_id request.csr)) [
          | inr (e, p) ↦ absurd (ground arith)
          | inl (cert, p) ↦
              elim (Result-cases
                (c.nodes.create_tx node_id (fresh_node node_id request) db.nodes)) [
                  | inr (e, q) ↦ absurd (ground arith)
                  | inl (ns, q) ↦
                      elim (Result-cases (
                        c.tokens.update_tx secret_hash
                          (record m { enrollment = some (enrolled request_hash node_id cert) })
                          db.tokens)) [
                            | inr (e, r) ↦ absurd (ground arith)
                            | inl (ts, r) ↦ record {
                              created = ground arith;
                              answered = ground arith;
                              fresh =
                                  lawful.nodes.create-fresh node_id (fresh_node node_id request)
                                    db.nodes ns q;
                              nodes = λ k. ground (
                                arith,
                                lawful.nodes.create-get node_id k (fresh_node node_id request)
                                    db.nodes ns q,
                              );
                              tokens = λ k. ground (
                                arith,
                                lawful.tokens.update-get secret_hash k
                                    (record m {
                                      enrollment = some (enrolled request_hash node_id cert);
                                    })
                                    db.tokens ts r,
                              );
                              containers = ground arith;
                            }
                          ]
                ]
        ]

    -- If a request is answered with a stored token that was not used, then the answer is 201 with
    -- the generated node ID, that ID was free, the new node and the token's enrollment result are
    -- both stored, and no other node, no other token and no container changes.
    pub join_tx-enrolls :
        (now : ℕ) (node_id secret_hash request_hash : String) (request : JoinNodeRequest)
        (m : Metadata) (j : Joined) (db db' : Database N C T)
        → c.tokens.get_tx secret_hash db.tokens ≡ ok m
        → m.enrollment ≡ none
        → join_tx c issue now node_id secret_hash request_hash request db ≡ ok (j, db')
        → Enrolled node_id secret_hash request_hash request m j db db'
    unfolding join_tx token_found use_token expired
    join_tx-enrolls now node_id secret_hash request_hash request m j db db' found unused h =
        enroll-Enrolled now node_id secret_hash request_hash request m j db db' (ground arith)
