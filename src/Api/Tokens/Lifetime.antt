-- ===== src/Api/Tokens/Lifetime.antt =====
-- The tokens that internal/api/tokens.go stores.
use hambo.Base.{
  ℕ, ◌+◌, ◌≤◌, ◌<◌, String, ◌≡◌, ◌≢◌, refl, arith, Option, none, some, ok, err, not_found,
  if◌then◌else◌, ◌==◌, Result-cases, inl, inr,
}
use hambo.Base.Int.{ℤ, pos, negsuc}
use hambo.Store.Tx.{Faults, write_tx-atomic}
use hambo.Model.Token.{Metadata}
use hambo.Model.Database.{Database, Collections, AreLawful}
use hambo.Token.{Token, format}
use hambo.Api.Http.{
  Response, Incoming, Reading, read, answered, read_json, read_json-refused, write_json,
  write_error_json, write_validation_error_json, token_created,
}
use hambo.Api.Tokens.{
  max_token_ttl, default_token_ttl, lifetime, create_token_tx, store_token, with_duration, handle,
  create_token_handler, conclude,
}

lifetime_bounds : (d : ℤ) (n : ℕ) → lifetime d ≡ some n → (0 < n) × (n ≤ max_token_ttl)
unfolding lifetime
lifetime_bounds (negsuc m) n h = absurd (ground arith)
lifetime_bounds (pos m) n h = ground arith

module _ {N C T : Type 0} (c : Collections N C T) (parse_duration : String → Option ℤ)
    (secret_hash : String → String) where
  -- The token is stored under the hash of its secret, unused and for the lifetime that the answer
  -- tells, and nothing else changes.
  pub record Stored (now : ℕ) (t : Token) (response : Response) (db db' : Database N C T)
      : Type 0 where
    pub expires_at : ℕ
    pub later : now < expires_at
    pub bounded : expires_at ≤ now + max_token_ttl
    pub body : response.body ≡ token_created (record { token = format t; expires_at = expires_at })
    pub fresh : c.tokens.get_tx (secret_hash t.secret) db.tokens ≡ err not_found
    pub tokens :
        (k : String)
        → c.tokens.get_tx k db'.tokens ≡ (
            if k == secret_hash t.secret
            then ok (record { expires_at = expires_at; enrollment = none })
            else c.tokens.get_tx k db.tokens)
    pub nodes : db'.nodes ≡ db.nodes
    pub containers : db'.containers ≡ db.containers

  module _ (lawful : AreLawful c) where
    create_token_tx-Stored :
        (now ttl : ℕ) (t : Token) (response : Response) (db db' : Database N C T)
        → 0 < ttl
        → ttl ≤ max_token_ttl
        → response.body ≡ token_created (record { token = format t; expires_at = now + ttl })
        → create_token_tx c parse_duration secret_hash t.secret (now + ttl) db ≡ ok (tt, db')
        → Stored now t response db db'
    unfolding create_token_tx
    create_token_tx-Stored now ttl t response db db' some_time in_bound body h =
        let m : Metadata = record { expires_at = now + ttl; enrollment = none } in
        elim (Result-cases (c.tokens.create_tx (secret_hash t.secret) m db.tokens)) [
          | inr (e, p) ↦ absurd (ground arith)
          | inl (ts, p) ↦ record {
            expires_at = now + ttl;
            later = omega arith;
            bounded = omega arith;
            body = body;
            fresh = lawful.tokens.create-fresh (secret_hash t.secret) m db.tokens ts p;
            tokens = λ k.
                ground (arith, lawful.tokens.create-get (secret_hash t.secret) k m db.tokens ts p);
            nodes = ground arith;
            containers = ground arith;
          }
        ]

    store_token-Stored :
        (f : Faults) (now : ℕ) (t : Token) (o : Option ℕ) (db : Database N C T)
        → ((n : ℕ) → o ≡ some n → (0 < n) × (n ≤ max_token_ttl))
        → (store_token c parse_duration secret_hash f now (ok t) o db).0.status ≡ 201
        → Stored now t
            (store_token c parse_duration secret_hash f now (ok t) o db).0
            db
            (store_token c parse_duration secret_hash f now (ok t) o db).1
    unfolding store_token conclude write_json write_error_json write_validation_error_json
    store_token-Stored f now t none db bounds h = absurd (ground arith)
    store_token-Stored f now t (some ttl) db bounds h =
        elim (write_tx-atomic f (create_token_tx c parse_duration secret_hash t.secret (now + ttl))
          db) [
            | inl (e, p) ↦ absurd (ground arith)
            | inr (u, db', ran, p) ↦
                rw (p, conclude)
                  (create_token_tx-Stored now ttl t _ db db' (bounds ttl refl).0 (bounds ttl refl).1
                    refl ran)
          ]

    with_duration-Stored :
        (f : Faults) (now : ℕ) (t : Token) (o : Option ℤ) (db : Database N C T)
        → (with_duration c parse_duration secret_hash f now (ok t) o db).0.status ≡ 201
        → Stored now t
            (with_duration c parse_duration secret_hash f now (ok t) o db).0
            db
            (with_duration c parse_duration secret_hash f now (ok t) o db).1
    unfolding with_duration write_json write_validation_error_json
    with_duration-Stored f now t none db h = absurd (ground arith)
    with_duration-Stored f now t (some d) db h =
        store_token-Stored f now t (lifetime d) db (λ n e. lifetime_bounds d n e) h

    handle-Stored :
        (f : Faults) (now : ℕ) (t : Token) (r : Reading String) (db : Database N C T)
        → ((x : Response) → r ≡ answered x → x.status ≢ 201)
        → (handle c parse_duration secret_hash f now (ok t) r db).0.status ≡ 201
        → Stored now t
            (handle c parse_duration secret_hash f now (ok t) r db).0
            db
            (handle c parse_duration secret_hash f now (ok t) r db).1
    unfolding handle
    handle-Stored f now t (answered x) db refused h = absurd (refused x refl h)
    handle-Stored f now t (read ttl) db refused h =
        with_duration-Stored f now t
          (if ttl == "" then some (pos default_token_ttl) else parse_duration ttl) db h

    -- If the request for a token is answered with 201, then the token of the answer is stored under
    -- the hash of its secret, which was free, unused, and with the expiry of the answer, which is
    -- later than now and by no more than 24 hours. No other token, no node and no container
    -- changes.
    pub create_token_handler-Stored :
        (f : Faults) (now : ℕ) (t : Token) (i : Incoming String) (db : Database N C T)
        → (create_token_handler c parse_duration secret_hash f now (ok t) i db).0.status ≡ 201
        → Stored now t
            (create_token_handler c parse_duration secret_hash f now (ok t) i db).0
            db
            (create_token_handler c parse_duration secret_hash f now (ok t) i db).1
    unfolding create_token_handler
    create_token_handler-Stored f now t i db h =
        handle-Stored f now t (read_json i) db
          (λ x e is. absurd (omega (arith, read_json-refused i x e))) h
