-- ===== src/Api/Containers/Names.antt =====
-- The names of containers (internal/api/containers.go).
use hambo.Base.{
  String, false, List, [], ◌∷◌, ◌≡◌, ◌≢◌, sym, ◌∙◌, arith, ok, err, not_found, if◌then◌else◌, ◌==◌,
  Result-cases, Bool-cases, inl, inr,
}
use hambo.Store.{Entry, find_entry}
use hambo.Model.Container.{Container}
use hambo.Model.Database.{Database, Collections, AreLawful}
use hambo.Model.Names.{HasUniqueNames}
use hambo.Api.Containers.{has_name, create_tx}

has_name-find :
    (name k : String) (es : List (Entry Container)) (v : Container)
    → has_name name es ≡ false
    → find_entry k es ≡ ok v
    → v.name ≢ name
unfolding has_name find_entry
has_name-find name k [] v h g = absurd (ground arith)
has_name-find name k (e ∷ es) v h g = ground (arith, has_name-find name k es v)

module _ {N C T : Type 0} (c : Collections N C T) where
  abbrev pub UniqueNames : Database N C T → Type 0
  UniqueNames db = HasUniqueNames c db.containers

  -- The new container is stored under an ID that was free, and nothing else changes.
  pub record Created (new : Container) (db db' : Database N C T) : Type 0 where
    pub free : c.containers.get_tx new.id db.containers ≡ err not_found
    pub containers :
        (j : String)
        → c.containers.get_tx j db'.containers
          ≡ (if j == new.id then ok new else c.containers.get_tx j db.containers)
    pub nodes : db'.nodes ≡ db.nodes
    pub tokens : db'.tokens ≡ db.tokens
    pub own_name :
        (j : String) (a : Container)
        → c.containers.get_tx j db.containers ≡ ok a
        → a.name ≢ new.name

  module _ (lawful : AreLawful c) where
    -- A container that is created without an error is stored under its ID, which was free, no
    -- stored container had its name, and no other container, no node and no token changes.
    pub create_tx-Created :
        (new : Container) (db db' : Database N C T)
        → create_tx c new db ≡ ok (tt, db')
        → Created new db db'
    unfolding create_tx
    create_tx-Created new db db' h = elim (Result-cases (c.containers.list_tx db.containers)) [
      | inr (e, p) ↦ absurd (ground arith)
      | inl (es, p) ↦ elim (Bool-cases (has_name new.name es)) [
        | inl taken ↦ absurd (ground arith)
        | inr own ↦ elim (Result-cases (c.containers.create_tx new.id new db.containers)) [
          | inr (e, q) ↦ absurd (ground arith)
          | inl (cs, q) ↦ record {
            free = lawful.containers.create-fresh new.id new db.containers cs q;
            containers =
                λ j. ground (arith, lawful.containers.create-get new.id j new db.containers cs q);
            nodes = ground arith;
            tokens = ground arith;
            own_name = λ j a g.
                has_name-find new.name j es a own
                  (sym (lawful.containers.list-get j db.containers es p) ∙ g);
          }
        ]
      ]
    ]

    -- If no two stored containers have one name, then none have after a container was created.
    pub create_tx-UniqueNames :
        (new : Container) (db db' : Database N C T)
        → UniqueNames db
        → create_tx c new db ≡ ok (tt, db')
        → UniqueNames db'
    create_tx-UniqueNames new db db' unique h =
        let made = create_tx-Created new db db' h in
        λ j k a b ga gb same. ground (
          arith,
          made.containers j,
          made.containers k,
          made.own_name j a,
          made.own_name k b,
          unique j k a b,
        )
