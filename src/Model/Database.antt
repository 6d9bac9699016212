-- ===== src/Model/Database.antt =====
-- The database of the server: the contents of its three collections, which transactions read
-- and write together.
use hambo.Store.{Table, IsLawful}
use hambo.Model.Node.{Node}
use hambo.Model.Container.{Container}
use hambo.Model.Token.{Metadata}

pub record Database (N C T : Type 0) : Type 0 where
  pub nodes : N
  pub containers : C
  pub tokens : T

-- The collections that the server and the scheduler are made with.
pub record Collections (N C T : Type 0) : Type 0 where
  pub nodes : Table N Node
  pub containers : Table C Container
  pub tokens : Table T Metadata

pub record AreLawful {N C T : Type 0} (c : Collections N C T) : Type 0 where
  pub nodes : IsLawful c.nodes
  pub containers : IsLawful c.containers
  pub tokens : IsLawful c.tokens
