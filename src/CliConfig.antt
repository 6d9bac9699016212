-- ===== src/CliConfig.antt =====
-- internal/cliconfig: the configuration of the command line client, as a file. go.yaml.in/yaml is a
-- parameter.
pub mod Saved
use hambo.Base.{
  String, Bool, true, false, not, List, [], ◌∷◌, ◌++◌, Option, none, some, Result, ok, err, Error,
  failure, if◌then◌else◌, ◌==◌, ◌>>=◌, ◌>>◌, or_fail,
}
use hambo.Files.{Files, NewFile, Outcome, open_new, write_new, then_remove, read_file}

pub record Config : Type 0 where
  pub server_url : String
  pub ca_cert : String
  pub client_cert : String
  pub client_key : String

-- One of the checks at the end of `Load`.
unfoldable pub required : String → String → Result (Unit {0})
required text name = if text == "" then err (failure name) else ok tt

unfoldable pub checked : Config → Result Config
unfolding required
checked cfg = do
  required cfg.server_url "server URL is required"
  required cfg.ca_cert "CA certificate is required"
  required cfg.client_cert "client certificate is required"
  required cfg.client_key "client private key is required"
  ok cfg

-- The deferred function.
unfoldable pub clean_up : NewFile → String → Outcome → Outcome
unfolding then_remove
clean_up calls path ([], files) = ([], files)
clean_up calls path (e ∷ es, files) = then_remove calls.removes path (e ∷ es, files)

module _ (marshal : Config → Option String) (unmarshal : String → Option Config) where
  unfoldable pub load : Bool → String → Files → Result Config
  unfolding checked read_file
  load reads path files = do
    text ← or_fail (read_file reads path files) (failure "read CLI configuration")
    cfg ← or_fail (unmarshal text) (failure "decode CLI configuration")
    checked cfg

  unfoldable pub save : NewFile → String → Config → Files → Outcome
  unfolding open_new write_new clean_up
  save calls path cfg files = elim (marshal cfg) [
    | none ↦ (failure "encode CLI configuration" ∷ [], files)
    | some text ↦ elim (open_new calls.opens path files) [
      | err e ↦ (e ∷ [], files)
      | ok opened ↦ clean_up calls path (write_new calls path text opened)
    ]
  ]
