-- ===== src/Commands.antt =====
-- src/main.rs: the command line, and `--deregister` with the exit codes that the installer acts on;
-- and the refusals of src/heartbeat.rs that it tells apart. An argument that is no UTF-8 is none.
pub mod Exits
use Prim.Native.String.{String}
use secure_connect_connector.AgentDirectory.{
  AgentsJsonEntry, Answer, Network, answered, deregister, list_failed, lists_none, new,
  none_answered, refused,
}
use secure_connect_connector.Config.{Config, from_env}
use secure_connect_connector.Crypto.{Library}
use secure_connect_connector.Heartbeat.{
  AgentRejected, ConnectorDeregisterRequest, ConnectorDeregisterResponse, Parsers,
}
use secure_connect_connector.Text.{contains}
use secure_connect_connector.Base.{
  Bool, List, Option, [], false, if◌then◌else◌, none, some, string_key, ℕ, ◌==◌, ◌>>=◌, ◌||◌, ◌∷◌,
}

pub data CliMode : Type 0 where
  normal generate_identity deregister_mode help : CliMode

pub data CliError : Type 0 where
  unrecognized_argument : Option String → CliError
  too_many_arguments : (first : Option String) → CliError

pub data Cli : Type 0 where
  mode : CliMode → Cli
  usage_error : CliError → Cli

unfoldable pub mode_of : Option String → Cli
mode_of none = usage_error (unrecognized_argument none)
mode_of (some only) =
    if only == "--generate-identity"
    then mode generate_identity
    else if only == "--deregister"
    then mode deregister_mode
    else if only == "--help" || only == "-h"
    then mode help
    else usage_error (unrecognized_argument (some only))

-- Of the arguments, the program's name first, if there is one.
unfoldable pub parse_cli_mode : List (Option String) → Cli
unfolding mode_of
parse_cli_mode [] = mode normal
parse_cli_mode (name ∷ []) = mode normal
parse_cli_mode (name ∷ only ∷ []) = mode_of only
parse_cli_mode (name ∷ first ∷ more ∷ rest) = usage_error (too_many_arguments first)

unfoldable pub gives_reason : String → AgentRejected → Bool
unfolding contains
gives_reason code rejection = elim rejection.reason [
  | none ↦ false
  | some reason ↦ contains code reason
]

unfoldable pub is_not_registered : AgentRejected → Bool
unfolding gives_reason
is_not_registered rejection = gives_reason "connectornotregistered" rejection

unfoldable pub is_not_decommissioning : AgentRejected → Bool
unfolding gives_reason
is_not_decommissioning rejection = gives_reason "connectornotdecommissioning" rejection

abbrev pub exit_deregistered : ℕ
exit_deregistered = 0

abbrev pub exit_failed : ℕ
exit_failed = 1

abbrev pub exit_not_registered : ℕ
exit_not_registered = 2

abbrev pub exit_not_decommissioning : ℕ
exit_not_decommissioning = 3

unfoldable pub refusal_exit : AgentRejected → ℕ
unfolding is_not_registered is_not_decommissioning
refusal_exit rejection =
    if is_not_registered rejection
    then exit_not_registered
    else if is_not_decommissioning rejection
    then exit_not_decommissioning
    else exit_failed

unfoldable pub answer_exit : Answer ConnectorDeregisterResponse → ℕ
unfolding refusal_exit
answer_exit (answered confirmed) = exit_deregistered
answer_exit (refused rejection) = refusal_exit rejection
answer_exit (list_failed e) = exit_failed
answer_exit lists_none = exit_failed
answer_exit (none_answered failures) = exit_failed

-- The host: its environment, the public key of the identity at a path (`identity::load_existing`),
-- whether an HTTP client can be built with a CA bundle, and the network with agents.json at a URL.
pub record Host : Type 0 where
  pub env : String → Option String
  pub load_existing : String → Option String
  pub builds_http_client : Option String → Bool
  pub network : (agents_json_url : String) → Network

abbrev pub request_for : String → ConnectorDeregisterRequest
request_for public_key = record { connector_public_key = public_key }

-- Ahead of the request: the configuration and the identity, where the client can be built too.
unfoldable pub prepare : Host → Option (Config × String)
unfolding from_env
prepare host = do
  config ← from_env host.env
  public_key ← host.load_existing config.identity_key_path
  if host.builds_http_client config.ca_bundle_path then some (config, public_key) else none

module _ (library : Library) (parsers : Parsers)
    (parse_agents_json : List ℕ → Option (List AgentsJsonEntry)) where
  -- The answer to the deregistration of an identity, by a configuration.
  unfoldable pub deregister_with : Host → ℕ → Config → String → Answer ConnectorDeregisterResponse
  unfolding deregister new
  deregister_with host now config public_key =
      (deregister library parsers (host.network config.agents_json_url)
        (new parse_agents_json config.registry_base_url) now (request_for public_key)).1

  unfoldable pub exit_of : Host → ℕ → Option (Config × String) → ℕ
  unfolding deregister_with answer_exit
  exit_of host now none = exit_failed
  exit_of host now (some (config, public_key)) =
      answer_exit (deregister_with host now config public_key)

  -- `deregister` of src/main.rs, at an instant: its exit code.
  unfoldable pub deregister_command : Host → ℕ → ℕ
  unfolding prepare exit_of
  deregister_command host now = exit_of host now (prepare host)
