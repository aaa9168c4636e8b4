-- ===== src/Tests/Startup.antt =====
-- The configuration, the command line and `--deregister`, at concrete inputs.
use Prim.Native.String.{String}
use secure_connect_connector.AgentDirectory.{Agent-discrete, AgentsJsonEntry}
use secure_connect_connector.Commands.{
  deregister_mode, too_many_arguments, mode, usage_error, Host, deregister_command, parse_cli_mode,
  refusal_exit,
}
use secure_connect_connector.Commands.Exits.{IsExit, deregister_command-IsExit}
use secure_connect_connector.Config.{from_env, heartbeat_interval_seconds}
use secure_connect_connector.Config.Usable.{IsRead, from_env-IsRead}
use secure_connect_connector.Tests.Fleet.{crypto, entry, network, parsers}
use secure_connect_connector.Base.{
  List, Option, String-discrete, [], if◌then◌else◌, none, refl, some, string_key, true, ℕ,
  ℕ_discrete, ◌==◌, ◌∷◌, ◌≡◌,
}

-- The two required variables, the second between spaces.
abbrev env : String → Option String
env name =
    if name == "AGENTS_JSON_URL"
    then some "https://agents"
    else if name == "REGISTRY_BASE_URL"
    then some " https://registry "
    else none

from_env-IsRead_example : IsRead env (from_env env)
from_env-IsRead_example = from_env-IsRead env

abbrev host : Host
host = record {
  env = env;
  load_existing = λ _. some "own";
  builds_http_client = λ _. true;
  network = λ _. network;
}

abbrev agents_json : List ℕ → Option (List AgentsJsonEntry)
agents_json _ = some (entry ∷ [])

deregister_command-IsExit_example : IsExit crypto parsers agents_json host 7 0
unfolding deregister_command String-discrete ℕ_discrete Agent-discrete
deregister_command-IsExit_example = deregister_command-IsExit crypto parsers agents_json host 7

expired_confirmation : deregister_command crypto parsers agents_json host 9 ≡ 1
unfolding deregister_command String-discrete ℕ_discrete Agent-discrete
expired_confirmation = refl

refused_for_registration :
    refusal_exit (record { status = 400; reason = some "error.connectornotregistered" }) ≡ 2
unfolding refusal_exit String-discrete ℕ_discrete
refused_for_registration = refl

refused_for_another_reason : refusal_exit (record { status = 400; reason = some "busy" }) ≡ 1
unfolding refusal_exit String-discrete ℕ_discrete
refused_for_another_reason = refl

zero_interval : heartbeat_interval_seconds (some "0") ≡ 60
unfolding heartbeat_interval_seconds String-discrete ℕ_discrete
zero_interval = refl

signed_interval : heartbeat_interval_seconds (some "+300") ≡ 300
unfolding heartbeat_interval_seconds String-discrete ℕ_discrete
signed_interval = refl

deregister_argument :
    parse_cli_mode (some "connector" ∷ some "--deregister" ∷ []) ≡ mode deregister_mode
unfolding parse_cli_mode String-discrete
deregister_argument = refl

two_arguments :
    parse_cli_mode (none ∷ some "--help" ∷ none ∷ [])
    ≡ usage_error (too_many_arguments (some "--help"))
unfolding parse_cli_mode String-discrete
two_arguments = refl
