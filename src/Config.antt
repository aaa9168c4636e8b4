-- ===== src/Config.antt =====
-- src/config.rs: the configuration, from the environment's variables. A variable that is not set,
-- or is no UTF-8, is none; a path is its text, and the interval is in nanoseconds.
pub mod Usable
use Prim.Native.String.{String}
use secure_connect_connector.Text.{is_empty, parse_unsigned, trim}
use secure_connect_connector.Net.{Ipv4Addr, from_secs, parse_ipv4}
use secure_connect_connector.Base.{
  Bool, Option, and_then, if◌then◌else◌, ltb, none, not, option_map, some, unwrap_or, ℕ, ◌-◌, ◌>>=◌,
  ◌^◌,
}

pub record Config : Type 0 where
  pub agents_json_url : String
  pub registry_base_url : String
  pub identity_key_path : String
  pub audit_log_path : String
  pub heartbeat_interval : ℕ
  pub gatekeeper_http_port : ℕ
  pub gatekeeper_wg0_address : Ipv4Addr
  pub tun_netmask : Ipv4Addr
  pub ca_bundle_path : Option String

abbrev pub default_heartbeat_interval_seconds : ℕ
default_heartbeat_interval_seconds = 60

-- `Option::filter`
abbrev pub filter {ℓ} : {A : Type ℓ} → (A → Bool) → Option A → Option A
filter p none = none
filter p (some a) = if p a then some a else none

abbrev pub is_blank : String → Bool
is_blank value = is_empty (trim value)

-- A variable that is set and not blank.
unfoldable pub filled : (String → Option String) → String → Option String
unfolding trim
filled env name = filter (λ value. not (is_blank value)) (env name)

unfoldable pub identity_key_path_from_env : (String → Option String) → String
unfolding filled
identity_key_path_from_env env =
    unwrap_or (filled env "CONNECTOR_IDENTITY_KEY_PATH") "/var/skipr/connector/.keys/identity.key"

-- `require_env`, whose error is none.
unfoldable pub require_env : (String → Option String) → String → Option String
unfolding filled
require_env env name = filled env name

unfoldable pub heartbeat_interval_seconds : Option String → ℕ
unfolding parse_unsigned
heartbeat_interval_seconds raw =
    unwrap_or (filter (ltb 0) (and_then raw (parse_unsigned (2 ^ 64 - 1))))
      default_heartbeat_interval_seconds

unfoldable pub parse_heartbeat_interval : (String → Option String) → ℕ
unfolding heartbeat_interval_seconds
parse_heartbeat_interval env =
    from_secs (heartbeat_interval_seconds (env "HEARTBEAT_INTERVAL_SECONDS"))

unfoldable pub gatekeeper_port : Option String → ℕ
unfolding parse_unsigned
gatekeeper_port raw = unwrap_or (and_then raw (parse_unsigned (2 ^ 16 - 1))) 4000

-- An address, where the variable has one.
unfoldable pub address_or : Ipv4Addr → Option String → Ipv4Addr
unfolding parse_ipv4
address_or default raw = unwrap_or (and_then raw parse_ipv4) default

unfoldable pub trimmed_path : Option String → Option String
unfolding trim
trimmed_path raw = filter (λ value. not (is_empty value)) (option_map trim raw)

abbrev pub config_of :
    (String → Option String) → (agents_json_url registry_base_url : String) → Config
config_of env agents_json_url registry_base_url = record {
  agents_json_url = agents_json_url;
  registry_base_url = registry_base_url;
  identity_key_path = identity_key_path_from_env env;
  audit_log_path =
      unwrap_or (filled env "CONNECTOR_AUDIT_LOG_PATH") "/var/skipr/connector/audit/audit.log";
  gatekeeper_http_port = gatekeeper_port (env "CONNECTOR_GATEKEEPER_HTTP_PORT");
  gatekeeper_wg0_address =
      address_or (record { a = 10; b = 66; c = 66; d = 1 })
        (env "CONNECTOR_GATEKEEPER_WG0_ADDRESS");
  tun_netmask =
      address_or (record { a = 255; b = 255; c = 255; d = 0 }) (env "CONNECTOR_TUN_NETMASK");
  heartbeat_interval = parse_heartbeat_interval env;
  ca_bundle_path = trimmed_path (env "CONNECTOR_CA_BUNDLE_PATH");
}

-- `Config::from_env`
unfoldable pub from_env : (String → Option String) → Option Config
unfolding require_env identity_key_path_from_env parse_heartbeat_interval gatekeeper_port address_or
    trimmed_path
from_env env = do
  agents_json_url ← require_env env "AGENTS_JSON_URL"
  registry_base_url ← require_env env "REGISTRY_BASE_URL"
  some (config_of env agents_json_url registry_base_url)
