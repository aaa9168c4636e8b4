-- ===== src/Config/Usable.antt =====
-- src/config.rs: what a configuration that is read always is, and when there is one.
use secure_connect_connector.Net.{from_secs}
use Prim.Native.String.{String}
use secure_connect_connector.Config.{
  Config, config_of, default_heartbeat_interval_seconds, filled, filter, from_env, gatekeeper_port,
  heartbeat_interval_seconds, identity_key_path_from_env, is_blank, parse_heartbeat_interval,
  require_env, trimmed_path,
}
use secure_connect_connector.Text.{is_empty, parse_unsigned, parse_unsigned-bound, trim}
use secure_connect_connector.Base.{
  ◌⊎◌, Bool, Bool-cases, Option, Option-cases, and_then, ap, arith, false, inl, inr, ltb, none, not,
  refl, some, sym, true, unwrap_or, ℕ, ℕ_discrete, ◌-◌, ◌<◌, ◌^◌, ◌∙◌, ◌≡◌, ◌≤◌,
}

pub IsFilled : String → Type 0
IsFilled value = is_blank value ≡ false

-- A path that is given has a character.
pub IsPath : Option String → Type 0
IsPath none = Unit
IsPath (some path) = is_empty path ≡ false

pub record IsUsable (config : Config) : Type 0 where
  pub identity_key_path : IsFilled config.identity_key_path
  pub audit_log_path : IsFilled config.audit_log_path
  pub not_zero : 0 < config.heartbeat_interval
  pub port : config.gatekeeper_http_port ≤ 65535
  pub ca_bundle_path : IsPath config.ca_bundle_path

-- A variable that is set, to a value that is not blank.
pub IsGiven : (String → Option String) → String → String → Type 0
IsGiven env name value = (env name ≡ some value) × IsFilled value

-- A variable that is not set, or whose value is blank.
pub IsMissing : (String → Option String) → String → Type 0
IsMissing env name =
    (env name ≡ none) ⊎ ((value : String) × (env name ≡ some value) × (is_blank value ≡ true))

-- What is read of an environment: a configuration with the values of both required variables, or
-- nothing, where one of the two is not there.
pub data IsRead (env : String → Option String) : Option Config → Type 0 where
  usable :
      (config : Config)
      → IsGiven env "AGENTS_JSON_URL" config.agents_json_url
      → IsGiven env "REGISTRY_BASE_URL" config.registry_base_url
      → IsUsable config
      → IsRead env (some config)
  no_agents : IsMissing env "AGENTS_JSON_URL" → IsRead env none
  no_registry : IsMissing env "REGISTRY_BASE_URL" → IsRead env none

filter-kept {ℓ} :
    {A : Type ℓ} (p : A → Bool) (o : Option A) (a : A)
    → filter p o ≡ some a
    → (o ≡ some a) × (p a ≡ true)
filter-kept p none a h = absurd (cc h)
filter-kept p (some b) a h = elim (Bool-cases (p b)) [
  | inl e ↦ let same : b ≡ a = ground arith in (ap some same, ap p (sym same) ∙ e)
  | inr e ↦ absurd (ground arith)
]

filled-IsGiven :
    (env : String → Option String) (name value : String)
    → filled env name ≡ some value
    → IsGiven env name value
unfolding filled IsFilled IsGiven
filled-IsGiven env name value h =
    let (is_value, kept) = filter-kept (λ (v : String). not (is_blank v)) (env name) value h in
    (is_value, not_true (is_blank value) kept)
  where
    not_true : (b : Bool) → not b ≡ true → b ≡ false
    not_true true e = cc e
    not_true false e = refl

filled-IsMissing :
    (env : String → Option String) (name : String) → filled env name ≡ none → IsMissing env name
unfolding filled IsMissing
filled-IsMissing env name h = elim (Option-cases (env name)) [
  | inl e ↦ inl e
  | inr (value, e) ↦ elim (Bool-cases (is_blank value)) [
    | inl blank ↦ inr (value, e, blank)
    | inr full ↦ absurd (cc (rw (e, full) at h))
  ]
]

filled_or-IsFilled :
    (env : String → Option String) (name default : String)
    → IsFilled default
    → IsFilled (unwrap_or (filled env name) default)
filled_or-IsFilled env name default d = elim (Option-cases (filled env name)) [
  | inl e ↦ rw e d
  | inr (value, e) ↦ rw e (unfold IsGiven in (filled-IsGiven env name value e).1)
]

key_path-IsFilled : IsFilled "/var/skipr/connector/.keys/identity.key"
unfolding IsFilled trim ℕ_discrete
key_path-IsFilled = refl

log_path-IsFilled : IsFilled "/var/skipr/connector/audit/audit.log"
unfolding IsFilled trim ℕ_discrete
log_path-IsFilled = refl

seconds_positive : (n : ℕ) → 0 < n → 0 < from_secs n
seconds_positive n h = omega arith

heartbeat_interval_seconds_positive : (raw : Option String) → 0 < heartbeat_interval_seconds raw
unfolding heartbeat_interval_seconds
heartbeat_interval_seconds_positive raw =
    filtered_positive (and_then raw (parse_unsigned (2 ^ 64 - 1)))
  where
    filtered_positive :
        (o : Option ℕ) → 0 < unwrap_or (filter (ltb 0) o) default_heartbeat_interval_seconds
    filtered_positive none = omega arith
    filtered_positive (some n) = ground arith

gatekeeper_port-bound : (raw : Option String) → gatekeeper_port raw ≤ 65535
unfolding gatekeeper_port
gatekeeper_port-bound none = omega arith
gatekeeper_port-bound (some s) = elim (Option-cases (parse_unsigned (2 ^ 16 - 1) s)) [
  | inl e ↦ rw e (omega arith)
  | inr (n, e) ↦ rw e (parse_unsigned-bound (2 ^ 16 - 1) n s e)
]

trimmed_path-IsPath : (raw : Option String) → IsPath (trimmed_path raw)
unfolding trimmed_path IsPath
trimmed_path-IsPath none = tt
trimmed_path-IsPath (some s) = elim (Bool-cases (is_empty (trim s))) [
  | inl e ↦ rw e tt
  | inr e ↦ rw e e
]

config_of-IsUsable :
    (env : String → Option String) (agents registry : String)
    → IsUsable (config_of env agents registry)
unfolding identity_key_path_from_env parse_heartbeat_interval
config_of-IsUsable env agents registry = record {
  identity_key_path =
      filled_or-IsFilled env "CONNECTOR_IDENTITY_KEY_PATH" "/var/skipr/connector/.keys/identity.key"
        key_path-IsFilled;
  audit_log_path =
      filled_or-IsFilled env "CONNECTOR_AUDIT_LOG_PATH" "/var/skipr/connector/audit/audit.log"
        log_path-IsFilled;
  not_zero =
      seconds_positive _ (heartbeat_interval_seconds_positive (env "HEARTBEAT_INTERVAL_SECONDS"));
  port = gatekeeper_port-bound (env "CONNECTOR_GATEKEEPER_HTTP_PORT");
  ca_bundle_path = trimmed_path-IsPath (env "CONNECTOR_CA_BUNDLE_PATH");
}

-- Reading the environment gives a configuration exactly where both required variables are set and
-- not blank, whatever the others are, and then with their values, no empty path, a port of 16 bits
-- and an interval that is not zero, which the timer of the main loop would panic at.
pub from_env-IsRead : (env : String → Option String) → IsRead env (from_env env)
unfolding from_env require_env
from_env-IsRead env = elim (Option-cases (filled env "AGENTS_JSON_URL")) [
  | inl e ↦ rw e (no_agents (filled-IsMissing env "AGENTS_JSON_URL" e))
  | inr (agents, a) ↦ elim (Option-cases (filled env "REGISTRY_BASE_URL")) [
    | inl e ↦ rw a (rw e (no_registry (filled-IsMissing env "REGISTRY_BASE_URL" e)))
    | inr (registry, r) ↦ rw a (
        rw r (
          usable (config_of env agents registry) (filled-IsGiven env "AGENTS_JSON_URL" agents a)
            (filled-IsGiven env "REGISTRY_BASE_URL" registry r)
            (config_of-IsUsable env agents registry)))
  ]
]
