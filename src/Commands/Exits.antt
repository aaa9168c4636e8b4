-- ===== src/Commands/Exits.antt =====
-- src/main.rs: what the exit codes of `--deregister` mean.
use Prim.Native.String.{String}
use secure_connect_connector.AgentDirectory.{
  Agent, AgentsJsonEntry, Answer, answered, list_failed, lists_none, new, none_answered, refused,
}
use secure_connect_connector.AgentDirectory.Trust.{IsConfirmedBy, deregister-IsConfirmedBy}
use secure_connect_connector.Commands.{
  Host, answer_exit, deregister_command, deregister_with, exit_deregistered, exit_failed,
  exit_not_decommissioning, exit_not_registered, exit_of, is_not_decommissioning, is_not_registered,
  prepare, refusal_exit, request_for,
}
use secure_connect_connector.Config.{Config, from_env}
use secure_connect_connector.Crypto.{Library}
use secure_connect_connector.Heartbeat.{AgentRejected, ConnectorDeregisterResponse, Parsers}
use secure_connect_connector.Base.{
  Bool, Bool-cases, List, Option, and_then, ap, false, if◌then◌else◌, inl, inr, none, refl, some,
  subst, true, unwrap_or, ℕ, ◌∙◌, ◌≡◌,
}

and_then-some {ℓ κ} :
    {A : Type ℓ} {B : Type κ} (o : Option A) (f : A → Option B) (b : B)
    → and_then o f ≡ some b
    → (a : A) × (o ≡ some a) × (f a ≡ some b)
and_then-some none f b h = absurd (cc h)
and_then-some (some a) f b h = (a, refl, h)

if-some {ℓ} : {A : Type ℓ} (b : Bool) (a a' : A) → (if b then some a else none) ≡ some a' → a ≡ a'
if-some true a a' h = ap (λ o. unwrap_or o a) h
if-some false a a' h = absurd (cc h)

prepare-some :
    (host : Host) (config : Config) (public_key : String)
    → prepare host ≡ some (config, public_key)
    → (from_env host.env ≡ some config)
      × (host.load_existing config.identity_key_path ≡ some public_key)
unfolding prepare
prepare-some host config public_key h =
    let (read, configured, rest) = and_then-some (from_env host.env) _ _ h in
    let (key, identity, built) =
      and_then-some (host.load_existing read.identity_key_path) _ _ rest in
    let same : (read, key) ≡ (config, public_key) =
      if-some (host.builds_http_client read.ca_bundle_path) _ _ built in
    (
      configured ∙ ap (λ (p : Config × String). some (p.0)) same,
      subst (λ (p : Config × String). host.load_existing (p.0.identity_key_path) ≡ some (p.1)) same
          identity,
    )

module _ (library : Library) (parsers : Parsers)
    (parse_agents_json : List ℕ → Option (List AgentsJsonEntry)) (host : Host) (now : ℕ) where
  -- A deregistration that was confirmed, for the host's own identity.
  pub record IsDeregistered : Type 0 where
    pub config : Config
    pub public_key : String
    pub response : ConnectorDeregisterResponse
    pub agent : Agent
    pub configured : from_env host.env ≡ some config
    pub identity : host.load_existing config.identity_key_path ≡ some public_key
    pub confirmed :
        IsConfirmedBy library parsers
          (host.network config.agents_json_url)
          (new parse_agents_json config.registry_base_url)
          now
          (request_for public_key)
          response
          agent

  -- A refusal of a kind that an Agent relayed.
  pub record IsRefused (kind : AgentRejected → Bool) : Type 0 where
    pub config : Config
    pub public_key : String
    pub rejection : AgentRejected
    pub asked : prepare host ≡ some (config, public_key)
    pub answer :
        deregister_with library parsers parse_agents_json host now config public_key
        ≡ refused rejection
    pub is_kind : kind rejection ≡ true

  pub data IsExit : ℕ → Type 0 where
    deregistered : IsDeregistered → IsExit exit_deregistered
    not_registered : IsRefused is_not_registered → IsExit exit_not_registered
    not_decommissioning : IsRefused is_not_decommissioning → IsExit exit_not_decommissioning
    failed : IsExit exit_failed

  answer_exit-IsExit :
      (config : Config) (public_key : String) (answer : Answer ConnectorDeregisterResponse)
      → prepare host ≡ some (config, public_key)
      → deregister_with library parsers parse_agents_json host now config public_key ≡ answer
      → IsExit (answer_exit answer)
  unfolding answer_exit refusal_exit deregister_with
  answer_exit-IsExit config public_key (answered response) h e =
      let (configured, identity) = prepare-some host config public_key h in
      let (agent, confirmed) =
        deregister-IsConfirmedBy library parsers (host.network config.agents_json_url)
          (new parse_agents_json config.registry_base_url) now (request_for public_key) response
          e in
      deregistered (record {
        config = config;
        public_key = public_key;
        response = response;
        agent = agent;
        configured = configured;
        identity = identity;
        confirmed = confirmed;
      })
  answer_exit-IsExit config public_key (refused rejection) h e =
      let refusal : (kind : AgentRejected → Bool) → kind rejection ≡ true → IsRefused kind =
        λ kind is_kind. record {
          config = config;
          public_key = public_key;
          rejection = rejection;
          asked = h;
          answer = e;
          is_kind = is_kind;
        } in
      elim (Bool-cases (is_not_registered rejection)) [
        | inl r ↦ rw r (not_registered (refusal is_not_registered r))
        | inr r ↦ elim (Bool-cases (is_not_decommissioning rejection)) [
          | inl d ↦ rw r (rw d (not_decommissioning (refusal is_not_decommissioning d)))
          | inr d ↦ rw r (rw d failed)
        ]
      ]
  answer_exit-IsExit config public_key (list_failed f) h e = failed
  answer_exit-IsExit config public_key lists_none h e = failed
  answer_exit-IsExit config public_key (none_answered failures) h e = failed

  exit_of-IsExit :
      (o : Option (Config × String))
      → prepare host ≡ o
      → IsExit (exit_of library parsers parse_agents_json host now o)
  unfolding exit_of
  exit_of-IsExit none h = failed
  exit_of-IsExit (some (config, public_key)) h = answer_exit-IsExit config public_key _ h refl

  -- `--deregister` exits with 0, on which the installer removes the service and its key, only where
  -- the first candidate Agent that answered confirmed the deregistration of the host's existing
  -- identity, under the key Registry permits for that Agent, with the status DEREGISTERED and not
  -- expired; with 2 or 3 only where an Agent refused with the reason of that code; and else with 1.
  pub deregister_command-IsExit :
      IsExit (deregister_command library parsers parse_agents_json host now)
  unfolding deregister_command
  deregister_command-IsExit = exit_of-IsExit (prepare host) refl
