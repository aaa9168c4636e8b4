-- ===== src/AgentDirectory.antt =====
-- src/agent_directory.rs: which Agents there are to ask, in which order, and the failover between
-- them. The HTTP exchange is a parameter; the failures stand by what they come from.
pub mod Operational
pub mod Candidates
pub mod Failover
pub mod Trust
use Prim.Native.String.{String}
use secure_connect_connector.Heartbeat.{
  AgentRejected, ConnectorDeregisterRequest, ConnectorDeregisterResponse, ConnectorHeartbeatRequest,
  Failure, HttpResponse, Outcome, Parsers, base_url_of, body_unparseable, context,
  deregister_and_verify, ensure, failed, fetch_and_verify, get_agent_permitted_key, is_success, ok,
  rejected, request_failed, returned, ◌>>=◌, ◌>>◌,
}
use secure_connect_connector.Dto.{ConnectorHeartbeatResponse}
use secure_connect_connector.Crypto.{Library}
use secure_connect_connector.Text.{eq_ignore_ascii_case, is_empty, trim}
use secure_connect_connector.Base.{
  Key, List, Option, String-discrete, [], and_then, elem, if◌then◌else◌, nat_key, none, not, some,
  string_key, ℕ, ◌++◌, ◌==◌, ◌||◌, ◌∷◌,
}

pub record Agent : Type 0 where
  pub ip_address : String
  pub base_url : String

unfoldable pub Agent-discrete : Discrete Agent
unfolding String-discrete
Agent-discrete = hlevel String-discrete

instance abbrev pub agent_key : Key Agent
agent_key = record { discrete = Agent-discrete }

pub record AgentsJsonEntry : Type 0 where
  pub ip_address : String
  pub status : String

pub record DirectoryState : Type 0 where
  pub last_listed : List Agent
  pub last_answered : Option Agent

unfoldable pub default_state : DirectoryState
default_state = record { last_listed = []; last_answered = none }

-- The errors of `heartbeat` and `deregister`.
pub data Answer {ℓ} (A : Type ℓ) : Type ℓ where
  answered : A → Answer A
  refused : AgentRejected → Answer A
  list_failed : Failure → Answer A
  lists_none : Answer A
  none_answered : List (String × Failure) → Answer A

abbrev pub operational_status : String
operational_status = "operational"

-- The loop over the entries, from the agents found so far.
unfoldable pub operational_agents :
    (String → String) → List AgentsJsonEntry → List Agent → List Agent
unfolding trim eq_ignore_ascii_case elem
operational_agents base_url_for [] agents = agents
operational_agents base_url_for (entry ∷ entries) agents =
    let ip_address = trim entry.ip_address in
    let agent : Agent = record { ip_address = ip_address; base_url = base_url_for ip_address } in
    operational_agents base_url_for entries (
      if not (eq_ignore_ascii_case (trim entry.status) operational_status) || is_empty ip_address
      then agents
      else if elem agent agents
      then agents
      else agents ++ agent ∷ [])

-- `fetch_operational_agents`, of the response to the request for agents.json.
unfoldable pub fetch_operational_agents :
    (List ℕ → Option (List AgentsJsonEntry))
    → (String → String)
    → Option HttpResponse
    → Outcome (List Agent)
unfolding operational_agents
fetch_operational_agents parse_agents_json base_url_for fetched = do
  response ← context request_failed fetched
  ensure (is_success response.status) (returned response.status)
  entries ← context body_unparseable (and_then response.body parse_agents_json)
  ok (operational_agents base_url_for entries [])

-- `ordered.remove(position)` of the first place that holds an agent.
unfoldable pub remove_first : Agent → List Agent → List Agent
remove_first agent [] = []
remove_first agent (listed ∷ rest) =
    if listed == agent then rest else listed ∷ remove_first agent rest

unfoldable pub sticky_first : Option Agent → List Agent → List Agent
unfolding remove_first elem
sticky_first none listed = listed
sticky_first (some agent) listed =
    if elem agent listed then agent ∷ remove_first agent listed else listed

-- What `candidates` lists, or how it fails.
pub data Listing : Type 0 where
  listing : List Agent → Listing
  no_list : Failure → Listing
  empty_list : Listing

unfoldable pub order_listed : DirectoryState → List Agent → Listing
unfolding sticky_first
order_listed state [] = empty_list
order_listed state (agent ∷ agents) = listing (sticky_first state.last_answered (agent ∷ agents))

abbrev pub fall_back : DirectoryState → List Agent → Failure → Listing
fall_back state [] e = no_list e
fall_back state (agent ∷ agents) e = order_listed state (agent ∷ agents)

-- A refusal is no outcome of the fetch; it stands for itself here.
abbrev pub failure_of : AgentRejected → Failure
failure_of r = returned r.status

unfoldable pub candidates : DirectoryState → Outcome (List Agent) → DirectoryState × Listing
unfolding order_listed
candidates state (ok listed) =
    let state' = record state { last_listed = listed } in (state', order_listed state' listed)
candidates state (failed e) = (state, fall_back state state.last_listed e)
candidates state (rejected r) = (state, fall_back state state.last_listed (failure_of r))

module _ {ℓ} {A : Type ℓ} (attempt : Agent → Outcome A) where
  -- `for agent in candidates` of `heartbeat`, from the failures so far.
  unfoldable pub heartbeat_loop :
      DirectoryState → List Agent → List (String × Failure) → DirectoryState × Answer A
  heartbeat_loop state [] failures = (state, none_answered failures)
  heartbeat_loop state (agent ∷ agents) failures = elim (attempt agent) [
    | ok response ↦ (record state { last_answered = some agent }, answered response)
    | rejected error ↦ (record state { last_answered = some agent }, refused error)
    | failed error ↦ heartbeat_loop state agents (failures ++ (agent.ip_address, error) ∷ [])
  ]

  -- The loop of `deregister`, which remembers nothing.
  unfoldable pub deregister_loop : List Agent → List (String × Failure) → Answer A
  deregister_loop [] failures = none_answered failures
  deregister_loop (agent ∷ agents) failures = elim (attempt agent) [
    | ok response ↦ answered response
    | rejected error ↦ refused error
    | failed error ↦ deregister_loop agents (failures ++ (agent.ip_address, error) ∷ [])
  ]

  -- What `heartbeat` does with the candidates, and `deregister`.
  abbrev pub heartbeat_listed : DirectoryState → Listing → DirectoryState × Answer A
  heartbeat_listed state (listing agents) = heartbeat_loop state agents []
  heartbeat_listed state (no_list e) = (state, list_failed e)
  heartbeat_listed state empty_list = (state, lists_none)

  abbrev pub deregister_listed : Listing → Answer A
  deregister_listed (listing agents) = deregister_loop agents []
  deregister_listed (no_list e) = list_failed e
  deregister_listed empty_list = lists_none

  unfoldable pub ask_for_heartbeat :
      DirectoryState → Outcome (List Agent) → DirectoryState × Answer A
  unfolding candidates heartbeat_loop
  ask_for_heartbeat state fetched =
      let (state', listed) = candidates state fetched in heartbeat_listed state' listed

  unfoldable pub ask_to_deregister :
      DirectoryState → Outcome (List Agent) → DirectoryState × Answer A
  unfolding candidates deregister_loop
  ask_to_deregister state fetched =
      let (state', listed) = candidates state fetched in (state', deregister_listed listed)

-- The network: what each request gets.
pub record Network : Type 0 where
  pub agents_json : Option HttpResponse
  pub registry : String → Option HttpResponse
  pub heartbeat_at : String → ConnectorHeartbeatRequest → Option HttpResponse
  pub deregister_at : String → ConnectorDeregisterRequest → Option HttpResponse

pub record AgentDirectory : Type 0 where
  pub base_url_for : String → String
  pub parse_agents_json : List ℕ → Option (List AgentsJsonEntry)
  pub registry_base_url : String
  pub state : DirectoryState

-- `AgentDirectory::new`, with the Registry that its calls are given.
unfoldable pub new :
    (List ℕ → Option (List AgentsJsonEntry)) → (registry_base_url : String) → AgentDirectory
unfolding default_state
new parse_agents_json registry_base_url = record {
  base_url_for = base_url_of;
  parse_agents_json = parse_agents_json;
  registry_base_url = registry_base_url;
  state = default_state;
}

module _ (library : Library) (parsers : Parsers) (network : Network)
    (directory : AgentDirectory) where
  -- Each answer has to verify under the key that Registry gives for the Agent that is asked.
  unfoldable pub heartbeat_through :
      ConnectorHeartbeatRequest → Agent → Outcome ConnectorHeartbeatResponse
  unfolding get_agent_permitted_key fetch_and_verify
  heartbeat_through request agent = do
    agent_public_key ←
        get_agent_permitted_key library parsers network.registry directory.registry_base_url
          agent.ip_address
    fetch_and_verify library parsers network.heartbeat_at agent.base_url agent_public_key request

  unfoldable pub deregister_through :
      ℕ → ConnectorDeregisterRequest → Agent → Outcome ConnectorDeregisterResponse
  unfolding get_agent_permitted_key deregister_and_verify
  deregister_through now request agent = do
    agent_public_key ←
        get_agent_permitted_key library parsers network.registry directory.registry_base_url
          agent.ip_address
    deregister_and_verify library parsers network.deregister_at now agent.base_url agent_public_key
        request

  abbrev pub listed_now : Outcome (List Agent)
  listed_now =
      fetch_operational_agents directory.parse_agents_json directory.base_url_for
        network.agents_json

  -- `AgentDirectory::heartbeat`
  unfoldable pub heartbeat :
      ConnectorHeartbeatRequest → AgentDirectory × Answer ConnectorHeartbeatResponse
  unfolding fetch_operational_agents heartbeat_through ask_for_heartbeat
  heartbeat request =
      let (state, answer) =
        ask_for_heartbeat (heartbeat_through request) directory.state listed_now in
      (record directory { state = state }, answer)

  -- `AgentDirectory::deregister`
  unfoldable pub deregister :
      ℕ → ConnectorDeregisterRequest → AgentDirectory × Answer ConnectorDeregisterResponse
  unfolding fetch_operational_agents deregister_through ask_to_deregister
  deregister now request =
      let (state, answer) =
        ask_to_deregister (deregister_through now request) directory.state listed_now in
      (record directory { state = state }, answer)
