-- ===== src/AgentDirectory/Operational.antt =====
-- src/agent_directory.rs: which Agents a fetched list names.
use secure_connect_connector.Heartbeat.Trust.{>>-ok, >>=-ok, context-ok, ensure-ok}
use secure_connect_connector.Heartbeat.{
  HttpResponse, body_unparseable, context, ensure, is_success, ok, returned,
}
use Prim.Native.String.{String}
use secure_connect_connector.AgentDirectory.{
  Agent, AgentsJsonEntry, agent_key, fetch_operational_agents, operational_agents,
  operational_status,
}
use secure_connect_connector.Text.{eq_ignore_ascii_case, is_empty, trim}
use secure_connect_connector.Base.{
  Bool, IsDistinct, IsDistinct-append, List, Option, [], and_then, arith, elem, elem-append, false,
  if◌then◌else◌, none, not, some, true, ℕ, ◌&&◌, ◌++◌, ◌==◌, ◌||◌, ◌∷◌, ◌≡◌,
}

agent_of : (String → String) → AgentsJsonEntry → Agent
agent_of base_url_for entry = record {
  ip_address = trim entry.ip_address;
  base_url = base_url_for (trim entry.ip_address);
}

is_operational : AgentsJsonEntry → Bool
is_operational entry =
    eq_ignore_ascii_case (trim entry.status) operational_status
    && not (is_empty (trim entry.ip_address))

-- Some operational entry is this Agent's.
unfoldable pub lists_operational : (String → String) → List AgentsJsonEntry → Agent → Bool
unfolding agent_of is_operational
lists_operational base_url_for [] agent = false
lists_operational base_url_for (entry ∷ entries) agent =
    (is_operational entry && agent_of base_url_for entry == agent)
    || lists_operational base_url_for entries agent

elem-operational_agents :
    (base_url_for : String → String) (entries : List AgentsJsonEntry) (agents : List Agent)
    (agent : Agent)
    → elem agent (operational_agents base_url_for entries agents)
      ≡ (elem agent agents || lists_operational base_url_for entries agent)
unfolding operational_agents lists_operational elem
elem-operational_agents base_url_for [] agents agent = ground arith
elem-operational_agents base_url_for (entry ∷ entries) agents agent =
    let new = agent_of base_url_for entry in
    let next =
      if not (eq_ignore_ascii_case (trim entry.status) operational_status)
        || is_empty (trim entry.ip_address)
      then agents
      else if elem new agents
      then agents
      else agents ++ new ∷ [] in
    ground (
      arith,
      elem-operational_agents base_url_for entries next agent,
      elem-append agent agents (new ∷ []),
    )

IsDistinct-operational_agents :
    (base_url_for : String → String) (entries : List AgentsJsonEntry) (agents : List Agent)
    → IsDistinct agents
    → IsDistinct (operational_agents base_url_for entries agents)
unfolding operational_agents
IsDistinct-operational_agents base_url_for [] agents d = d
IsDistinct-operational_agents base_url_for (entry ∷ entries) agents d =
    let new : Agent = record {
      ip_address = trim entry.ip_address;
      base_url = base_url_for (trim entry.ip_address);
    } in
    IsDistinct-operational_agents base_url_for entries _
      (ground (arith, IsDistinct-append new agents d))

-- What `fetch_operational_agents` lists where it succeeds: the response is a success whose body
-- parses, an Agent is listed exactly where some entry with the status operational, in any case and
-- trimmed, has its address, trimmed and not empty, and no Agent is listed twice.
pub fetch_operational_agents-ok :
    (parse : List ℕ → Option (List AgentsJsonEntry)) (base_url_for : String → String)
    (response : HttpResponse) (agents : List Agent)
    → fetch_operational_agents parse base_url_for (some response) ≡ ok agents
    → (is_success response.status ≡ true)
      × ((entries : List AgentsJsonEntry) × (and_then response.body parse ≡ some entries)
          × ((agent : Agent) → elem agent agents ≡ lists_operational base_url_for entries agent)
          × IsDistinct agents)
unfolding fetch_operational_agents
fetch_operational_agents-ok parse base_url_for response agents h =
    let (success, rest) =
      >>-ok (ensure (is_success response.status) (returned response.status)) _ h in
    let (entries, parsed, last) =
      >>=-ok (context body_unparseable (and_then response.body parse)) _ rest in
    let same : operational_agents base_url_for entries [] ≡ agents = cc last in
    (
      ensure-ok _ _ success,
      (
        entries,
        context-ok _ _ parsed,
        rw same at (elem-operational_agents base_url_for entries []),
        rw same at (IsDistinct-operational_agents base_url_for entries [] tt),
      ),
    )

pub IsDistinct-fetch_operational_agents :
    (parse : List ℕ → Option (List AgentsJsonEntry)) (base_url_for : String → String)
    (fetched : Option HttpResponse) (agents : List Agent)
    → fetch_operational_agents parse base_url_for fetched ≡ ok agents
    → IsDistinct agents
unfolding fetch_operational_agents
IsDistinct-fetch_operational_agents parse base_url_for none agents h = cc h
IsDistinct-fetch_operational_agents parse base_url_for (some response) agents h =
    (fetch_operational_agents-ok parse base_url_for response agents h).1.3
