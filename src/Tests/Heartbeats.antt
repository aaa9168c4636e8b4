-- ===== src/Tests/Heartbeats.antt =====
-- The theorems on heartbeats, Agents and deregistrations, at the fleet.
use secure_connect_connector.Cycle.Reports.{
  IsDelivered, answered_heartbeats, run_heartbeats-IsDelivered,
}
use secure_connect_connector.GatewayEnd.Waiting.{Waits}
use secure_connect_connector.Package.{Connector, Surroundings}
use secure_connect_connector.Tests.Reports.{queue, report}
use secure_connect_connector.Heartbeat.Trust.{IsTrusted, fetch_and_verify_iff}
use secure_connect_connector.AgentDirectory.Failover.{IsAnswer}
use secure_connect_connector.FlowTable.Invariant.Histories.{run, step}
use secure_connect_connector.FlowTable.Flows.{admit_flow, new_flow}
use secure_connect_connector.AgentDirectory.Candidates.{IsOrder, candidates-IsOrder, listed_by}
use secure_connect_connector.AgentDirectory.Trust.{IsFrom, heartbeat-IsAnswer}
use secure_connect_connector.Cycle.Revoked.{WasEntitled, run_heartbeat_ended}
use secure_connect_connector.Heartbeat.{ConnectorHeartbeatRequest, fetch_and_verify, ok}
use secure_connect_connector.Net.{Ipv4Addr-discrete}
use mathlib.Core.List.{Memᴰ}
use secure_connect_connector.AgentDirectory.{
  Agent, Agent-discrete, agent_key, candidates, fetch_operational_agents, heartbeat,
  heartbeat_through,
}
use secure_connect_connector.Cycle.{ask, request_of, run_heartbeat}
use secure_connect_connector.Cycle.Invariant.{IsSound, run_heartbeats, run_heartbeats-IsSound}
use secure_connect_connector.Cycle.Trust.{
  IsBeaten, IsInForce, IsUntouched, run_heartbeat-IsInForce, run_heartbeat-IsUntouched,
}
use secure_connect_connector.FlowTable.Types.{
  AdmittedFlow, FlowKey-discrete, flow_key, new as empty_table,
}
use secure_connect_connector.FlowTable.Rules.{serves}
use secure_connect_connector.HashMap.{get, insert, map_values, retain}
use secure_connect_connector.Policy.{PolicyState}
use secure_connect_connector.GatewayEnd.{GatewayEndReport}
use secure_connect_connector.Revocation.{still_entitled}
use secure_connect_connector.Dto.{ConnectorHeartbeatResponse}
use secure_connect_connector.Tests.Fleet.{
  agent, agrees, around, bundle, connector, crypto, directory, entitled, fresh_package, in_force,
  libraries, network, parsers,
}
use secure_connect_connector.Tests.Data.{two_flows, two_flows-IsValid, web_key, web_rule}
use secure_connect_connector.Base.{
  List, String-discrete, [], arith, elem, none, refl, some, string_key, true, ℕ_discrete, ◌↔◌, ◌∷◌,
  ◌≡◌,
}

connector-IsSound : IsSound libraries connector
unfolding get
connector-IsSound = record {
  table = two_flows-IsValid;
  pollers = λ node_id id e. ground arith;
  listed = tt;
}

run_heartbeats-IsSound_example :
    IsSound libraries (run_heartbeats libraries "own" (around ∷ around ∷ []) connector)
run_heartbeats-IsSound_example =
    run_heartbeats-IsSound libraries "own" (around ∷ around ∷ []) connector connector-IsSound

beaten : IsBeaten libraries (run_heartbeat libraries "own" around connector).2
unfolding run_heartbeat String-discrete ℕ_discrete
beaten = tt

run_heartbeat-IsInForce_example :
    (response : ConnectorHeartbeatResponse) × (answerer : Agent) × IsFrom crypto parsers network
      directory
      (request_of libraries "own" connector (ask libraries "own" around connector).1)
      response
      answerer
    × IsInForce parsers.parse_from_rfc3339
        (run_heartbeat libraries "own" around connector).0.policy_store
        response
        7
run_heartbeat-IsInForce_example = run_heartbeat-IsInForce libraries "own" around connector beaten

-- No Agent can be reached.
abbrev cut_off : Surroundings (List GatewayEndReport)
cut_off = record around { network = record network { heartbeat_at = λ _ _. none } }

not-IsBeaten : ¬ IsBeaten libraries (run_heartbeat libraries "own" cut_off connector).2
unfolding run_heartbeat String-discrete ℕ_discrete
not-IsBeaten b = b

run_heartbeat-IsUntouched_example :
    IsUntouched libraries connector (run_heartbeat libraries "own" cut_off connector).0
run_heartbeat-IsUntouched_example =
    run_heartbeat-IsUntouched libraries "own" cut_off connector not-IsBeaten

abbrev web_flow : AdmittedFlow
web_flow = new_flow web_key "g1" "f1" "k1" (web_rule ∷ [])

was_entitled : WasEntitled libraries (bundle ∷ []) "g1" "k1"
was_entitled = record {
  bundle = bundle;
  entitlement = entitled;
  listed = Memᴰ.head refl;
  gateway = refl;
  entry = Memᴰ.head refl;
  device = refl;
}

run_heartbeat_ended_example :
    (after : PolicyState) × ((run_heartbeat libraries "own" around connector).0.policy_store.state
      ≡ some after)
    × (still_entitled after.policy_bundles "g1" "k1" ≡ true)
unfolding run_heartbeat two_flows run step admit_flow new_flow empty_table get insert
    String-discrete ℕ_discrete Ipv4Addr-discrete FlowKey-discrete map_values retain serves
run_heartbeat_ended_example =
    run_heartbeat_ended libraries "own" around connector in_force web_key web_flow connector-IsSound
      refl was_entitled beaten refl

fetch_and_verify_iff_example :
    (fetch_and_verify crypto parsers network.heartbeat_at "https://a/" "hex" (record {
      connector_public_key = "own";
      unresolved_endpoint_hosts = none;
      ended_flows = [];
    })
      ≡ ok fresh_package)
    ↔ IsTrusted crypto parsers network.heartbeat_at "https://a/" "hex"
        (record {
          connector_public_key = "own";
          unresolved_endpoint_hosts = none;
          ended_flows = [];
        })
        fresh_package
fetch_and_verify_iff_example =
    fetch_and_verify_iff crypto parsers network.heartbeat_at "https://a/" "hex"
      (record { connector_public_key = "own"; unresolved_endpoint_hosts = none; ended_flows = [] })
      fresh_package

abbrev plain_request : ConnectorHeartbeatRequest
plain_request = record {
  connector_public_key = "own";
  unresolved_endpoint_hosts = none;
  ended_flows = [];
}

heartbeat-IsAnswer_example : IsAnswer (heartbeat crypto parsers network directory plain_request).1
unfolding fetch_operational_agents heartbeat_through listed_by elem String-discrete ℕ_discrete
    Agent-discrete
heartbeat-IsAnswer_example =
    heartbeat-IsAnswer crypto parsers network directory plain_request agent refl tt

candidates-IsOrder_example :
    IsOrder (record { last_listed = agent ∷ []; last_answered = none }) (agent ∷ [])
unfolding candidates fetch_operational_agents listed_by String-discrete ℕ_discrete Agent-discrete
candidates-IsOrder_example =
    candidates-IsOrder directory.parse_agents_json directory.base_url_for (some agrees)
      directory.state (agent ∷ []) tt refl

-- The connector with two reports in its queue, of which the second has one before it.
abbrev reporting : Connector libraries
reporting = record connector { gateway_end_queue = queue }

abbrev second : GatewayEndReport
second = record report { report_id = "r2" }

waits : Waits second 1 reporting.gateway_end_queue.reports
unfolding elem String-discrete
waits = record { before = report ∷ []; behind = []; place = refl; few = omega arith; alone = refl }

heartbeats_answered : answered_heartbeats libraries "own" (around ∷ []) reporting ≡ 1
unfolding answered_heartbeats run_heartbeat String-discrete ℕ_discrete
heartbeats_answered = refl

run_heartbeats-IsDelivered_example : IsDelivered libraries "own" (around ∷ []) reporting second
run_heartbeats-IsDelivered_example =
    run_heartbeats-IsDelivered libraries "own" (around ∷ []) reporting second 1 waits
      (omega (arith, heartbeats_answered))
