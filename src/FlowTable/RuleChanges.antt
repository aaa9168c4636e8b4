-- ===== src/FlowTable/RuleChanges.antt =====
-- src/flow_table.rs: a heartbeat's port rules brought to the flows, and the memory of the flows
-- that a rule change ended.
pub mod Memory
pub mod Effects
use secure_connect_connector.Base.{
  Bool, List, Option, String, [], false, if◌then◌else◌, leb, length, ltb, nat_key, none, not, some,
  string_key, true, ℕ, ◌&&◌, ◌==◌, ◌∷◌,
}
use secure_connect_connector.HashMap.{HashMap, get, insert, map_values, remove, retain}
use secure_connect_connector.Dto.{PortRule, rules}
use secure_connect_connector.Net.{duration_since}
use secure_connect_connector.FlowTable.Types.{
  AdmittedFlow, Dialled, FlowKey, FlowTable, RuleEndedFlow, flow_key, max_rule_ended_flows,
  rule_ended_flow_memory,
}
use secure_connect_connector.FlowTable.Rules.{still_served}
use secure_connect_connector.FlowTable.Flows.{remove_flows_where, selected_keys}

-- The binding with the earliest instant, the first of several in the map's order.
unfoldable pub oldest_seen : HashMap FlowKey ℕ → Option (FlowKey × ℕ)
oldest_seen [] = none
oldest_seen ((key, seen) ∷ m) = elim (oldest_seen m) [
  | none ↦ some (key, seen)
  | some (other, least) ↦ if ltb least seen then some (other, least) else some (key, seen)
]

unfoldable pub remember_rule_ended : HashMap FlowKey ℕ → FlowKey → ℕ → HashMap FlowKey ℕ
unfolding oldest_seen
remember_rule_ended ended key now =
    let recent = retain (λ _ seen. leb (duration_since now seen) rule_ended_flow_memory) ended in
    let room =
      if leb max_rule_ended_flows (length recent)
      then elim (oldest_seen recent) [ none ↦ recent | some (oldest, _) ↦ remove oldest recent ]
      else recent in
    insert key now room

unfoldable pub remember_all : HashMap FlowKey ℕ → List FlowKey → ℕ → HashMap FlowKey ℕ
unfolding remember_rule_ended
remember_all ended [] now = ended
remember_all ended (key ∷ keys) now = remember_all (remember_rule_ended ended key now) keys now

-- The flows that the new rules no longer serve.
unfoldable pub unserved : String → List PortRule → FlowKey → AdmittedFlow → Bool
unfolding still_served
unserved gateway_id rules key flow =
    flow.gateway_id == gateway_id && not (still_served key flow rules)

unfoldable pub ended_flows :
    (FlowKey → AdmittedFlow → Bool) → HashMap FlowKey AdmittedFlow → List RuleEndedFlow
ended_flows drop_it [] = []
ended_flows drop_it ((key, flow) ∷ flows) =
    if drop_it key flow
    then record { flow_id = flow.flow_id; device_public_key = flow.device_public_key }
      ∷ ended_flows drop_it flows
    else ended_flows drop_it flows

unfoldable pub refresh_flow : String → List PortRule → AdmittedFlow → AdmittedFlow
refresh_flow gateway_id rules flow =
    if flow.gateway_id == gateway_id then record flow { rules = rules } else flow

-- The tail of `update_rules`, which is skipped where no flow ended.
unfoldable pub end_flows :
    FlowTable
    → (FlowKey → AdmittedFlow → Bool)
    → ℕ
    → List RuleEndedFlow
    → FlowTable × List RuleEndedFlow
unfolding remove_flows_where remember_all
end_flows table drop_it now [] = (table, [])
end_flows table drop_it now (flow ∷ flows) =
    let ended_keys = selected_keys drop_it table.flows in
    let kept = (remove_flows_where table drop_it).0 in
    (
      record kept { rule_ended_flows = remember_all kept.rule_ended_flows ended_keys now },
      flow ∷ flows,
    )

unfoldable pub update_rules :
    FlowTable → String → List PortRule → ℕ → FlowTable × List RuleEndedFlow
unfolding unserved ended_flows refresh_flow end_flows
update_rules table gateway_id rules now =
    let refreshed : FlowTable = record table {
      gateway_rules = insert gateway_id rules table.gateway_rules;
      flows = map_values (refresh_flow gateway_id rules) table.flows;
    } in
    let drop_it = unserved gateway_id rules in
    end_flows refreshed drop_it now (ended_flows drop_it refreshed.flows)

-- One candidate of the loop in `is_rule_ended`: the memory after it, and whether it was a hit.
unfoldable pub check_ended : HashMap FlowKey ℕ → FlowKey → ℕ → HashMap FlowKey ℕ × Bool
check_ended ended key now = elim (get key ended) [
  | none ↦ (ended, false)
  | some seen ↦
      if leb (duration_since now seen) rule_ended_flow_memory
      then (insert key now ended, true)
      else (remove key ended, false)
]

unfoldable pub is_rule_ended : FlowTable → String → ℕ → Option Dialled → ℕ → FlowTable × Bool
unfolding check_ended
is_rule_ended table node_id port dialled now =
    let (first, hit) =
      check_ended table.rule_ended_flows
        (record { node_id = node_id; port = port; dialled = dialled }) now in
    let (second, other_hit) =
      check_ended first (record { node_id = node_id; port = port; dialled = none }) now in
    if hit
    then (record table { rule_ended_flows = first }, true)
    else (record table { rule_ended_flows = second }, other_hit)

unfoldable pub current_rules : FlowTable → String → Option (List PortRule)
current_rules table gateway_id = get gateway_id table.gateway_rules

unfoldable pub retain_gateway_rules : FlowTable → (String → Bool) → FlowTable
retain_gateway_rules table keep = record table {
  gateway_rules = retain (λ gateway_id _. keep gateway_id) table.gateway_rules;
}
