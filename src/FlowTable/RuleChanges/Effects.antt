-- ===== src/FlowTable/RuleChanges/Effects.antt =====
-- What a heartbeat's port rules do to the flows of their gateway, and what stays remembered.
use secure_connect_connector.HashMap.Laws.{IsUnique, get-map_values, map_values-IsUnique}
use secure_connect_connector.HashMap.{HashMap, get, insert, map_values}
use secure_connect_connector.Base.{
  Bool, List, Option, Option-cases, String, [], and_then, arith, false, if◌then◌else◌, inl, inr,
  none, refl, some, string_key, sym, ℕ, ◌==◌, ◌∷◌, ◌≡◌,
}
use secure_connect_connector.Dto.{PortRule, rules}
use secure_connect_connector.FlowTable.Types.{
  AdmittedFlow, FlowKey, FlowTable, RuleEndedFlow, flow_key,
}
use secure_connect_connector.FlowTable.Rules.{still_served}
use secure_connect_connector.FlowTable.RuleChanges.{
  end_flows, ended_flows, refresh_flow, unserved, update_rules,
}
use secure_connect_connector.FlowTable.Invariant.Selection.{get-remove_flows_where, selected}

ended_flows_none :
    (drop_it : FlowKey → AdmittedFlow → Bool) (flows : HashMap FlowKey AdmittedFlow) (k : FlowKey)
    → ended_flows drop_it flows ≡ []
    → selected drop_it k (get k flows) ≡ false
unfolding ended_flows selected get
ended_flows_none drop_it [] k e = refl
ended_flows_none drop_it ((key, flow) ∷ flows) k e =
    ground (arith, ended_flows_none drop_it flows k)

get-end_flows :
    (table : FlowTable) (drop_it : FlowKey → AdmittedFlow → Bool) (now : ℕ)
    (ended : List RuleEndedFlow) (k : FlowKey)
    → IsUnique table.flows
    → ended ≡ ended_flows drop_it table.flows
    → get k (end_flows table drop_it now ended).0.flows
      ≡ (if selected drop_it k (get k table.flows) then none else get k table.flows)
unfolding end_flows
get-end_flows table drop_it now [] k u e =
    ground (arith, ended_flows_none drop_it table.flows k (sym e))
get-end_flows table drop_it now (flow ∷ flows) k u e = get-remove_flows_where table drop_it k u

-- A flow after a heartbeat's rules for a gateway: a flow of another gateway is as it was, a flow of
-- that gateway has the new rules, or is gone where they no longer serve it.
unfoldable pub after_rules : String → List PortRule → FlowKey → AdmittedFlow → Option AdmittedFlow
after_rules gateway_id rules key flow =
    if flow.gateway_id == gateway_id
    then (if still_served key (record flow { rules = rules }) rules
        then some (record flow { rules = rules })
        else none)
    else some flow

-- In a table whose keys are unique, a heartbeat's rules for a gateway leave a flow of another
-- gateway as it was, give a flow of that gateway the new rules, and remove it where those no
-- longer serve it.
pub get-update_rules :
    (table : FlowTable) (gateway_id : String) (rules : List PortRule) (now : ℕ) (k : FlowKey)
    → IsUnique table.flows
    → get k (update_rules table gateway_id rules now).0.flows
      ≡ and_then (get k table.flows) (after_rules gateway_id rules k)
unfolding update_rules refresh_flow unserved after_rules selected
get-update_rules table gateway_id rules now k u =
    let refreshed = map_values (refresh_flow gateway_id rules) table.flows in
    rw
      (get-end_flows
        (record table {
          gateway_rules = insert gateway_id rules table.gateway_rules;
          flows = refreshed;
        })
        (unserved gateway_id rules) now (ended_flows (unserved gateway_id rules) refreshed) k
        (map_values-IsUnique _ table.flows u) refl)
      (elim (Option-cases (get k table.flows)) [
        | inl e ↦ ground (arith, get-map_values (refresh_flow gateway_id rules) k table.flows)
        | inr (flow, e) ↦
            ground (arith, get-map_values (refresh_flow gateway_id rules) k table.flows)
      ])

end_flows_result :
    (table : FlowTable) (drop_it : FlowKey → AdmittedFlow → Bool) (now : ℕ)
    (ended : List RuleEndedFlow)
    → (end_flows table drop_it now ended).1 ≡ ended
unfolding end_flows
end_flows_result table drop_it now [] = refl
end_flows_result table drop_it now (flow ∷ flows) = refl

-- The flows that `update_rules` reports are those that it ends, in the map's order.
pub update_rules_report :
    (table : FlowTable) (gateway_id : String) (rules : List PortRule) (now : ℕ)
    → (update_rules table gateway_id rules now).1
      ≡ ended_flows
          (unserved gateway_id rules)
          (map_values (refresh_flow gateway_id rules) table.flows)
unfolding update_rules
update_rules_report table gateway_id rules now =
    end_flows_result _ (unserved gateway_id rules) now _
