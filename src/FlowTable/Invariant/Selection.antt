-- ===== src/FlowTable/Invariant/Selection.antt =====
-- Which flows `remove_flows_where` removes.
use secure_connect_connector.Base.{
  Bool, List, Option, [], arith, elem, false, if◌then◌else◌, nat_key, none, refl, some, string_key,
  ◌∷◌, ◌≡◌,
}
use secure_connect_connector.HashMap.{HashMap, get}
use secure_connect_connector.HashMap.Laws.{IsUnique}
use secure_connect_connector.FlowTable.Types.{AdmittedFlow, FlowKey, FlowTable, flow_key}
use secure_connect_connector.FlowTable.Flows.{
  remove_flow, remove_flows, remove_flows_where, selected_keys,
}
use secure_connect_connector.FlowTable.Invariant.Removal.{
  IsValid, get-remove_flow, remove_flows-IsValid,
}

get-remove_flows :
    (table : FlowTable) (keys : List FlowKey) (k : FlowKey)
    → get k (remove_flows table keys).flows ≡ (if elem k keys then none else get k table.flows)
unfolding remove_flows elem
get-remove_flows table [] k = refl
get-remove_flows table (key ∷ keys) k =
    ground (arith, get-remove_flows (remove_flow table key) keys k, get-remove_flow table key k)

unfoldable pub selected : (FlowKey → AdmittedFlow → Bool) → FlowKey → Option AdmittedFlow → Bool
selected drop_it k none = false
selected drop_it k (some flow) = drop_it k flow

pub elem-selected_keys :
    (drop_it : FlowKey → AdmittedFlow → Bool) (flows : HashMap FlowKey AdmittedFlow) (k : FlowKey)
    → IsUnique flows
    → elem k (selected_keys drop_it flows) ≡ selected drop_it k (get k flows)
unfolding elem selected_keys selected get
elem-selected_keys drop_it [] k u = refl
elem-selected_keys drop_it ((key, flow) ∷ flows) k u =
    ground (arith, elem-selected_keys drop_it flows k u.1)

-- The selected flows are gone, and no other changes.
pub get-remove_flows_where :
    (table : FlowTable) (drop_it : FlowKey → AdmittedFlow → Bool) (k : FlowKey)
    → IsUnique table.flows
    → get k (remove_flows_where table drop_it).0.flows
      ≡ (if selected drop_it k (get k table.flows) then none else get k table.flows)
unfolding remove_flows_where
get-remove_flows_where table drop_it k u =
    rw (get-remove_flows, elem-selected_keys drop_it table.flows k u)

pub remove_flows_where-IsValid :
    (table : FlowTable) (drop_it : FlowKey → AdmittedFlow → Bool)
    → IsValid table
    → IsValid (remove_flows_where table drop_it).0
unfolding remove_flows_where
remove_flows_where-IsValid table drop_it valid =
    remove_flows-IsValid table (selected_keys drop_it table.flows) valid
