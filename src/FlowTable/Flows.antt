-- ===== src/FlowTable/Flows.antt =====
-- src/flow_table.rs: admitting, releasing and evicting flows. `Instant::now()` is an argument.
pub mod Effects
pub mod Gone
use secure_connect_connector.Base.{
  Bool, List, Option, String, [], false, if◌then◌else◌, leb, length, nat_key, none, option_map,
  some, string_key, ℕ, ◌&&◌, ◌==◌, ◌∷◌,
}
use secure_connect_connector.HashMap.{HashMap, HashSet, get, insert, remove, retain}
use secure_connect_connector.Net.{duration_since}
use secure_connect_connector.Dto.{PortRule, rules}
use secure_connect_connector.FlowTable.Types.{
  AdmittedFlow, Dialled, FlowKey, FlowTable, allocation_key, flow_key, released_flow_memory,
}
use secure_connect_connector.FlowTable.ControlPorts.{forget_node_ports, inbound, outbound}

-- What is left of a port's set; an empty set is dropped.
unfoldable pub keep_nodes :
    HashMap ℕ (HashSet String) → ℕ → HashSet String → HashMap ℕ (HashSet String)
keep_nodes index port [] = remove port index
keep_nodes index port (node ∷ nodes) = insert port (node ∷ nodes) index

-- `deindex`, on the index that it changes.
unfoldable pub deindex : HashMap ℕ (HashSet String) → String → ℕ → HashMap ℕ (HashSet String)
unfolding keep_nodes
deindex index node_id port = elim (get port index) [
  | none ↦ index
  | some nodes ↦ keep_nodes index port (remove node_id nodes)
]

-- `entry(port).or_default().insert(node_id)`
unfoldable pub index_node : HashMap ℕ (HashSet String) → String → ℕ → HashMap ℕ (HashSet String)
index_node index node_id port = elim (get port index) [
  | none ↦ insert port ((node_id, tt) ∷ []) index
  | some nodes ↦ insert port (insert node_id tt nodes) index
]

-- The tail of `remove_flow`: what a removed flow held is freed.
unfoldable pub free_flow : FlowTable → FlowKey → AdmittedFlow → FlowTable
unfolding deindex
free_flow table key removed = elim key.dialled [
  | none ↦ record table { nodes_by_port = deindex table.nodes_by_port key.node_id key.port }
  | some dialled ↦ elim removed.allocation [
    | none ↦ table
    | some allocation ↦ record table {
      dialled_by_allocation =
          remove (dialled.transport, allocation.target.0, allocation.target.1, allocation.port)
            table.dialled_by_allocation;
    }
  ]
]

unfoldable pub remove_flow : FlowTable → FlowKey → FlowTable
unfolding free_flow
remove_flow table key = elim (get key table.flows) [
  | none ↦ table
  | some removed ↦ free_flow (record table { flows = remove key table.flows }) key removed
]

unfoldable pub selected_keys :
    (FlowKey → AdmittedFlow → Bool) → HashMap FlowKey AdmittedFlow → List FlowKey
selected_keys drop_it [] = []
selected_keys drop_it ((key, flow) ∷ flows) =
    if drop_it key flow then key ∷ selected_keys drop_it flows else selected_keys drop_it flows

unfoldable pub remove_flows : FlowTable → List FlowKey → FlowTable
unfolding remove_flow
remove_flows table [] = table
remove_flows table (key ∷ keys) = remove_flows (remove_flow table key) keys

unfoldable pub remove_flows_where : FlowTable → (FlowKey → AdmittedFlow → Bool) → FlowTable × ℕ
unfolding selected_keys remove_flows
remove_flows_where table drop_it =
    let removed = selected_keys drop_it table.flows in (remove_flows table removed, length removed)

unfoldable pub new_flow : FlowKey → String → String → String → List PortRule → AdmittedFlow
new_flow key gateway_id flow_id device_public_key rules = record {
  gateway_id = gateway_id;
  flow_id = flow_id;
  device_public_key = device_public_key;
  rules = rules;
  virtual_address = option_map (λ (dialled : Dialled). dialled.gateway_address) key.dialled;
  allocation = none;
  served = none;
}

-- The `match dialled` of `admit_flow`.
unfoldable pub index_flow : FlowTable → FlowKey → FlowTable
unfolding index_node
index_flow table key = elim key.dialled [
  | some _ ↦ record table { dialled_nodes = insert key.node_id tt table.dialled_nodes }
  | none ↦ record table { nodes_by_port = index_node table.nodes_by_port key.node_id key.port }
]

unfoldable pub admit_flow :
    FlowTable → String → ℕ → Option Dialled → String → String → String → List PortRule → FlowTable
unfolding new_flow index_flow remove_flow
admit_flow table node_id port dialled gateway_id flow_id device_public_key rules =
    let key : FlowKey = record { node_id = node_id; port = port; dialled = dialled } in
    let removed = remove_flow table key in
    let indexed =
      index_flow (record removed { rule_ended_flows = remove key removed.rule_ended_flows }) key in
    record indexed {
      flows = insert key (new_flow key gateway_id flow_id device_public_key rules) indexed.flows;
    }

unfoldable pub release : FlowTable → String → ℕ → FlowTable
unfolding remove_flows_where
release table flow_id now =
    let kept = (remove_flows_where table (λ _ flow. flow.flow_id == flow_id)).0 in
    let recent =
      retain (λ _ released_at. leb (duration_since now released_at) released_flow_memory)
        kept.recently_released in
    record kept { recently_released = insert flow_id now recent }

unfoldable pub was_recently_released : FlowTable → String → ℕ → Bool
was_recently_released table flow_id now = elim (get flow_id table.recently_released) [
  | none ↦ false
  | some released_at ↦ leb (duration_since now released_at) released_flow_memory
]

unfoldable pub evict_node : FlowTable → String → FlowTable
unfolding remove_flows_where forget_node_ports
evict_node table node_id =
    let kept = (remove_flows_where table (λ key _. key.node_id == node_id)).0 in
    let opened_by_node = forget_node_ports (inbound kept) node_id in
    let opened_here = forget_node_ports (outbound kept) node_id in
    record kept {
      dialled_nodes = remove node_id kept.dialled_nodes;
      control_channel_ports = opened_by_node.ports;
      control_channel_port_order = opened_by_node.order;
      outbound_control_channel_ports = opened_here.ports;
      outbound_control_channel_port_order = opened_here.order;
    }

unfoldable pub evict_gateway_device : FlowTable → String → String → FlowTable × ℕ
unfolding remove_flows_where
evict_gateway_device table gateway_id device_public_key =
    remove_flows_where table
      λ _ flow. flow.gateway_id == gateway_id && flow.device_public_key == device_public_key

unfoldable pub gateway_for : FlowTable → String → ℕ → Option String
gateway_for table node_id port =
    option_map (λ (flow : AdmittedFlow). flow.gateway_id)
      (get (record { node_id = node_id; port = port; dialled = none }) table.flows)
