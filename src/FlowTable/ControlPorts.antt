-- ===== src/FlowTable/ControlPorts.antt =====
-- src/flow_table.rs: the bounded maps from a control channel's port to its node, one for the
-- connections that the node opened and one for those that the Connector opened.
pub mod Bounds
use secure_connect_connector.Base.{
  List, Option, String, [], if◌then◌else◌, length, ltb, nat_key, not, string_key, ℕ, ◌++◌, ◌==◌,
  ◌∷◌,
}
use secure_connect_connector.HashMap.{HashMap, contains_key, get, insert, remove, retain}
use secure_connect_connector.FlowTable.Types.{FlowTable, max_tracked_control_channel_ports}

-- A map and the order of its ports, the oldest first.
pub record BoundedPorts : Type 0 where
  pub ports : HashMap ℕ String
  pub order : List ℕ

-- `order.pop_front()`, where the order holds a port.
unfoldable pub evict_oldest : BoundedPorts → BoundedPorts
evict_oldest m = elim m.order [
  | [] ↦ m
  | oldest ∷ rest ↦ record { ports = remove oldest m.ports; order = rest }
]

unfoldable pub record_bounded_port : BoundedPorts → String → ℕ → BoundedPorts
unfolding evict_oldest
record_bounded_port m node_id port =
    if contains_key port m.ports
    then record m { ports = insert port node_id m.ports }
    else let pushed : BoundedPorts = record {
      ports = insert port node_id m.ports;
      order = m.order ++ port ∷ [];
    } in
      if ltb max_tracked_control_channel_ports (length pushed.order)
      then evict_oldest pushed
      else pushed

unfoldable pub retain_ports : HashMap ℕ String → List ℕ → List ℕ
retain_ports ports [] = []
retain_ports ports (port ∷ order) =
    if contains_key port ports then port ∷ retain_ports ports order else retain_ports ports order

unfoldable pub forget_node_ports : BoundedPorts → String → BoundedPorts
unfolding retain_ports
forget_node_ports m node_id =
    let kept = retain (λ _ owner. not (owner == node_id)) m.ports in
    record { ports = kept; order = retain_ports kept m.order }

abbrev pub inbound : FlowTable → BoundedPorts
inbound table = record {
  ports = table.control_channel_ports;
  order = table.control_channel_port_order;
}

abbrev pub outbound : FlowTable → BoundedPorts
outbound table = record {
  ports = table.outbound_control_channel_ports;
  order = table.outbound_control_channel_port_order;
}

unfoldable pub record_control_channel_port : FlowTable → String → ℕ → FlowTable
record_control_channel_port table node_id port =
    let m = record_bounded_port (inbound table) node_id port in
    record table { control_channel_ports = m.ports; control_channel_port_order = m.order }

unfoldable pub node_for_control_channel_port : FlowTable → ℕ → Option String
node_for_control_channel_port table port = get port table.control_channel_ports

unfoldable pub record_outbound_control_channel_port : FlowTable → String → ℕ → FlowTable
record_outbound_control_channel_port table node_id port =
    let m = record_bounded_port (outbound table) node_id port in
    record table {
      outbound_control_channel_ports = m.ports;
      outbound_control_channel_port_order = m.order;
    }

unfoldable pub node_for_outbound_control_channel_source_port : FlowTable → ℕ → Option String
node_for_outbound_control_channel_source_port table port =
    get port table.outbound_control_channel_ports
