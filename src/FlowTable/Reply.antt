-- ===== src/FlowTable/Reply.antt =====
-- src/flow_table.rs: where a packet read from the TUN device goes.
pub mod Nodes
use secure_connect_connector.Base.{
  Option, String, [], and_then, if◌then◌else◌, nat_key, none, some, ℕ, ◌∷◌,
}
use secure_connect_connector.HashMap.{contains_key, get}
use secure_connect_connector.Net.{Ipv4Addr}
use secure_connect_connector.FlowTable.Types.{
  AllocationKey, FlowTable, ReplyMiss, ReplyRoute, Transport, allocation_key, flow_key,
  no_address_yet, no_flow, restore, unchanged,
}
use secure_connect_connector.FlowTable.ControlPorts.{
  node_for_control_channel_port, node_for_outbound_control_channel_source_port,
}

-- `Result<ReplyRoute, ReplyMiss>`
pub data Routed : Type 0 where
  ok : ReplyRoute → Routed
  err : ReplyMiss → Routed

unfoldable pub node_for_port : FlowTable → ℕ → Option String
node_for_port table port = elim (get port table.nodes_by_port) [
  | some ((node_id, _) ∷ []) ↦ some node_id
  | _ ↦ none
]

-- Its fourth step: a flow admitted without an identity.
unfoldable pub route_legacy : FlowTable → ℕ → Routed
unfolding node_for_port
route_legacy table destination_port = elim (node_for_port table destination_port) [
  | none ↦ err no_flow
  | some node_id ↦
      let flow =
        get (record { node_id = node_id; port = destination_port; dialled = none }) table.flows in
      elim flow [
        | none ↦ err (no_address_yet node_id)
        | some admitted ↦ elim admitted.virtual_address [
          | none ↦ err (no_address_yet node_id)
          | some source ↦ ok (restore node_id source none none)
        ]
      ]
]

-- Its second and third steps: the control channels, by source port and by destination port.
unfoldable pub route_control : FlowTable → Option ℕ → ℕ → Routed
unfolding node_for_outbound_control_channel_source_port node_for_control_channel_port route_legacy
route_control table source_port destination_port =
    let opened_here = and_then source_port (node_for_outbound_control_channel_source_port table) in
    elim opened_here [
      | some node_id ↦ ok (unchanged node_id)
      | none ↦ elim (node_for_control_channel_port table destination_port) [
        | some node_id ↦ ok (unchanged node_id)
        | none ↦ route_legacy table destination_port
      ]
    ]

-- Its first step: the flow that the reply belongs to, where that is still admitted.
unfoldable pub dialled_reply : FlowTable → AllocationKey → Option ReplyRoute
dialled_reply table reply = elim (get reply table.dialled_by_allocation) [
  | none ↦ none
  | some key ↦ elim key.dialled [
    | none ↦ none
    | some dialled ↦
        if contains_key key table.flows
        then some (
            restore key.node_id dialled.gateway_address (some dialled.destination_port)
              (some key.port))
        else none
  ]
]

-- The reply's own key, where the packet shows all of it.
unfoldable pub reply_key : Option Transport → Option Ipv4Addr → Option ℕ → ℕ → Option AllocationKey
reply_key (some transport) (some source) (some source_port) destination_port =
    some (transport, source, source_port, destination_port)
reply_key _ _ _ _ = none

unfoldable pub route_reply : FlowTable → Option Transport → Option Ipv4Addr → Option ℕ → ℕ → Routed
unfolding reply_key dialled_reply route_control
route_reply table transport source source_port destination_port =
    let reply = reply_key transport source source_port destination_port in
    elim (and_then reply (dialled_reply table)) [
      | some route ↦ ok route
      | none ↦ route_control table source_port destination_port
    ]
