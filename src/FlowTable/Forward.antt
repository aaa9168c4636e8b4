-- ===== src/FlowTable/Forward.antt =====
-- src/flow_table.rs: how one decrypted packet is forwarded.
pub mod Targets
pub mod Replies
use secure_connect_connector.Base.{
  Bool, Option, String, if◌then◌else◌, nat_key, none, not, option_map, some, string_key, true,
  unwrap_or, ℕ, ◌&&◌, ◌==◌,
}
use secure_connect_connector.HashMap.{contains_key, get, insert, remove}
use secure_connect_connector.Net.{Ipv4Addr, ipv4_key}
use secure_connect_connector.DnsCache.{DnsCache}
use secure_connect_connector.FlowTable.Types.{
  AdmittedFlow, Dialled, FlowKey, FlowTable, Forwarding, Transport, allocation_key, flow_key,
  forwards, legacy_key, no_free_source_port, not_admitted, port_translation_needs_updated_node,
  refused, source_port_range,
}
use secure_connect_connector.FlowTable.Rules.{Resolved, err, ok, resolve_rule}
use secure_connect_connector.FlowTable.SourcePorts.{allocate_source_port}

-- `flow.allocation.take()`, with the index entry of what it held removed.
unfoldable pub take_allocation : FlowTable → FlowKey → Transport → AdmittedFlow → FlowTable
take_allocation table key transport flow = elim flow.allocation [
  | none ↦ table
  | some old ↦ record table {
    flows = insert key (record flow { allocation = none }) table.flows;
    dialled_by_allocation =
        remove (transport, old.target.0, old.target.1, old.port) table.dialled_by_allocation;
  }
]

-- `then_some(internal_port)`
abbrev pub translated : ℕ → ℕ → Option ℕ
translated internal_port dialled_port =
    if internal_port == dialled_port then none else some internal_port

-- The end of `forward_with_identity`: a new source port toward `target`.
unfoldable pub allocate :
    FlowTable → FlowKey → Dialled → AdmittedFlow → Ipv4Addr → ℕ → FlowTable × Forwarding
unfolding allocate_source_port take_allocation
allocate table key dialled flow address internal_port =
    let taken = take_allocation table key dialled.transport flow in
    let range = unwrap_or taken.source_port_range source_port_range in
    let (port, cursors) =
      allocate_source_port taken.dialled_by_allocation taken.next_source_port range
        dialled.transport (address, internal_port) in
    elim port [
      | none ↦ (record taken { next_source_port = cursors }, refused no_free_source_port)
      | some source_port ↦ (
        record taken {
          next_source_port = cursors;
          flows =
              insert key
                (record flow {
                  allocation =
                      some (record { target = (address, internal_port); port = source_port });
                })
                taken.flows;
          dialled_by_allocation =
              insert (dialled.transport, address, internal_port, source_port) key
                taken.dialled_by_allocation;
        },
        forwards address (translated internal_port dialled.destination_port) (some source_port),
      )
    ]

-- The source port that the flow already has toward `target`.
unfoldable pub held_port : AdmittedFlow → Ipv4Addr → ℕ → Option ℕ
held_port flow address internal_port = elim flow.allocation [
  | none ↦ none
  | some held ↦
      if held.target.0 == address && held.target.1 == internal_port then some held.port else none
]

-- The rest of `forward_with_identity`, of the port that the flow holds there.
unfoldable pub keep_or_allocate :
    FlowTable → FlowKey → Dialled → AdmittedFlow → Ipv4Addr → ℕ → Option ℕ → FlowTable × Forwarding
unfolding allocate
keep_or_allocate table key dialled flow address internal_port (some port) =
    (table, forwards address (translated internal_port dialled.destination_port) (some port))
keep_or_allocate table key dialled flow address internal_port none =
    allocate table key dialled flow address internal_port

-- The rest of `forward_with_identity`, of what its rule resolves to.
unfoldable pub forward_resolved :
    FlowTable → FlowKey → Dialled → AdmittedFlow → Resolved → FlowTable × Forwarding
unfolding held_port keep_or_allocate
forward_resolved table key dialled flow (err outcome) = (table, refused outcome)
forward_resolved table key dialled flow (ok address internal_port) =
    keep_or_allocate table key dialled flow address internal_port
      (held_port flow address internal_port)

unfoldable pub forward_with_identity :
    FlowTable → FlowKey → Dialled → DnsCache → FlowTable × Forwarding
unfolding resolve_rule forward_resolved
forward_with_identity table key dialled dns_cache = elim (get key table.flows) [
  | none ↦ (table, not_admitted)
  | some flow ↦
      forward_resolved table key dialled flow
        (resolve_rule flow.rules (some dialled.transport) dialled.destination_port dns_cache)
]

unfoldable pub legacy_flow_accepts : FlowTable → String → ℕ → Ipv4Addr → Bool
legacy_flow_accepts table node_id port destination =
    elim (get (legacy_key node_id port) table.flows) [
      | none ↦ true
      | some flow ↦ elim flow.virtual_address [
        | some address ↦ address == destination
        | none ↦ not (contains_key node_id table.dialled_nodes)
      ]
    ]

-- What a forwarded packet leaves on a flow without an identity.
unfoldable pub seen_packet : AdmittedFlow → Option Dialled → ℕ → AdmittedFlow
seen_packet flow dialled destination_port =
    let addressed : Option Ipv4Addr = elim dialled [
      | none ↦ flow.virtual_address
      | some packet ↦ some packet.gateway_address
    ] in
    let first_served : Option (Option Transport × ℕ) = elim flow.served [
      | none ↦ some (option_map (λ (packet : Dialled). packet.transport) dialled, destination_port)
      | some earlier ↦ some earlier
    ] in
    record flow { virtual_address = addressed; served = first_served }

-- The rest of `forward` for a flow without an identity, of what its rule resolves to.
unfoldable pub forward_plain :
    FlowTable → FlowKey → AdmittedFlow → Option Dialled → ℕ → Resolved → FlowTable × Forwarding
unfolding seen_packet
forward_plain table key flow dialled destination_port (err outcome) = (table, refused outcome)
forward_plain table key flow dialled destination_port (ok address internal_port) =
    if internal_port == destination_port
    then (
      record table { flows = insert key (seen_packet flow dialled destination_port) table.flows },
      forwards address none none,
    )
    else (table, refused port_translation_needs_updated_node)

-- The tail of `forward`, for the flow without an identity.
unfoldable pub forward_legacy :
    FlowTable → String → ℕ → Option Dialled → ℕ → DnsCache → FlowTable × Forwarding
unfolding resolve_rule forward_plain
forward_legacy table node_id port dialled destination_port dns_cache =
    elim (get (legacy_key node_id port) table.flows) [
      | none ↦ (table, not_admitted)
      | some flow ↦
          let transport = option_map (λ (packet : Dialled). packet.transport) dialled in
          forward_plain table (legacy_key node_id port) flow dialled destination_port
            (resolve_rule flow.rules transport destination_port dns_cache)
    ]

unfoldable pub forward :
    FlowTable → String → ℕ → Option Dialled → ℕ → DnsCache → FlowTable × Forwarding
unfolding forward_with_identity legacy_flow_accepts forward_legacy
forward table node_id port none destination_port dns_cache =
    forward_legacy table node_id port none destination_port dns_cache
forward table node_id port (some packet) destination_port dns_cache =
    let key : FlowKey = record { node_id = node_id; port = port; dialled = some packet } in
    if contains_key key table.flows
    then forward_with_identity table key packet dns_cache
    else if legacy_flow_accepts table node_id port packet.gateway_address
    then forward_legacy table node_id port (some packet) destination_port dns_cache
    else (table, not_admitted)
