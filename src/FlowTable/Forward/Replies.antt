-- ===== src/FlowTable/Forward/Replies.antt =====
-- The reply to a forwarded packet finds the way back, and no other packet does.
use secure_connect_connector.FlowTable.Forward.Targets.{forward_plain_address}
use secure_connect_connector.FlowTable.SourcePorts.{allocate_source_port}
use secure_connect_connector.Net.{Ipv4Addr}
use secure_connect_connector.HashMap.Laws.{get-insert}
use secure_connect_connector.HashMap.{contains_key, get}
use secure_connect_connector.Base.{
  Bool-cases, Option, Option-cases, String, arith, inl, inr, none, refl, some, unwrap_or, ℕ, ◌≡◌,
  ◌≢◌,
}
use secure_connect_connector.DnsCache.{DnsCache}
use secure_connect_connector.FlowTable.Types.{
  AdmittedFlow, AllocationKey, Dialled, FlowKey, FlowTable, Transport, allocation_key, flow_key,
  forwards, legacy_key, restore, source_port_range,
}
use secure_connect_connector.FlowTable.Rules.{Resolved, err, ok}
use secure_connect_connector.FlowTable.Forward.{
  allocate, forward, forward_legacy, forward_resolved, forward_with_identity, held_port,
  keep_or_allocate, take_allocation,
}
use secure_connect_connector.FlowTable.Reply.{
  dialled_reply, route_control, route_legacy, route_reply,
}
use secure_connect_connector.FlowTable.Reply
use secure_connect_connector.FlowTable.Invariant.Allocations.{claimed, claims}
use secure_connect_connector.FlowTable.Invariant.Removal.{IsValid}
use secure_connect_connector.FlowTable.Invariant.Forwards.{forward-IsValid}

module _ (table : FlowTable) (key : FlowKey) (dialled : Dialled)
    (named : key.dialled ≡ some dialled) (flow : AdmittedFlow)
    (found : get key table.flows ≡ some flow) where
  -- The flow holds the port that its packet carries.
  allocate-claims :
      (address a : Ipv4Addr) (internal_port s : ℕ) (q : Option ℕ)
      → (allocate table key dialled flow address internal_port).1 ≡ forwards a q (some s)
      → claims (allocate table key dialled flow address internal_port).0.flows key
        ≡ some (dialled.transport, a, unwrap_or q dialled.destination_port, s)
  unfolding allocate claimed
  allocate-claims address a internal_port s q e =
      let taken = take_allocation table key dialled.transport flow in
      let range = unwrap_or taken.source_port_range source_port_range in
      elim (Option-cases
        (allocate_source_port taken.dialled_by_allocation taken.next_source_port range
          dialled.transport (address, internal_port)).0) [
            | inl full ↦ absurd (ground arith)
            | inr (port, free) ↦
                rw (free, allocate)
                  (ground (
                    arith,
                    get-insert key key
                        (record flow {
                          allocation =
                              some (record { target = (address, internal_port); port = port });
                        })
                        taken.flows,
                  ))
          ]

  keep_or_allocate-claims :
      (address a : Ipv4Addr) (internal_port s : ℕ) (q held : Option ℕ)
      → held_port flow address internal_port ≡ held
      → (keep_or_allocate table key dialled flow address internal_port held).1
        ≡ forwards a q (some s)
      → claims (keep_or_allocate table key dialled flow address internal_port held).0.flows key
        ≡ some (dialled.transport, a, unwrap_or q dialled.destination_port, s)
  unfolding keep_or_allocate held_port claimed
  keep_or_allocate-claims address a internal_port s q none h e =
      allocate-claims address a internal_port s q e
  keep_or_allocate-claims address a internal_port s q (some port) h e = ground arith

  forward_resolved-claims :
      (r : Resolved) (a : Ipv4Addr) (s : ℕ) (q : Option ℕ)
      → (forward_resolved table key dialled flow r).1 ≡ forwards a q (some s)
      → claims (forward_resolved table key dialled flow r).0.flows key
        ≡ some (dialled.transport, a, unwrap_or q dialled.destination_port, s)
  unfolding forward_resolved
  forward_resolved-claims (err outcome) a s q e = cc
  forward_resolved-claims (ok address internal_port) a s q e =
      keep_or_allocate-claims address a internal_port s q _ refl e

forward_with_identity-claims :
    (table : FlowTable) (key : FlowKey) (dialled : Dialled) (dns_cache : DnsCache) (a : Ipv4Addr)
    (s : ℕ) (q : Option ℕ)
    → key.dialled ≡ some dialled
    → (forward_with_identity table key dialled dns_cache).1 ≡ forwards a q (some s)
    → claims (forward_with_identity table key dialled dns_cache).0.flows key
      ≡ some (dialled.transport, a, unwrap_or q dialled.destination_port, s)
unfolding forward_with_identity
forward_with_identity-claims table key dialled dns_cache a s q named e =
    elim (Option-cases (get key table.flows)) [
      | inl f ↦ absurd (ground arith)
      | inr (flow, f) ↦
          rw (f, forward_with_identity)
            (forward_resolved-claims table key dialled named flow f _ a s q
              (rw (f, forward_with_identity) at e))
    ]

forward_legacy_port :
    (table : FlowTable) (node_id : String) (port : ℕ) (dialled : Option Dialled) (p : ℕ)
    (dns_cache : DnsCache) (a : Ipv4Addr) (s : ℕ) (q : Option ℕ)
    → (forward_legacy table node_id port dialled p dns_cache).1 ≢ forwards a q (some s)
unfolding forward_legacy
forward_legacy_port table node_id port dialled p dns_cache a s q e =
    elim (Option-cases (get (legacy_key node_id port) table.flows)) [
      | inl f ↦ ground arith
      | inr (flow, f) ↦
          cc
            (forward_plain_address table (legacy_key node_id port) flow dialled p _ a q (some s)
              (rw (f, forward_legacy) at e)).1
    ]

forward-claims :
    (table : FlowTable) (node_id : String) (port : ℕ) (packet : Dialled) (p : ℕ)
    (dns_cache : DnsCache) (a : Ipv4Addr) (s : ℕ) (q : Option ℕ)
    → (forward table node_id port (some packet) p dns_cache).1 ≡ forwards a q (some s)
    → claims
        (forward table node_id port (some packet) p dns_cache).0.flows
        (record { node_id = node_id; port = port; dialled = some packet })
      ≡ some (packet.transport, a, unwrap_or q packet.destination_port, s)
unfolding forward
forward-claims table node_id port packet p dns_cache a s q e =
    let key : FlowKey = record { node_id = node_id; port = port; dialled = some packet } in
    elim (Bool-cases (contains_key key table.flows)) [
      | inl known ↦
          rw (known, forward)
            (forward_with_identity-claims table key packet dns_cache a s q refl
              (rw (known, forward) at e))
      | inr other ↦
          absurd
            (ground (arith, forward_legacy_port table node_id port (some packet) p dns_cache a s q))
    ]

-- A held reply is routed back to its flow.
route_reply-claims :
    (table : FlowTable) (key : FlowKey) (dialled : Dialled) (reply : AllocationKey)
    → IsValid table
    → key.dialled ≡ some dialled
    → claims table.flows key ≡ some reply
    → route_reply table (some reply.0) (some reply.1) (some reply.2) reply.3
      ≡ Reply.ok (
          restore key.node_id dialled.gateway_address
            (some dialled.destination_port)
            (some key.port))
unfolding route_reply
route_reply-claims table key dialled reply valid named c =
    ground (arith, valid.indexed.held key reply c)

-- In a well-formed table, the reply to a packet that was forwarded with a source port goes back to
-- the packet's node, with the gateway address and port that the client dialled as its source and
-- the translated port as its destination.
pub route_reply-forward :
    (table : FlowTable) (node_id : String) (port : ℕ) (packet : Dialled) (p : ℕ)
    (dns_cache : DnsCache) (a : Ipv4Addr) (s : ℕ) (q : Option ℕ)
    → IsValid table
    → (forward table node_id port (some packet) p dns_cache).1 ≡ forwards a q (some s)
    → route_reply
        (forward table node_id port (some packet) p dns_cache).0
        (some packet.transport)
        (some a)
        (some (unwrap_or q packet.destination_port))
        s
      ≡ Reply.ok (restore node_id packet.gateway_address (some packet.destination_port) (some port))
route_reply-forward table node_id port packet p dns_cache a s q valid e =
    route_reply-claims _ _ packet _
      (forward-IsValid table node_id port (some packet) p dns_cache valid) refl
      (forward-claims table node_id port packet p dns_cache a s q e)

route_control_ports :
    (table : FlowTable) (source_port : Option ℕ) (destination_port q : ℕ) (node_id : String)
    (address : Ipv4Addr) (p : Option ℕ)
    → route_control table source_port destination_port
      ≢ Reply.ok (restore node_id address (some q) p)
unfolding route_control route_legacy
route_control_ports table source_port destination_port q node_id address p e = ground arith

dialled_reply-claims :
    (table : FlowTable) (transport : Transport) (source address : Ipv4Addr)
    (source_port destination_port q p : ℕ) (node_id : String)
    → IsValid table
    → dialled_reply table (transport, source, source_port, destination_port)
      ≡ some (restore node_id address (some q) (some p))
    → claims table.flows (record {
      node_id = node_id;
      port = p;
      dialled =
          some (record { transport = transport; gateway_address = address; destination_port = q });
    })
      ≡ some (transport, source, source_port, destination_port)
unfolding dialled_reply claimed
dialled_reply-claims table transport source address source_port destination_port q p node_id valid
      e =
    elim (Option-cases (
      get {K = AllocationKey} (transport, source, source_port, destination_port)
        table.dialled_by_allocation)) [
          | inl f ↦ absurd (ground arith)
          | inr (key, f) ↦
              ground (
                arith,
                valid.indexed.backed key (transport, source, source_port, destination_port) f,
              )
        ]

-- In a well-formed table, a packet from the internal network gets ports restored only if its
-- transport, source and ports are exactly those that an admitted flow holds, and then those of
-- that flow.
pub route_reply_only :
    (table : FlowTable) (transport : Transport) (source address : Ipv4Addr)
    (source_port destination_port q p : ℕ) (node_id : String)
    → IsValid table
    → route_reply table (some transport) (some source) (some source_port) destination_port
      ≡ Reply.ok (restore node_id address (some q) (some p))
    → claims table.flows (record {
      node_id = node_id;
      port = p;
      dialled =
          some (record { transport = transport; gateway_address = address; destination_port = q });
    })
      ≡ some (transport, source, source_port, destination_port)
unfolding route_reply
route_reply_only table transport source address source_port destination_port q p node_id valid e =
    elim (Option-cases (dialled_reply table (transport, source, source_port, destination_port))) [
      | inl no_match ↦ absurd (
          route_control_ports table (some source_port) destination_port q node_id address (some p)
            (rw (no_match, route_reply) at e))
      | inr (route, matched) ↦
          dialled_reply-claims table transport source address source_port destination_port q p
            node_id valid (ground arith)
    ]
