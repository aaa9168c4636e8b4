-- ===== src/FlowTable/Bounds/Histories.antt =====
-- What the table remembers beside its flows stays bounded over any history of calls.
use secure_connect_connector.FlowTable.SourcePorts.{allocate_source_port}
use secure_connect_connector.FlowTable.Rules.{Resolved, err, ok}
use secure_connect_connector.Dto.{PortRule}
use secure_connect_connector.DnsCache.{DnsCache}
use secure_connect_connector.FlowTable.ControlPorts.Bounds.{record_bounded_port-IsWithinCap}
use secure_connect_connector.FlowTable.Pending.Reclaims.{buffer_pending-IsHeld, take_pending-IsHeld}
use secure_connect_connector.FlowTable.RuleChanges.{
  ended_flows, refresh_flow, retain_gateway_rules, unserved, update_rules,
}
use secure_connect_connector.FlowTable.Pending.{buffer_pending, take_pending}
use secure_connect_connector.FlowTable.Flows.{evict_gateway_device}
use secure_connect_connector.FlowTable.ControlPorts.{
  record_control_channel_port, record_outbound_control_channel_port,
}
use secure_connect_connector.FlowTable.Invariant.Histories.{
  Call, admits, asks_ended, buffers, evicts_device, evicts_node, forwards_packet, records_inbound,
  records_outbound, releases, retains_rules, run, step, takes, updates_rules,
}
use secure_connect_connector.FlowTable.Bounds.{
  IsBounded, admit_flow-IsBounded, end_flows-IsBounded, evict_node-IsBounded,
  is_rule_ended-IsBounded, memory, memory-remove_flows_where, release-IsBounded,
}
use secure_connect_connector.FlowTable.Forward.{
  allocate, forward, forward_legacy, forward_plain, forward_resolved, forward_with_identity,
  held_port, keep_or_allocate, take_allocation,
}
use secure_connect_connector.Net.{Ipv4Addr}
use secure_connect_connector.HashMap.{get, insert, map_values}
use secure_connect_connector.Base.{
  List, Option, Option-cases, String, [], arith, elem, inl, inr, none, refl, some, string_key,
  subst, sym, unwrap_or, ℕ, ◌&&◌, ◌==◌, ◌∷◌, ◌≡◌,
}
use secure_connect_connector.FlowTable.Types
use secure_connect_connector.FlowTable.Types.{
  AdmittedFlow, Dialled, FlowKey, FlowTable, flow_key, legacy_key, source_port_range,
}

evict_gateway_device-IsBounded :
    (t : FlowTable) (g k : String)
    → IsBounded (memory t)
    → IsBounded (memory (evict_gateway_device t g k).0)
unfolding evict_gateway_device
evict_gateway_device-IsBounded t g k b =
    subst IsBounded
      (sym (
        memory-remove_flows_where t
          (λ _ flow. flow.gateway_id == g && flow.device_public_key == k)))
      b

update_rules-IsBounded :
    (t : FlowTable) (g : String) (rs : List PortRule) (now : ℕ)
    → IsBounded (memory t)
    → IsBounded (memory (update_rules t g rs now).0)
unfolding update_rules
update_rules-IsBounded t g rs now b =
    let refreshed = map_values (refresh_flow g rs) t.flows in
    end_flows-IsBounded
      (record t { gateway_rules = insert g rs t.gateway_rules; flows = refreshed }) (unserved g rs)
      now (ended_flows (unserved g rs) refreshed) b

records_inbound-IsBounded :
    (t : FlowTable) (n : String) (p : ℕ)
    → IsBounded (memory t)
    → IsBounded (memory (record_control_channel_port t n p))
unfolding record_control_channel_port
records_inbound-IsBounded t n p b = record {
  pending = b.pending;
  ended = b.ended;
  released = b.released;
  opened_by_node = record_bounded_port-IsWithinCap _ n p b.opened_by_node;
  opened_here = b.opened_here;
}

records_outbound-IsBounded :
    (t : FlowTable) (n : String) (p : ℕ)
    → IsBounded (memory t)
    → IsBounded (memory (record_outbound_control_channel_port t n p))
unfolding record_outbound_control_channel_port
records_outbound-IsBounded t n p b = record {
  pending = b.pending;
  ended = b.ended;
  released = b.released;
  opened_by_node = b.opened_by_node;
  opened_here = record_bounded_port-IsWithinCap _ n p b.opened_here;
}

memory-buffer_pending :
    (t : FlowTable) (n : String) (p : ℕ) (d : Option Dialled) (packet : List ℕ) (now : ℕ)
    → record (memory t) { pending = (buffer_pending t n p d packet now).pending_packets }
      ≡ memory (buffer_pending t n p d packet now)
unfolding buffer_pending
memory-buffer_pending t n p d packet now = ground arith

buffers-IsBounded :
    (t : FlowTable) (n : String) (p : ℕ) (d : Option Dialled) (packet : List ℕ) (now : ℕ)
    → IsBounded (memory t)
    → IsBounded (memory (buffer_pending t n p d packet now))
buffers-IsBounded t n p d packet now b =
    let held = buffer_pending-IsHeld t n p d packet now b.pending in
    subst IsBounded (memory-buffer_pending t n p d packet now) (record {
      pending = held;
      ended = b.ended;
      released = b.released;
      opened_by_node = b.opened_by_node;
      opened_here = b.opened_here;
    })

memory-take_pending :
    (t : FlowTable) (n : String) (p : ℕ) (d : Option Dialled) (now : ℕ)
    → record (memory t) { pending = (take_pending t n p d now).0.pending_packets }
      ≡ memory (take_pending t n p d now).0
unfolding take_pending
memory-take_pending t n p d now = ground arith

takes-IsBounded :
    (t : FlowTable) (n : String) (p : ℕ) (d : Option Dialled) (now : ℕ)
    → IsBounded (memory t)
    → IsBounded (memory (take_pending t n p d now).0)
takes-IsBounded t n p d now b =
    let held = take_pending-IsHeld t n p d now b.pending in
    subst IsBounded (memory-take_pending t n p d now) (record {
      pending = held;
      ended = b.ended;
      released = b.released;
      opened_by_node = b.opened_by_node;
      opened_here = b.opened_here;
    })

memory-allocate :
    (t : FlowTable) (key : FlowKey) (packet : Dialled) (flow : AdmittedFlow) (address : Ipv4Addr)
    (q : ℕ)
    → memory (allocate t key packet flow address q).0 ≡ memory t
unfolding allocate take_allocation
memory-allocate t key packet flow address q =
    let taken = take_allocation t key packet.transport flow in
    let port =
      (allocate_source_port taken.dialled_by_allocation taken.next_source_port
        (unwrap_or taken.source_port_range source_port_range) packet.transport (address, q)).0 in
    elim (Option-cases port) [
      | inl e ↦ rw (e, allocate) (ground arith)
      | inr (p, e) ↦ rw (e, allocate) (ground arith)
    ]

memory-forward_resolved :
    (t : FlowTable) (key : FlowKey) (packet : Dialled) (flow : AdmittedFlow) (r : Resolved)
    → memory (forward_resolved t key packet flow r).0 ≡ memory t
unfolding forward_resolved keep_or_allocate
memory-forward_resolved t key packet flow (err outcome) = refl
memory-forward_resolved t key packet flow (ok address q) =
    elim (Option-cases (held_port flow address q)) [
      | inl e ↦ rw (e, forward_resolved) (memory-allocate t key packet flow address q)
      | inr (p, e) ↦ rw (e, forward_resolved) refl
    ]

memory-forward_plain :
    (t : FlowTable) (key : FlowKey) (flow : AdmittedFlow) (d : Option Dialled) (q : ℕ)
    (r : Resolved)
    → memory (forward_plain t key flow d q r).0 ≡ memory t
unfolding forward_plain
memory-forward_plain t key flow d q (err outcome) = refl
memory-forward_plain t key flow d q (ok address p) = ground arith

memory-forward_legacy :
    (t : FlowTable) (n : String) (p : ℕ) (d : Option Dialled) (q : ℕ) (dns : DnsCache)
    → memory (forward_legacy t n p d q dns).0 ≡ memory t
unfolding forward_legacy
memory-forward_legacy t n p d q dns = elim (Option-cases (get (legacy_key n p) t.flows)) [
  | inl e ↦ rw (e, forward_legacy) refl
  | inr (flow, e) ↦ rw (e, forward_legacy) (memory-forward_plain t (legacy_key n p) flow d q _)
]

memory-forward_with_identity :
    (t : FlowTable) (key : FlowKey) (packet : Dialled) (dns : DnsCache)
    → memory (forward_with_identity t key packet dns).0 ≡ memory t
unfolding forward_with_identity
memory-forward_with_identity t key packet dns = elim (Option-cases (get key t.flows)) [
  | inl e ↦ rw (e, forward_with_identity) refl
  | inr (flow, e) ↦ rw (e, forward_with_identity) (memory-forward_resolved t key packet flow _)
]

memory-forward :
    (t : FlowTable) (n : String) (p : ℕ) (d : Option Dialled) (q : ℕ) (dns : DnsCache)
    → memory (forward t n p d q dns).0 ≡ memory t
unfolding forward
memory-forward t n p none q dns = memory-forward_legacy t n p none q dns
memory-forward t n p (some packet) q dns =
    let key : FlowKey = record { node_id = n; port = p; dialled = some packet } in
    ground (
      arith,
      memory-forward_with_identity t key packet dns,
      memory-forward_legacy t n p (some packet) q dns,
    )

step-IsBounded : (t : FlowTable) (c : Call) → IsBounded (memory t) → IsBounded (memory (step t c))
unfolding step retain_gateway_rules
step-IsBounded t (admits n p d g i k rs) b = admit_flow-IsBounded t n p d g i k rs b
step-IsBounded t (releases i now) b = release-IsBounded t i now b
step-IsBounded t (evicts_node n) b = evict_node-IsBounded t n b
step-IsBounded t (evicts_device g k) b = evict_gateway_device-IsBounded t g k b
step-IsBounded t (updates_rules g rs now) b = update_rules-IsBounded t g rs now b
step-IsBounded t (retains_rules keep) b = b
step-IsBounded t (asks_ended n p d now) b = is_rule_ended-IsBounded t n p d now b
step-IsBounded t (records_inbound n p) b = records_inbound-IsBounded t n p b
step-IsBounded t (records_outbound n p) b = records_outbound-IsBounded t n p b
step-IsBounded t (forwards_packet n p d q dns) b =
    subst IsBounded (sym (memory-forward t n p d q dns)) b
step-IsBounded t (buffers n p d packet now) b = buffers-IsBounded t n p d packet now b
step-IsBounded t (takes n p d now) b = takes-IsBounded t n p d now b

new-IsBounded : IsBounded (memory Types.new)
unfolding Types.new elem get
new-IsBounded = record {
  pending = record { unique = tt; capped = omega arith };
  ended = record { unique = tt; capped = omega arith };
  released = tt;
  opened_by_node = record { unique = tt; distinct = tt; listed = λ _. refl; capped = omega arith };
  opened_here = record { unique = tt; distinct = tt; listed = λ _. refl; capped = omega arith };
}

pub run-IsBounded :
    (t : FlowTable) (cs : List Call) → IsBounded (memory t) → IsBounded (memory (run t cs))
unfolding run
run-IsBounded t [] b = b
run-IsBounded t (c ∷ cs) b = run-IsBounded (step t c) cs (step-IsBounded t c b)

-- Whatever calls a new table has gone through, at most `max_pending_packets` packets are held, at
-- most `max_rule_ended_flows` ended flows remembered, and at most
-- `max_tracked_control_channel_ports` ports tracked in each direction, each once in its order.
pub run-new-IsBounded : (cs : List Call) → IsBounded (memory (run Types.new cs))
run-new-IsBounded cs = run-IsBounded Types.new cs new-IsBounded
