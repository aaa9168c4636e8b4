-- ===== src/FlowTable/Invariant/Histories.antt =====
-- The table as a state machine: every operation of its interface, and what any history keeps.
use secure_connect_connector.HashMap.{contains_key, get, retain}
use secure_connect_connector.Base.{
  Bool, Bool-cases, List, Option, Option-cases, String, [], inl, inr, leb, length, not, refl, some,
  ℕ, ◌&&◌, ◌∷◌, ◌≡◌,
}
use secure_connect_connector.DnsCache.{DnsCache}
use secure_connect_connector.Dto.{PortRule}
use secure_connect_connector.FlowTable.Types.{
  AllocationKey, Dialled, FlowKey, FlowTable, flow_key, max_pending_packets,
}
use secure_connect_connector.FlowTable.Types
use secure_connect_connector.FlowTable.Flows.{admit_flow, evict_gateway_device, evict_node, release}
use secure_connect_connector.FlowTable.RuleChanges.{
  check_ended, is_rule_ended, retain_gateway_rules, update_rules,
}
use secure_connect_connector.FlowTable.ControlPorts.{
  record_control_channel_port, record_outbound_control_channel_port,
}
use secure_connect_connector.FlowTable.Pending.{buffer_pending, is_fresh, pending_key, take_pending}
use secure_connect_connector.FlowTable.Forward.{forward}
use secure_connect_connector.FlowTable.Invariant.Allocations.{
  claims, claims_injective, new-IsIndexed,
}
use secure_connect_connector.FlowTable.Invariant.Nodes.{IsNodeSet, member_of}
use secure_connect_connector.FlowTable.Invariant.Removal.{IsValid}
use secure_connect_connector.FlowTable.Invariant.Changes.{
  IsValid-same, admit_flow-IsValid, evict_gateway_device-IsValid, evict_node-IsValid,
  release-IsValid, update_rules-IsValid,
}
use secure_connect_connector.FlowTable.Invariant.Forwards.{forward-IsValid}

-- A call of an operation that changes the table, with the instant at which it is made.
pub data Call : Type 0 where
  admits :
      (node_id : String) (port : ℕ) (dialled : Option Dialled)
      (gateway_id flow_id device_public_key : String) (rules : List PortRule)
      → Call
  releases : (flow_id : String) (now : ℕ) → Call
  evicts_node : (node_id : String) → Call
  evicts_device : (gateway_id device_public_key : String) → Call
  updates_rules : (gateway_id : String) (rules : List PortRule) (now : ℕ) → Call
  retains_rules : (keep : String → Bool) → Call
  asks_ended : (node_id : String) (port : ℕ) (dialled : Option Dialled) (now : ℕ) → Call
  records_inbound records_outbound : (node_id : String) (port : ℕ) → Call
  forwards_packet :
      (node_id : String) (port : ℕ) (dialled : Option Dialled) (destination_port : ℕ)
      (dns_cache : DnsCache)
      → Call
  buffers :
      (node_id : String) (port : ℕ) (dialled : Option Dialled) (packet : List ℕ) (now : ℕ) → Call
  takes : (node_id : String) (port : ℕ) (dialled : Option Dialled) (now : ℕ) → Call

unfoldable pub step : FlowTable → Call → FlowTable
step t (admits n p d g i k rs) = admit_flow t n p d g i k rs
step t (releases i now) = release t i now
step t (evicts_node n) = evict_node t n
step t (evicts_device g k) = (evict_gateway_device t g k).0
step t (updates_rules g rs now) = (update_rules t g rs now).0
step t (retains_rules keep) = retain_gateway_rules t keep
step t (asks_ended n p d now) = (is_rule_ended t n p d now).0
step t (records_inbound n p) = record_control_channel_port t n p
step t (records_outbound n p) = record_outbound_control_channel_port t n p
step t (forwards_packet n p d q dns) = (forward t n p d q dns).0
step t (buffers n p d packet now) = buffer_pending t n p d packet now
step t (takes n p d now) = (take_pending t n p d now).0

unfoldable pub run : FlowTable → List Call → FlowTable
unfolding step
run t [] = t
run t (c ∷ cs) = run (step t c) cs

take_pending-IsValid :
    (t : FlowTable) (n : String) (p : ℕ) (d : Option Dialled) (now : ℕ)
    → IsValid t
    → IsValid (take_pending t n p d now).0
unfolding take_pending
take_pending-IsValid t n p d now valid = elim (Option-cases (pending_key t.pending_packets n p d)) [
  | inl e ↦ rw (e, take_pending) valid
  | inr (key, e) ↦
      rw (e, take_pending)
        (elim (Option-cases (get key t.pending_packets)) [
          | inl f ↦ rw (f, take_pending) valid
          | inr (held, f) ↦ rw (f, take_pending) (IsValid-same t _ refl refl refl valid)
        ])
]

asks_ended-IsValid :
    (t : FlowTable) (n : String) (p : ℕ) (d : Option Dialled) (now : ℕ)
    → IsValid t
    → IsValid (is_rule_ended t n p d now).0
unfolding is_rule_ended
asks_ended-IsValid t n p d now valid =
    elim (Bool-cases
      (check_ended t.rule_ended_flows (record { node_id = n; port = p; dialled = d }) now).1) [
        | inl e ↦ rw (e, is_rule_ended) (IsValid-same t _ refl refl refl valid)
        | inr e ↦ rw (e, is_rule_ended) (IsValid-same t _ refl refl refl valid)
      ]

buffer_pending-IsValid :
    (t : FlowTable) (n : String) (p : ℕ) (d : Option Dialled) (packet : List ℕ) (now : ℕ)
    → IsValid t
    → IsValid (buffer_pending t n p d packet now)
unfolding buffer_pending
buffer_pending-IsValid t n p d packet now valid =
    let fresh = retain (λ _ held. is_fresh now held) t.pending_packets in
    elim (Bool-cases (
      leb max_pending_packets (length fresh)
      && not (contains_key {K = FlowKey} (record { node_id = n; port = p; dialled = d }) fresh))) [
        | inl e ↦ rw (e, buffer_pending) (IsValid-same t _ refl refl refl valid)
        | inr e ↦ rw (e, buffer_pending) (IsValid-same t _ refl refl refl valid)
      ]

pub step-IsValid : (t : FlowTable) (c : Call) → IsValid t → IsValid (step t c)
unfolding step retain_gateway_rules record_control_channel_port record_outbound_control_channel_port
step-IsValid t (admits n p d g i k rs) v = admit_flow-IsValid t n p d g i k rs v
step-IsValid t (releases i now) v = release-IsValid t i now v
step-IsValid t (evicts_node n) v = evict_node-IsValid t n v
step-IsValid t (evicts_device g k) v = evict_gateway_device-IsValid t g k v
step-IsValid t (updates_rules g rs now) v = update_rules-IsValid t g rs now v
step-IsValid t (retains_rules keep) v = IsValid-same t _ refl refl refl v
step-IsValid t (asks_ended n p d now) v = asks_ended-IsValid t n p d now v
step-IsValid t (records_inbound n p) v = IsValid-same t _ refl refl refl v
step-IsValid t (records_outbound n p) v = IsValid-same t _ refl refl refl v
step-IsValid t (forwards_packet n p d q dns) v = forward-IsValid t n p d q dns v
step-IsValid t (buffers n p d packet now) v = buffer_pending-IsValid t n p d packet now v
step-IsValid t (takes n p d now) v = take_pending-IsValid t n p d now v

new-IsValid : IsValid Types.new
unfolding Types.new member_of IsNodeSet get
new-IsValid = record { distinct = tt; indexed = new-IsIndexed; nodes = λ m q. refl; sets = λ q. tt }

pub run-IsValid : (t : FlowTable) (cs : List Call) → IsValid t → IsValid (run t cs)
unfolding run
run-IsValid t [] v = v
run-IsValid t (c ∷ cs) v = run-IsValid (step t c) cs (step-IsValid t c v)

-- Whatever operations a new table has gone through, in any order, both of its indexes agree with
-- its flows: a reply is indexed to a flow exactly when that flow holds its source port, and a node
-- stands under a port exactly when a flow without an identity is admitted for the two.
pub run-new-IsValid : (cs : List Call) → IsValid (run Types.new cs)
run-new-IsValid cs = run-IsValid Types.new cs new-IsValid

-- After any history, no two admitted flows hold one source port toward the same internal address and
-- port on the same transport.
pub run-new-claims_injective :
    (cs : List Call) (a b : FlowKey) (reply : AllocationKey)
    → claims (run Types.new cs).flows a ≡ some reply
    → claims (run Types.new cs).flows b ≡ some reply
    → a ≡ b
run-new-claims_injective cs a b reply p q =
    claims_injective (run-new-IsValid cs).indexed a b reply p q
