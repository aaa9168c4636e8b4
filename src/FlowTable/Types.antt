-- ===== src/FlowTable/Types.antt =====
-- src/flow_table.rs: the flow table's state and the outcomes of its operations.
use secure_connect_connector.Base.{
  Key, List, Option, String, String-discrete, [], if◌then◌else◌, nat_key, none, some, string_key, ℕ,
  ℕ_discrete, ◌==◌,
}
use secure_connect_connector.HashMap.{HashMap, HashSet}
use secure_connect_connector.Net.{Ipv4Addr, Ipv4Addr-discrete, from_secs}
use secure_connect_connector.Dto.{PortRule}

-- Two seconds, thirty seconds and five minutes, in nanoseconds.
abbrev pub pending_packet_ttl : ℕ
pending_packet_ttl = from_secs 2

abbrev pub released_flow_memory : ℕ
released_flow_memory = from_secs 30

abbrev pub rule_ended_flow_memory : ℕ
rule_ended_flow_memory = from_secs 300

abbrev pub max_rule_ended_flows : ℕ
max_rule_ended_flows = 4096

abbrev pub max_pending_packets : ℕ
max_pending_packets = 1024

abbrev pub max_tracked_control_channel_ports : ℕ
max_tracked_control_channel_ports = 256

-- The first and the last port of the range.
abbrev pub source_port_range : ℕ × ℕ
source_port_range = (1024, 65535)

pub data Transport : Type 0 where
  tcp udp : Transport

-- `Transport::from_wire`
unfoldable pub from_wire : String → Option Transport
from_wire value = if value == "tcp" then some tcp else if value == "udp" then some udp else none

-- `Transport::from_ip_protocol`
unfoldable pub from_ip_protocol : ℕ → Option Transport
from_ip_protocol protocol =
    if protocol == 6 then some tcp else if protocol == 17 then some udp else none

pub record Dialled : Type 0 where
  pub transport : Transport
  pub gateway_address : Ipv4Addr
  pub destination_port : ℕ

pub record FlowKey : Type 0 where
  pub node_id : String
  pub port : ℕ
  pub dialled : Option Dialled

-- The key of a flow that was admitted without an identity.
abbrev pub legacy_key : String → ℕ → FlowKey
legacy_key node_id port = record { node_id = node_id; port = port; dialled = none }

pub record Allocation : Type 0 where
  pub target : Ipv4Addr × ℕ
  pub port : ℕ

pub record AdmittedFlow : Type 0 where
  pub gateway_id : String
  pub flow_id : String
  pub device_public_key : String
  pub rules : List PortRule
  pub virtual_address : Option Ipv4Addr
  pub allocation : Option Allocation
  pub served : Option (Option Transport × ℕ)

pub record RuleEndedFlow : Type 0 where
  pub flow_id : String
  pub device_public_key : String

-- `Forward` and `NotAdmitted` of the source are the outcomes of a test helper alone.
pub data ForwardOutcome : Type 0 where
  port_not_configured ambiguous_endpoint port_translation_needs_updated_node : ForwardOutcome
  host_unresolved no_free_source_port : ForwardOutcome

pub data Forwarding : Type 0 where
  forwards : (address : Ipv4Addr) (destination_port source_port : Option ℕ) → Forwarding
  not_admitted : Forwarding
  refused : ForwardOutcome → Forwarding

pub data ReplyRoute : Type 0 where
  unchanged : (node_id : String) → ReplyRoute
  restore :
      (node_id : String) (source : Ipv4Addr) (source_port destination_port : Option ℕ) → ReplyRoute

pub data ReplyMiss : Type 0 where
  no_flow : ReplyMiss
  no_address_yet : (node_id : String) → ReplyMiss

-- A reply's transport, source address, source port and destination port.
abbrev pub AllocationKey : Type 0
AllocationKey = Transport × Ipv4Addr × ℕ × ℕ

abbrev pub CursorKey : Type 0
CursorKey = Transport × Ipv4Addr × ℕ

pub Transport-discrete : Discrete Transport
Transport-discrete = hlevel

unfoldable pub FlowKey-discrete : Discrete FlowKey
unfolding String-discrete ℕ_discrete Ipv4Addr-discrete
FlowKey-discrete = hlevel (String-discrete, ℕ_discrete)

unfoldable pub AllocationKey-discrete : Discrete AllocationKey
unfolding ℕ_discrete
AllocationKey-discrete = hlevel ℕ_discrete

unfoldable pub CursorKey-discrete : Discrete CursorKey
unfolding ℕ_discrete
CursorKey-discrete = hlevel ℕ_discrete

instance abbrev pub flow_key : Key FlowKey
flow_key = record { discrete = FlowKey-discrete }

instance abbrev pub allocation_key : Key AllocationKey
allocation_key = record { discrete = AllocationKey-discrete }

instance abbrev pub cursor_key : Key CursorKey
cursor_key = record { discrete = CursorKey-discrete }

-- A vector that backs a map's order, the oldest port first.
pub record FlowTable : Type 0 where
  pub flows : HashMap FlowKey AdmittedFlow
  pub nodes_by_port : HashMap ℕ (HashSet String)
  pub control_channel_ports : HashMap ℕ String
  pub control_channel_port_order : List ℕ
  pub outbound_control_channel_ports : HashMap ℕ String
  pub outbound_control_channel_port_order : List ℕ
  pub pending_packets : HashMap FlowKey (List ℕ × ℕ)
  pub recently_released : HashMap String ℕ
  pub dialled_by_allocation : HashMap AllocationKey FlowKey
  pub next_source_port : HashMap CursorKey ℕ
  pub source_port_range : Option (ℕ × ℕ)
  pub dialled_nodes : HashSet String
  pub gateway_rules : HashMap String (List PortRule)
  pub rule_ended_flows : HashMap FlowKey ℕ

-- `FlowTable::new`
unfoldable pub new : FlowTable
new = record {
  flows = [];
  nodes_by_port = [];
  control_channel_ports = [];
  control_channel_port_order = [];
  outbound_control_channel_ports = [];
  outbound_control_channel_port_order = [];
  pending_packets = [];
  recently_released = [];
  dialled_by_allocation = [];
  next_source_port = [];
  source_port_range = none;
  dialled_nodes = [];
  gateway_rules = [];
  rule_ended_flows = [];
}
