-- ===== src/Tests/Data.antt =====
-- A gateway `g1` with one rule, an identified flow of node `n1`, and a flow of `n2` without one.
use secure_connect_connector.FlowTable.Reply.{Routed, route_reply}
use secure_connect_connector.FlowTable.Invariant.Allocations.{claims}
use secure_connect_connector.FlowTable.Bounds.Histories.{run-new-IsBounded}
use secure_connect_connector.FlowTable.Flows.{admit_flow}
use secure_connect_connector.FlowTable.Invariant.Removal.{IsValid}
use secure_connect_connector.FlowTable.Forward.{forward}
use secure_connect_connector.FlowTable.Bounds.{IsBounded, memory}
use secure_connect_connector.Dto.{PortRule, RuleTransport}
use secure_connect_connector.Net.{Ipv4Addr, Ipv4Addr-discrete}
use secure_connect_connector.HashMap.{get, insert}
use secure_connect_connector.Base.{String-discrete, [], none, refl, some, ℕ_discrete, ◌∷◌, ◌≡◌}
use secure_connect_connector.FlowTable.Invariant.Histories.{
  Call, admits, forwards_packet, run, run-new-IsValid, step,
}
use secure_connect_connector.DnsCache.{DnsCache, resolved}
use secure_connect_connector.FlowTable.Types.{
  AllocationKey, AllocationKey-discrete, CursorKey-discrete, Dialled, FlowKey, FlowKey-discrete,
  FlowTable, Transport, forwards, new as empty_table, restore,
}

abbrev pub gateway_ip : Ipv4Addr
gateway_ip = record { a = 100; b = 64; c = 0; d = 9 }

abbrev pub internal_ip : Ipv4Addr
internal_ip = record { a = 10; b = 0; c = 0; d = 5 }

abbrev pub web_packet : Dialled
web_packet = record {
  transport = Transport.tcp;
  gateway_address = gateway_ip;
  destination_port = 443;
}

abbrev pub web_rule : PortRule
web_rule = record {
  transport = RuleTransport.tcp;
  external_port = 443;
  internal_host = "10.0.0.5";
  internal_port = 8443;
}

abbrev pub plain_rule : PortRule
plain_rule = record {
  transport = RuleTransport.tcp_udp;
  external_port = 53;
  internal_host = "10.0.0.5";
  internal_port = 53;
}

abbrev pub web_admission : Call
web_admission = admits "n1" 40000 (some web_packet) "g1" "f1" "k1" (web_rule ∷ [])

abbrev pub plain_admission : Call
plain_admission = admits "n2" 41000 none "g1" "f2" "k2" (plain_rule ∷ [])

abbrev pub web_key : FlowKey
web_key = record { node_id = "n1"; port = 40000; dialled = some web_packet }

abbrev pub plain_key : FlowKey
plain_key = record { node_id = "n2"; port = 41000; dialled = none }

unfoldable pub two_flows : FlowTable
two_flows = run empty_table (web_admission ∷ plain_admission ∷ [])

abbrev pub no_names : DnsCache
no_names = record { resolved = [] }

pub two_flows-IsValid : IsValid two_flows
unfolding two_flows
two_flows-IsValid = run-new-IsValid (web_admission ∷ plain_admission ∷ [])

pub two_flows-IsBounded : IsBounded (memory two_flows)
unfolding two_flows
two_flows-IsBounded = run-new-IsBounded (web_admission ∷ plain_admission ∷ [])

pub web_forward :
    (forward two_flows "n1" 40000 (some web_packet) 443 no_names).1
    ≡ forwards internal_ip (some 8443) (some 1024)
unfolding two_flows run step forward admit_flow empty_table get insert String-discrete ℕ_discrete
    Ipv4Addr-discrete FlowKey-discrete AllocationKey-discrete CursorKey-discrete
    secure_connect_connector.HashMap.retain secure_connect_connector.FlowTable.Rules.serves
    secure_connect_connector.DnsCache.resolve secure_connect_connector.Net.parse_ipv4
web_forward = refl

-- The table after the web flow's first packet.
unfoldable pub sent : FlowTable
sent = run empty_table (
    web_admission
    ∷ plain_admission
    ∷ forwards_packet "n1" 40000 (some web_packet) 443 no_names
    ∷ [])

pub sent-IsValid : IsValid sent
unfolding sent
sent-IsValid = run-new-IsValid (
    web_admission
    ∷ plain_admission
    ∷ forwards_packet "n1" 40000 (some web_packet) 443 no_names
    ∷ [])

pub sent-IsBounded : IsBounded (memory sent)
unfolding sent
sent-IsBounded = run-new-IsBounded (
    web_admission
    ∷ plain_admission
    ∷ forwards_packet "n1" 40000 (some web_packet) 443 no_names
    ∷ [])

abbrev pub web_claim : AllocationKey
web_claim = (Transport.tcp, internal_ip, 8443, 1024)

pub web_claims : claims sent.flows web_key ≡ some web_claim
unfolding sent run step forward admit_flow empty_table get insert String-discrete ℕ_discrete
    Ipv4Addr-discrete FlowKey-discrete AllocationKey-discrete CursorKey-discrete
    secure_connect_connector.HashMap.retain secure_connect_connector.FlowTable.Rules.serves
    secure_connect_connector.DnsCache.resolve secure_connect_connector.Net.parse_ipv4
    secure_connect_connector.FlowTable.Invariant.Allocations.claimed
web_claims = refl

pub web_reply :
    route_reply sent (some Transport.tcp) (some internal_ip) (some 8443) 1024
    ≡ Routed.ok (restore "n1" gateway_ip (some 443) (some 40000))
unfolding sent run step forward admit_flow empty_table get insert String-discrete ℕ_discrete
    Ipv4Addr-discrete FlowKey-discrete AllocationKey-discrete CursorKey-discrete route_reply
    secure_connect_connector.HashMap.retain secure_connect_connector.FlowTable.Rules.serves
    secure_connect_connector.DnsCache.resolve secure_connect_connector.Net.parse_ipv4
web_reply = refl
