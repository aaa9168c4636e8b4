-- ===== src/FlowTable/Rules.antt =====
-- src/flow_table.rs: which port rule serves a packet, and where it leads.
use secure_connect_connector.Base.{
  Bool, List, Option, [], false, if◌then◌else◌, is_some, nat_key, none, some, true, ℕ, ◌&&◌, ◌==◌,
  ◌∷◌,
}
use secure_connect_connector.Net.{Ipv4Addr}
use secure_connect_connector.Dto.{PortRule, RuleTransport, rules}
use secure_connect_connector.DnsCache.{DnsCache, resolve}
use secure_connect_connector.FlowTable.Types.{
  AdmittedFlow, FlowKey, ForwardOutcome, Transport, ambiguous_endpoint, host_unresolved,
  port_not_configured,
}

unfoldable pub rule_opens : RuleTransport → Option Transport → Bool
rule_opens RuleTransport.tcp_udp _ = true
rule_opens RuleTransport.tcp (some Transport.tcp) = true
rule_opens RuleTransport.udp (some Transport.udp) = true
rule_opens _ _ = false

-- The filter that `matching_rule` and `resolve_rule` share.
unfoldable pub serves : Option Transport → ℕ → PortRule → Bool
unfolding rule_opens
serves transport destination_port rule =
    rule.external_port == destination_port && rule_opens rule.transport transport

unfoldable pub serving : Option Transport → ℕ → List PortRule → List PortRule
serving transport destination_port [] = []
serving transport destination_port (rule ∷ rules) =
    if serves transport destination_port rule
    then rule ∷ serving transport destination_port rules
    else serving transport destination_port rules

unfoldable pub only : List PortRule → Option PortRule
only (rule ∷ []) = some rule
only _ = none

unfoldable pub matching_rule : List PortRule → Option Transport → ℕ → Option PortRule
unfolding only serving
matching_rule rules transport destination_port = only (serving transport destination_port rules)

-- `Result<(Ipv4Addr, u16), ForwardOutcome>`
pub data Resolved : Type 0 where
  ok : (address : Ipv4Addr) (internal_port : ℕ) → Resolved
  err : ForwardOutcome → Resolved

unfoldable pub resolve_only : DnsCache → List PortRule → Resolved
resolve_only dns_cache [] = err port_not_configured
resolve_only dns_cache (rule ∷ []) = elim (resolve dns_cache rule.internal_host) [
  | some address ↦ ok address rule.internal_port
  | none ↦ err host_unresolved
]
resolve_only dns_cache (_ ∷ _ ∷ _) = err ambiguous_endpoint

unfoldable pub resolve_rule : List PortRule → Option Transport → ℕ → DnsCache → Resolved
unfolding resolve_only serving
resolve_rule rules transport destination_port dns_cache =
    resolve_only dns_cache (serving transport destination_port rules)

unfoldable pub still_served : FlowKey → AdmittedFlow → List PortRule → Bool
unfolding matching_rule
still_served key flow rules = elim key.dialled [
  | some dialled ↦ is_some (matching_rule rules (some dialled.transport) dialled.destination_port)
  | none ↦ elim flow.served [
    | none ↦ true
    | some (transport, port) ↦ elim (matching_rule rules transport port) [
      | some rule ↦ rule.internal_port == port
      | none ↦ false
    ]
  ]
]
