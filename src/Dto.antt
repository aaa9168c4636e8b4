-- ===== src/Dto.antt =====
-- src/dto.rs: the heartbeat's policy bundles, and the port rules a gateway is served by.
pub mod Wire
use Prim.Native.String.{◌++◌}
use secure_connect_connector.Net.{show_u16}
use secure_connect_connector.Base.{
  List, Option, String, [], if◌then◌else◌, map, none, option_map, some, string_key, ℕ, ◌==◌, ◌∷◌,
}

-- Which transports a rule opens; an unknown value is kept as it was sent.
pub data RuleTransport : Type 0 where
  tcp udp tcp_udp : RuleTransport
  unknown : String → RuleTransport

unfoldable pub as_wire : RuleTransport → String
as_wire tcp = "TCP"
as_wire udp = "UDP"
as_wire tcp_udp = "TCP_UDP"
as_wire (unknown value) = value

-- `RuleTransport::deserialize`, of the text that serde hands it.
unfoldable pub rule_transport_of : String → RuleTransport
rule_transport_of value =
    if value == "TCP"
    then tcp
    else if value == "UDP"
    then udp
    else if value == "TCP_UDP"
    then tcp_udp
    else unknown value

pub record PortRule : Type 0 where
  pub transport : RuleTransport
  pub external_port : ℕ
  pub internal_host : String
  pub internal_port : ℕ

pub record PolicyBundleEndpoint : Type 0 where
  pub host : String
  pub port : ℕ

pub record Entitlement : Type 0 where
  pub user_id : String
  pub device_public_key : Option String

pub record HeartbeatNode : Type 0 where
  pub node_id : String
  pub ip_address : String
  pub wireguard_public_key : Option String

pub record PolicyBundle : Type 0 where
  pub gateway_id : String
  pub location : String
  pub hostname : String
  pub access_mode : String
  pub endpoints : List PolicyBundleEndpoint
  pub port_rules : Option (List PortRule)
  pub entitlement_list : List Entitlement

pub record ConnectorHeartbeatResponse : Type 0 where
  pub connector_id : String
  pub connector_public_key : Option String
  pub connector_virtual_ip : Option String
  pub generated_at : String
  pub expires_at : String
  pub nonce : String
  pub policy_bundles : List PolicyBundle
  pub node_list : List HeartbeatNode

-- `From<&PolicyBundleEndpoint> for PortRule`
unfoldable pub rule_of_endpoint : PolicyBundleEndpoint → PortRule
rule_of_endpoint endpoint = record {
  transport = tcp_udp;
  external_port = endpoint.port;
  internal_host = endpoint.host;
  internal_port = endpoint.port;
}

unfoldable pub rules : PolicyBundle → List PortRule
unfolding rule_of_endpoint
rules bundle = elim bundle.port_rules [
  | some rs ↦ rs
  | none ↦ map rule_of_endpoint bundle.endpoints
]

-- The rules that parse, in their order; `parse` is the derived `PortRule::deserialize`.
unfoldable pub parsed_rules {ℓ} : {V : Type ℓ} → (V → Option PortRule) → List V → List PortRule
parsed_rules parse [] = []
parsed_rules parse (value ∷ values) = elim (parse value) [
  | some rule ↦ rule ∷ parsed_rules parse values
  | none ↦ parsed_rules parse values
]

unfoldable pub deserialize_port_rules {ℓ} :
    {V : Type ℓ} → (V → Option PortRule) → Option (List V) → Option (List PortRule)
unfolding parsed_rules
deserialize_port_rules parse raw = option_map (parsed_rules parse) raw

-- `Display for PortRule`, such as `TCP 443 -> 10.0.0.5:8443`.
unfoldable pub describe : PortRule → String
unfolding show_u16
describe rule =
    shown rule.transport
    ++ " "
    ++ show_u16 rule.external_port
    ++ " -> "
    ++ rule.internal_host
    ++ ":"
    ++ show_u16 rule.internal_port
  where
    shown : RuleTransport → String
    shown tcp = "TCP"
    shown udp = "UDP"
    shown tcp_udp = "TCP+UDP"
    shown (unknown value) = value
