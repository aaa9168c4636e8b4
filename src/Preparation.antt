-- ===== src/Preparation.antt =====
-- src/main.rs: what is done to one packet before it is written to the TUN device, or sent to a node.
-- Whether a packet is for the Connector's own address, which the WireGuard library reads from it, is
-- a parameter; its two reads of the clock are one argument; the logging is left out.
pub mod Tables
pub mod Drops
pub mod Written
use secure_connect_connector.DnsCache.{DnsCache}
use secure_connect_connector.FlowTable.Pending.{buffer_pending}
use secure_connect_connector.FlowTable.Types.{
  Dialled, FlowTable, Forwarding, Transport, forwards, not_admitted, refused, restore, unchanged,
}
use secure_connect_connector.FlowTable.RuleChanges.{is_rule_ended}
use secure_connect_connector.Tunnel.{
  Packet, parse_destination_ipv4, parse_destination_port, parse_ipv4_transport, parse_l4_port,
  parse_source_ipv4, parse_source_port, rewrite_l4_port,
}
use secure_connect_connector.FlowTable.Forward.{forward}
use secure_connect_connector.FlowTable.Reply.{Routed, route_reply}
use secure_connect_connector.Net.{Ipv4Addr}
use secure_connect_connector.FlowTable.ControlPorts.{
  node_for_outbound_control_channel_source_port, record_control_channel_port,
}
use secure_connect_connector.Base.{
  Bool, Option, String, and_then, false, if◌then◌else◌, is_some, none, some, true, ℕ,
}
use secure_connect_connector.Tunnel.Addresses.{rewrite_ipv4_address}

-- `port.is_none_or(..)` of a rewriting, with the packet after it.
unfoldable pub rewrite_port_or_keep : Packet → ℕ → Option ℕ → Packet × Bool
unfolding rewrite_l4_port
rewrite_port_or_keep packet field_offset none = (packet, true)
rewrite_port_or_keep packet field_offset (some port) = rewrite_l4_port packet field_offset port

-- The rewritings of an address and then of two ports, each where the one before succeeded.
unfoldable pub rewrite_packet : Packet → ℕ → Ipv4Addr → ℕ → Option ℕ → ℕ → Option ℕ → Packet × Bool
unfolding rewrite_ipv4_address rewrite_port_or_keep
rewrite_packet packet address_field address first_field first_port second_field second_port =
    let one = rewrite_ipv4_address packet address_field address in
    let two = rewrite_port_or_keep one.0 first_field first_port in
    let three = rewrite_port_or_keep two.0 second_field second_port in
    if one.1 then if two.1 then three else two else one

-- The match on `route_reply` of `prepare_reply_packet_for_forwarding`.
unfoldable pub restore_reply : Packet → Routed → Packet × Option String
unfolding rewrite_packet
restore_reply packet (Routed.err miss) = (packet, none)
restore_reply packet (Routed.ok (unchanged node_id)) = (packet, some node_id)
restore_reply packet (Routed.ok (restore node_id source source_port destination_port)) =
    let rewritten = rewrite_packet packet 12 source 0 source_port 2 destination_port in
    (rewritten.0, if rewritten.1 then some node_id else none)

-- `prepare_reply_packet_for_forwarding`: the packet after it, and the node that it goes to.
unfoldable pub prepare_reply_packet_for_forwarding : Packet → ℕ → FlowTable → Packet × Option String
unfolding restore_reply route_reply parse_ipv4_transport parse_source_ipv4 parse_l4_port
prepare_reply_packet_for_forwarding packet destination_port table = restore_reply packet (
    route_reply table (parse_ipv4_transport packet) (parse_source_ipv4 packet)
      (parse_source_port packet) destination_port)

-- The identity that the packet shows.
unfoldable pub dialled_of : Option Transport → Option Ipv4Addr → ℕ → Option Dialled
dialled_of (some transport) (some gateway_address) destination_port = some (record {
  transport = transport;
  gateway_address = gateway_address;
  destination_port = destination_port;
})
dialled_of _ _ _ = none

pub record Prepared : Type 0 where
  pub packet : Packet
  pub flow_table : FlowTable
  pub forwarded : Bool

-- The match on `forward`, and the rewriting of a packet that it forwards.
unfoldable pub finish_forwarding :
    Packet → String → ℕ → Option Dialled → ℕ → FlowTable × Forwarding → Prepared
unfolding rewrite_packet is_rule_ended buffer_pending
finish_forwarding packet node_id source_port identity now
      (table, forwards address internal_port allocated_port) =
    let rewritten = rewrite_packet packet 16 address 2 internal_port 0 allocated_port in
    record { packet = rewritten.0; flow_table = table; forwarded = rewritten.1 }
finish_forwarding packet node_id source_port identity now (table, not_admitted) =
    let (asked, ended) = is_rule_ended table node_id source_port identity now in
    record {
      packet = packet;
      flow_table =
          if ended then asked else buffer_pending asked node_id source_port identity packet now;
      forwarded = false;
    }
finish_forwarding packet node_id source_port identity now (table, refused outcome) = record {
  packet = packet;
  flow_table = table;
  forwarded = false;
}

-- The branch for a packet to the Connector itself.
unfoldable pub prepare_own : Packet → String → FlowTable → Prepared
unfolding parse_l4_port node_for_outbound_control_channel_source_port record_control_channel_port
prepare_own packet node_id table =
    let own =
      and_then (parse_destination_port packet)
        (node_for_outbound_control_channel_source_port table) in
    record {
      packet = packet;
      flow_table = elim (parse_source_port packet) [
        | none ↦ table
        | some source_port ↦
            if is_some own then table else record_control_channel_port table node_id source_port
      ];
      forwarded = true;
    }

-- The rest of the function, of the packet's ports.
unfoldable pub prepare_ports :
    Packet → String → FlowTable → DnsCache → ℕ → Option ℕ → Option ℕ → Prepared
unfolding forward dialled_of finish_forwarding parse_ipv4_transport parse_destination_ipv4
prepare_ports packet node_id table dns_cache now (some source_port) (some dst_port) =
    let identity =
      dialled_of (parse_ipv4_transport packet) (parse_destination_ipv4 packet) dst_port in
    finish_forwarding packet node_id source_port identity now
      (forward table node_id source_port identity dst_port dns_cache)
prepare_ports packet node_id table dns_cache now _ _ = record {
  packet = packet;
  flow_table = table;
  forwarded = false;
}

-- `prepare_decrypted_packet_for_forwarding`
unfoldable pub prepare_decrypted_packet_for_forwarding :
    (is_own : Packet → Bool) → Packet → String → FlowTable → DnsCache → ℕ → Prepared
unfolding prepare_own prepare_ports
prepare_decrypted_packet_for_forwarding is_own packet node_id table dns_cache now =
    if is_own packet
    then prepare_own packet node_id table
    else prepare_ports packet node_id table dns_cache now (parse_source_port packet)
        (parse_destination_port packet)
