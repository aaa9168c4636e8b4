-- ===== src/Tests/Packets.antt =====
-- The theorems on packets at one packet of TCP, from 10.0.0.1:40000 to 10.0.0.2:443.
use secure_connect_connector.Tunnel.Words.{words}
use secure_connect_connector.Preparation.Drops.{prepare_decrypted_packet_untouched}
use secure_connect_connector.FlowTable.Flows.{admit_flow}
use secure_connect_connector.FlowTable.Invariant.Histories.{run, step}
use secure_connect_connector.Preparation.{prepare_decrypted_packet_for_forwarding}
use secure_connect_connector.Net.{Ipv4Addr-discrete}
use secure_connect_connector.HashMap.{get, insert}
use secure_connect_connector.FlowTable.Types.{
  AllocationKey-discrete, CursorKey-discrete, FlowKey-discrete, new as empty_table,
}
use secure_connect_connector.Preparation.Tables.{IsForwarded, prepare_decrypted_packet-IsForwarded}
use secure_connect_connector.Tunnel.Bytes.{word_sum}
use secure_connect_connector.Tunnel.Headers.{rewrite_ipv4_address_sum}
use secure_connect_connector.Tunnel.{Packet, byte_at, ipv4_tcp_or_udp, rewrite_l4_port}
use secure_connect_connector.Tunnel.Ports.{IsPortRewritten, rewrite_l4_port-IsPortRewritten}
use secure_connect_connector.Tunnel.Addresses.{rewrite_ipv4_address}
use secure_connect_connector.Tests.Data.{internal_ip, no_names, two_flows}
use secure_connect_connector.Tunnel.Sums.{
  AreBytes, all_bytes, all_bytes-AreBytes, rewrite_l4_port_sum,
}
use secure_connect_connector.Base.{
  Bool, String-discrete, [], arith, false, inl, inr, refl, ℕ_discrete, ◌%◌, ◌/◌, ◌∷◌, ◌≡◌,
}

abbrev web_bytes : Packet
web_bytes =
    69 ∷ 0 ∷ 0 ∷ 40 ∷ 0 ∷ 0 ∷ 0 ∷ 0 ∷ 64 ∷ 6 ∷ 38 ∷ 206 ∷ 10 ∷ 0 ∷ 0 ∷ 1 ∷ 10 ∷ 0 ∷ 0 ∷ 2 ∷ 156 ∷ 64
    ∷ 1 ∷ 187 ∷ 0 ∷ 0 ∷ 0 ∷ 0 ∷ 0 ∷ 0 ∷ 0 ∷ 0 ∷ 80 ∷ 16 ∷ 1 ∷ 0 ∷ 18 ∷ 52 ∷ 0 ∷ 0 ∷ []

web_bytes-AreBytes : AreBytes web_bytes
unfolding all_bytes
web_bytes-AreBytes = all_bytes-AreBytes web_bytes refl

rewrite_l4_port-IsPortRewritten_example :
    IsPortRewritten web_bytes 2 8443 (rewrite_l4_port web_bytes 2 8443)
rewrite_l4_port-IsPortRewritten_example =
    rewrite_l4_port-IsPortRewritten web_bytes 2 8443 (inr refl)

rewrite_l4_port_sum_example :
    word_sum (rewrite_l4_port web_bytes 2 8443).0 % 65535 ≡ word_sum web_bytes % 65535
unfolding ipv4_tcp_or_udp byte_at ℕ_discrete
rewrite_l4_port_sum_example =
    rewrite_l4_port_sum web_bytes 6 20 2 8443 (inr refl) web_bytes-AreBytes (omega arith) refl
      (inl refl)

rewrite_ipv4_address_sum_example :
    words (20 / 2) (rewrite_ipv4_address web_bytes 16 internal_ip).0 % 65535
    ≡ words (20 / 2) web_bytes % 65535
unfolding ipv4_tcp_or_udp byte_at ℕ_discrete
rewrite_ipv4_address_sum_example =
    rewrite_ipv4_address_sum web_bytes 6 20 16 internal_ip (inl refl)
      (omega arith, omega arith, omega arith, omega arith) web_bytes-AreBytes refl

-- The web flow's first packet, and a packet that is too short to be one.
abbrev gateway_bytes : Packet
gateway_bytes =
    69 ∷ 0 ∷ 0 ∷ 40 ∷ 0 ∷ 0 ∷ 0 ∷ 0 ∷ 64 ∷ 6 ∷ 38 ∷ 206 ∷ 10 ∷ 0 ∷ 0 ∷ 1 ∷ 100 ∷ 64 ∷ 0 ∷ 9 ∷ 156
    ∷ 64 ∷ 1 ∷ 187 ∷ 0 ∷ 0 ∷ 0 ∷ 0 ∷ 0 ∷ 0 ∷ 0 ∷ 0 ∷ 80 ∷ 16 ∷ 1 ∷ 0 ∷ 18 ∷ 52 ∷ 0 ∷ 0 ∷ []

abbrev never : Packet → Bool
never _ = false

prepare_decrypted_packet-IsForwarded_example :
    IsForwarded gateway_bytes "n1" two_flows no_names
      (prepare_decrypted_packet_for_forwarding never gateway_bytes "n1" two_flows no_names 7).packet
unfolding prepare_decrypted_packet_for_forwarding two_flows run step admit_flow empty_table get
    insert String-discrete ℕ_discrete Ipv4Addr-discrete FlowKey-discrete AllocationKey-discrete
    CursorKey-discrete byte_at secure_connect_connector.HashMap.retain
    secure_connect_connector.FlowTable.Rules.serves secure_connect_connector.DnsCache.resolve
    secure_connect_connector.Net.parse_ipv4
prepare_decrypted_packet-IsForwarded_example =
    prepare_decrypted_packet-IsForwarded never gateway_bytes "n1" two_flows no_names 7 refl refl

prepare_decrypted_packet_untouched_example :
    (prepare_decrypted_packet_for_forwarding never gateway_bytes "n3" two_flows no_names 7).packet
    ≡ gateway_bytes
unfolding prepare_decrypted_packet_for_forwarding two_flows run step admit_flow empty_table get
    insert String-discrete ℕ_discrete Ipv4Addr-discrete FlowKey-discrete byte_at
    secure_connect_connector.HashMap.retain
prepare_decrypted_packet_untouched_example =
    prepare_decrypted_packet_untouched never gateway_bytes "n3" two_flows no_names 7 refl
