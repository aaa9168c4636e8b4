-- ===== src/Preparation/Drops.antt =====
-- A packet that is dropped is as it was.
use secure_connect_connector.DnsCache.{DnsCache}
use secure_connect_connector.FlowTable.Reply.{Routed, route_reply}
use secure_connect_connector.FlowTable.Types.{
  Dialled, FlowTable, Forwarding, forwards, not_admitted, refused, restore, unchanged,
}
use secure_connect_connector.Tunnel.{
  Packet, ipv4_tcp_or_udp, parse_destination_port, parse_ipv4_transport, parse_source_ipv4,
  parse_source_port, rewrite_l4_port, write_l4_port,
}
use secure_connect_connector.Net.{Ipv4Addr}
use secure_connect_connector.Base.{
  Bool, Bool-cases, Option, Option-cases, String, arith, false, if◌then◌else◌, inl, inr, none, refl,
  some, true, ℕ, ◌∙◌, ◌≡◌, ◌⊎◌,
}
use secure_connect_connector.Tunnel.Ports.{Header-after, ipv4_tcp_or_udp-Header}
use secure_connect_connector.Tunnel.Addresses.{
  Header-ipv4_tcp_or_udp, IsAddressField, rewrite_ipv4_address,
  rewrite_ipv4_address-IsAddressRewritten,
}
use secure_connect_connector.Preparation.{
  finish_forwarding, prepare_decrypted_packet_for_forwarding, prepare_own, prepare_ports,
  prepare_reply_packet_for_forwarding, restore_reply, rewrite_packet, rewrite_port_or_keep,
}

abbrev pub IsPortField : ℕ → Type 0
IsPortField field_offset = (field_offset ≡ 0) ⊎ (field_offset ≡ 2)

rewritten_kept :
    (p : Packet) (field_offset port : ℕ) (found : ℕ × ℕ)
    → IsPortField field_offset
    → ipv4_tcp_or_udp p ≡ some found
    → ((rewrite_l4_port p field_offset port).1 ≡ true)
      × (ipv4_tcp_or_udp (rewrite_l4_port p field_offset port).0 ≡ some found)
unfolding rewrite_l4_port write_l4_port
rewritten_kept p field_offset port (protocol, ihl) field e =
    let h = ipv4_tcp_or_udp-Header p protocol ihl e in
    let kept =
      Header-ipv4_tcp_or_udp _ protocol ihl
        (Header-after p protocol ihl h field_offset port field) in
    (rw (e, rewrite_l4_port) refl, rw (e, rewrite_l4_port) kept)

pub port_kept :
    (p : Packet) (field_offset : ℕ) (port : Option ℕ) (found : ℕ × ℕ)
    → IsPortField field_offset
    → ipv4_tcp_or_udp p ≡ some found
    → ((rewrite_port_or_keep p field_offset port).1 ≡ true)
      × (ipv4_tcp_or_udp (rewrite_port_or_keep p field_offset port).0 ≡ some found)
unfolding rewrite_port_or_keep
port_kept p field_offset none found field e = (refl, e)
port_kept p field_offset (some port) found field e =
    rewritten_kept p field_offset port found field e

pub address_found :
    (p : Packet) (field_offset : ℕ) (address : Ipv4Addr)
    → (rewrite_ipv4_address p field_offset address).1 ≡ true
    → (found : ℕ × ℕ) × (ipv4_tcp_or_udp p ≡ some found)
unfolding rewrite_ipv4_address
address_found p field_offset address e = elim (Option-cases (ipv4_tcp_or_udp p)) [
  | inl f ↦ absurd (ground (arith, e, f))
  | inr found ↦ found
]

-- The rewritings of a packet succeed together, or leave it as it was.
pub rewrite_packet_all :
    (p : Packet) (address_field : ℕ) (address : Ipv4Addr) (first : ℕ) (first_port : Option ℕ)
    (second : ℕ) (second_port : Option ℕ)
    → IsAddressField address_field
    → IsPortField first
    → IsPortField second
    → (rewrite_packet p address_field address first first_port second second_port).1 ≡ false
    → (rewrite_packet p address_field address first first_port second second_port).0 ≡ p
unfolding rewrite_packet
rewrite_packet_all p address_field address first first_port second second_port a b c e =
    elim (rewrite_ipv4_address-IsAddressRewritten p address_field address a) [
      | inl (missed, same, _) ↦ ground (arith, missed, same)
      | inr (done, _, kind, _) ↦
          let (found, f) = address_found p address_field address done in
          let (one, same) =
            port_kept (rewrite_ipv4_address p address_field address).0 first first_port found b
              (kind ∙ f) in
          let (two, _) =
            port_kept
              (rewrite_port_or_keep (rewrite_ipv4_address p address_field address).0 first
                first_port).0
              second second_port found c same in
          absurd (ground (arith, done, one, two, e))
    ]

restored_untouched :
    (p : Packet) (r : Routed) → (restore_reply p r).1 ≡ none → (restore_reply p r).0 ≡ p
unfolding restore_reply
restored_untouched p (Routed.err miss) e = refl
restored_untouched p (Routed.ok (unchanged node_id)) e = refl
restored_untouched p (Routed.ok (restore node_id source source_port destination_port)) e =
    rewrite_packet_all p 12 source 0 source_port 2 destination_port (inr refl) (inl refl) (inr refl)
      (dropped (rewrite_packet p 12 source 0 source_port 2 destination_port).1 node_id e)
  where
    dropped : (b : Bool) (node_id : String) → (if b then some node_id else none) ≡ none → b ≡ false
    dropped true node_id f = cc
    dropped false node_id f = refl

-- A reply that is dropped is as it was read, whatever of it was rewritten on the way.
pub prepare_reply_packet_untouched :
    (p : Packet) (destination_port : ℕ) (table : FlowTable)
    → (prepare_reply_packet_for_forwarding p destination_port table).1 ≡ none
    → (prepare_reply_packet_for_forwarding p destination_port table).0 ≡ p
unfolding prepare_reply_packet_for_forwarding
prepare_reply_packet_untouched p destination_port table e =
    restored_untouched p
      (route_reply table (parse_ipv4_transport p) (parse_source_ipv4 p) (parse_source_port p)
        destination_port)
      e

forwarding_untouched :
    (p : Packet) (n : String) (q : ℕ) (d : Option Dialled) (now : ℕ)
    (result : FlowTable × Forwarding)
    → (finish_forwarding p n q d now result).forwarded ≡ false
    → (finish_forwarding p n q d now result).packet ≡ p
unfolding finish_forwarding
forwarding_untouched p n q d now (table, forwards address internal_port allocated_port) e =
    rewrite_packet_all p 16 address 2 internal_port 0 allocated_port (inl refl) (inr refl)
      (inl refl) e
forwarding_untouched p n q d now (table, not_admitted) e = refl
forwarding_untouched p n q d now (table, refused outcome) e = refl

ports_untouched :
    (p : Packet) (node_id : String) (table : FlowTable) (dns : DnsCache) (now : ℕ)
    (source destination : Option ℕ)
    → (prepare_ports p node_id table dns now source destination).forwarded ≡ false
    → (prepare_ports p node_id table dns now source destination).packet ≡ p
unfolding prepare_ports
ports_untouched p node_id table dns now (some s) (some d) e =
    forwarding_untouched p node_id s _ now _ e
ports_untouched p node_id table dns now (some s) none e = refl
ports_untouched p node_id table dns now none destination e = refl

-- A decrypted packet that is not forwarded is as it was.
pub prepare_decrypted_packet_untouched :
    (is_own : Packet → Bool) (p : Packet) (node_id : String) (table : FlowTable) (dns : DnsCache)
    (now : ℕ)
    → (prepare_decrypted_packet_for_forwarding is_own p node_id table dns now).forwarded ≡ false
    → (prepare_decrypted_packet_for_forwarding is_own p node_id table dns now).packet ≡ p
unfolding prepare_decrypted_packet_for_forwarding prepare_own
prepare_decrypted_packet_untouched is_own p node_id table dns now e = elim (Bool-cases (is_own p)) [
  | inl own ↦ absurd (ground (arith, e, own))
  | inr other ↦
      rw (other, prepare_decrypted_packet_for_forwarding)
        (ports_untouched p node_id table dns now (parse_source_port p) (parse_destination_port p)
          (rw (other, prepare_decrypted_packet_for_forwarding) at e))
]
