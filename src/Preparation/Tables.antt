-- ===== src/Preparation/Tables.antt =====
-- What the preparation of a packet does to the table, and what it lets through.
use secure_connect_connector.FlowTable.Bounds.Histories.{run-IsBounded}
use secure_connect_connector.FlowTable.Bounds.{IsBounded, memory}
use secure_connect_connector.FlowTable.Invariant.Removal.{IsValid}
use secure_connect_connector.FlowTable.ControlPorts.{node_for_outbound_control_channel_source_port}
use secure_connect_connector.FlowTable.Forward.{forward}
use secure_connect_connector.DnsCache.{DnsCache}
use secure_connect_connector.FlowTable.RuleChanges.{is_rule_ended}
use secure_connect_connector.FlowTable.Types.{
  Dialled, FlowTable, Forwarding, forwards, not_admitted, refused,
}
use secure_connect_connector.Tunnel.{
  Packet, parse_destination_ipv4, parse_destination_port, parse_ipv4_transport, parse_source_port,
}
use secure_connect_connector.Net.{Ipv4Addr}
use secure_connect_connector.Base.{
  Bool, Bool-cases, List, Option, Option-cases, String, [], and_then, arith, false, inl, inr,
  is_some, none, refl, some, subst, sym, true, ℕ, ◌∷◌, ◌≡◌,
}
use secure_connect_connector.FlowTable.Invariant.Histories.{
  Call, asks_ended, buffers, forwards_packet, records_inbound, run, run-IsValid, step,
}
use secure_connect_connector.Preparation.Written.{IsWritten, rewrite_packet-IsWritten}
use secure_connect_connector.Preparation.{
  dialled_of, finish_forwarding, prepare_decrypted_packet_for_forwarding, prepare_own,
  prepare_ports,
}

finish_forwarding-run :
    (p : Packet) (n : String) (q : ℕ) (d : Option Dialled) (now : ℕ)
    (result : FlowTable × Forwarding)
    → (cs : List Call) × ((finish_forwarding p n q d now result).flow_table ≡ run result.0 cs)
unfolding finish_forwarding run step
finish_forwarding-run p n q d now (table, forwards address internal_port allocated_port) =
    ([], refl)
finish_forwarding-run p n q d now (table, refused outcome) = ([], refl)
finish_forwarding-run p n q d now (table, not_admitted) =
    elim (Bool-cases (is_rule_ended table n q d now).1) [
      | inl e ↦ (asks_ended n q d now ∷ [], rw (e, finish_forwarding) refl)
      | inr e ↦ (asks_ended n q d now ∷ buffers n q d p now ∷ [], rw (e, finish_forwarding) refl)
    ]

prepare_ports-run :
    (p : Packet) (n : String) (table : FlowTable) (dns : DnsCache) (now : ℕ)
    (source destination : Option ℕ)
    → (cs : List Call) × ((prepare_ports p n table dns now source destination).flow_table
        ≡ run table cs)
unfolding prepare_ports run step
prepare_ports-run p n table dns now (some s) (some d) =
    let identity = dialled_of (parse_ipv4_transport p) (parse_destination_ipv4 p) d in
    let (cs, e) = finish_forwarding-run p n s identity now (forward table n s identity d dns) in
    (forwards_packet n s identity d dns ∷ cs, e)
prepare_ports-run p n table dns now (some s) none = ([], refl)
prepare_ports-run p n table dns now none destination = ([], refl)

-- The preparation of a decrypted packet is a history of the table's own operations, so it keeps the
-- table's indexes and its bounds.
pub prepare_decrypted_packet-run :
    (is_own : Packet → Bool) (p : Packet) (n : String) (table : FlowTable) (dns : DnsCache)
    (now : ℕ)
    → (cs : List Call) × ((prepare_decrypted_packet_for_forwarding is_own p n table dns
          now).flow_table
        ≡ run table cs)
unfolding prepare_decrypted_packet_for_forwarding prepare_own run step
prepare_decrypted_packet-run is_own p n table dns now = elim (Bool-cases (is_own p)) [
  | inl own ↦ elim (Option-cases (parse_source_port p)) [
    | inl e ↦ ([], ground (arith, own, e))
    | inr (source, e) ↦
        elim (Bool-cases (
          is_some (
            and_then (parse_destination_port p)
              (node_for_outbound_control_channel_source_port table)))) [
                | inl reply ↦ ([], ground (arith, own, e, reply))
                | inr other ↦ (records_inbound n source ∷ [], ground (arith, own, e, other))
              ]
  ]
  | inr other ↦
      let (cs, e) =
        prepare_ports-run p n table dns now (parse_source_port p) (parse_destination_port p) in
      (cs, rw (other, prepare_decrypted_packet_for_forwarding) e)
]

-- What a packet that is let through was forwarded by: the table forwards it to an address and ports,
-- for what it shows of its flow, and they are what it reads as afterwards.
pub record IsForwarded (p : Packet) (n : String) (table : FlowTable) (dns : DnsCache)
    (result : Packet) : Type 0 where
  pub source : ℕ
  pub destination : ℕ
  pub address : Ipv4Addr
  pub internal_port : Option ℕ
  pub allocated_port : Option ℕ
  pub shows_source : parse_source_port p ≡ some source
  pub shows_destination : parse_destination_port p ≡ some destination
  pub forwarded :
      (forward table n source
        (dialled_of (parse_ipv4_transport p) (parse_destination_ipv4 p) destination)
        destination
        dns).1
      ≡ forwards address internal_port allocated_port
  pub written : IsWritten p address internal_port allocated_port result

finished :
    (p : Packet) (n : String) (q : ℕ) (d : Option Dialled) (now : ℕ) (table : FlowTable)
    (way : Forwarding)
    → (finish_forwarding p n q d now (table, way)).forwarded ≡ true
    → (address : Ipv4Addr) × (internal_port : Option ℕ) × (allocated_port : Option ℕ) × (way
        ≡ forwards address internal_port allocated_port)
      × IsWritten p address internal_port allocated_port
          (finish_forwarding p n q d now (table, way)).packet
unfolding finish_forwarding
finished p n q d now table (forwards address internal_port allocated_port) e = (
  address,
  internal_port,
  allocated_port,
  refl,
  rewrite_packet-IsWritten p address internal_port allocated_port e,
)
finished p n q d now table not_admitted e = cc
finished p n q d now table (refused outcome) e = cc

ports_forwarded :
    (p : Packet) (n : String) (table : FlowTable) (dns : DnsCache) (now : ℕ)
    (source destination : Option ℕ)
    → parse_source_port p ≡ source
    → parse_destination_port p ≡ destination
    → (prepare_ports p n table dns now source destination).forwarded ≡ true
    → IsForwarded p n table dns (prepare_ports p n table dns now source destination).packet
unfolding prepare_ports
ports_forwarded p n table dns now (some s) (some d) a b e =
    let (address, internal_port, allocated_port, way, packet) =
      finished p n s (dialled_of (parse_ipv4_transport p) (parse_destination_ipv4 p) d) now _ _ e in
    record {
      source = s;
      destination = d;
      address = address;
      internal_port = internal_port;
      allocated_port = allocated_port;
      shows_source = a;
      shows_destination = b;
      forwarded = way;
      written = packet;
    }
ports_forwarded p n table dns now (some s) none a b e = cc
ports_forwarded p n table dns now none destination a b e = cc

-- A decrypted packet that is not for the Connector itself is let through only where the table
-- forwards it by its ports and by the identity that it shows; and then it has the length that it
-- had, is read back as going to the address that the table gives, to the internal port and from the
-- allocated port where the table gives one, and its other ports and its source address are as they
-- were.
pub prepare_decrypted_packet-IsForwarded :
    (is_own : Packet → Bool) (p : Packet) (n : String) (table : FlowTable) (dns : DnsCache)
    (now : ℕ)
    → is_own p ≡ false
    → (prepare_decrypted_packet_for_forwarding is_own p n table dns now).forwarded ≡ true
    → IsForwarded p n table dns
        (prepare_decrypted_packet_for_forwarding is_own p n table dns now).packet
unfolding prepare_decrypted_packet_for_forwarding
prepare_decrypted_packet-IsForwarded is_own p n table dns now other e =
    rw (other, prepare_decrypted_packet_for_forwarding)
      (ports_forwarded p n table dns now (parse_source_port p) (parse_destination_port p) refl refl
        (rw (other, prepare_decrypted_packet_for_forwarding) at e))

-- The preparation of a decrypted packet, whatever becomes of it, keeps both indexes of the table in
-- agreement with its flows, and what the table remembers within its caps.
pub prepare_decrypted_packet-IsValid :
    (is_own : Packet → Bool) (p : Packet) (n : String) (table : FlowTable) (dns : DnsCache)
    (now : ℕ)
    → IsValid table
    → IsBounded (memory table)
    → IsValid (prepare_decrypted_packet_for_forwarding is_own p n table dns now).flow_table
      × IsBounded
          (memory (prepare_decrypted_packet_for_forwarding is_own p n table dns now).flow_table)
prepare_decrypted_packet-IsValid is_own p n table dns now valid bounded =
    let (cs, e) = prepare_decrypted_packet-run is_own p n table dns now in
    (
      subst IsValid (sym e) (run-IsValid table cs valid),
      subst (λ t. IsBounded (memory t)) (sym e) (run-IsBounded table cs bounded),
    )
