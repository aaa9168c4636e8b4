-- ===== src/Preparation/Written.antt =====
-- src/main.rs: what the rewriting of a packet writes into it.
use secure_connect_connector.Preparation.{rewrite_packet, rewrite_port_or_keep}
use secure_connect_connector.Preparation.Drops.{IsPortField, address_found, port_kept}
use secure_connect_connector.Tunnel.{
  Packet, address_at, ipv4_tcp_or_udp, parse_destination_ipv4, parse_destination_port,
  parse_l4_port, parse_source_ipv4, parse_source_port, rewrite_l4_port,
}
use secure_connect_connector.Tunnel.Addresses.{
  rewrite_ipv4_address, rewrite_ipv4_address-IsAddressRewritten,
}
use secure_connect_connector.Tunnel.Kept.{
  address_at-write_ipv4_address, address_at-write_l4_port, parse_l4_port-write_ipv4_address,
}
use secure_connect_connector.Tunnel.Ports.{ipv4_tcp_or_udp-Header, rewrite_l4_port-IsPortRewritten}
use secure_connect_connector.Net.{Ipv4Addr}
use secure_connect_connector.Base.{
  Bool-cases, Option, ap, arith, inl, inr, length, none, refl, some, sym, true, ℕ, ◌+◌, ◌<◌, ◌∙◌,
  ◌≡◌, ◌≢◌, ◌⊎◌,
}

-- What a port is after a rewriting that may keep it.
abbrev pub written_or : Option ℕ → Option ℕ → Option ℕ
written_or none old = old
written_or (some port) old = some port

-- What the rewriting of a port that may be kept leaves, and what it changes.
pub record IsPortStep (p : Packet) (field_offset other : ℕ) (port : Option ℕ) (after : Packet)
    : Type 0 where
  pub size : length after ≡ length p
  pub kind : ipv4_tcp_or_udp after ≡ ipv4_tcp_or_udp p
  pub here : parse_l4_port after field_offset ≡ written_or port (parse_l4_port p field_offset)
  pub there : parse_l4_port after other ≡ parse_l4_port p other
  pub addresses : (i : ℕ) → i + 3 < 20 → address_at after i ≡ address_at p i

-- What the rewriting of the destination address leaves, and what it changes.
pub record IsAddressStep (p : Packet) (address : Ipv4Addr) (after : Packet) : Type 0 where
  pub size : length after ≡ length p
  pub kind : ipv4_tcp_or_udp after ≡ ipv4_tcp_or_udp p
  pub here : address_at after 16 ≡ some address
  pub there : address_at after 12 ≡ address_at p 12
  pub ports : (f : ℕ) → (f ≡ 0) ⊎ (f ≡ 2) → parse_l4_port after f ≡ parse_l4_port p f

addresses_kept :
    (p : Packet) (protocol ihl field_offset port i : ℕ)
    → IsPortField field_offset
    → ipv4_tcp_or_udp p ≡ some (protocol, ihl)
    → i + 3 < 20
    → address_at (rewrite_l4_port p field_offset port).0 i ≡ address_at p i
unfolding rewrite_l4_port
addresses_kept p protocol ihl field_offset port i field e low =
    rw (e, rewrite_l4_port)
      (address_at-write_l4_port p protocol ihl (ipv4_tcp_or_udp-Header p protocol ihl e)
        field_offset port i field low)

ports_kept :
    (p : Packet) (protocol ihl : ℕ) (address : Ipv4Addr) (f : ℕ)
    → IsPortField f
    → ipv4_tcp_or_udp p ≡ some (protocol, ihl)
    → parse_l4_port (rewrite_ipv4_address p 16 address).0 f ≡ parse_l4_port p f
unfolding rewrite_ipv4_address
ports_kept p protocol ihl address f port e =
    rw (e, rewrite_ipv4_address)
      (parse_l4_port-write_ipv4_address p protocol ihl (ipv4_tcp_or_udp-Header p protocol ihl e) 16
        address f (inl refl) port)

source_kept :
    (p : Packet) (protocol ihl : ℕ) (address : Ipv4Addr)
    → ipv4_tcp_or_udp p ≡ some (protocol, ihl)
    → address_at (rewrite_ipv4_address p 16 address).0 12 ≡ address_at p 12
unfolding rewrite_ipv4_address
source_kept p protocol ihl address e =
    rw (e, rewrite_ipv4_address)
      (address_at-write_ipv4_address p protocol ihl (ipv4_tcp_or_udp-Header p protocol ihl e)
        address)

port_step :
    (p : Packet) (field_offset other : ℕ) (port : Option ℕ) (found : ℕ × ℕ)
    → IsPortField field_offset
    → IsPortField other
    → other ≢ field_offset
    → ipv4_tcp_or_udp p ≡ some found
    → IsPortStep p field_offset other port (rewrite_port_or_keep p field_offset port).0
unfolding rewrite_port_or_keep
port_step p field_offset other none found field o ne e = record {
  size = refl;
  kind = refl;
  here = refl;
  there = refl;
  addresses = λ i low. refl;
}
port_step p field_offset other (some port) (protocol, ihl) field o ne e =
    let (written, kept) = port_kept p field_offset (some port) (protocol, ihl) field e in
    elim (rewrite_l4_port-IsPortRewritten p field_offset port field) [
      | inl (missed, same) ↦ absurd (cc (missed, written))
      | inr (done, size, here, there) ↦ record {
        size = size;
        kind = kept ∙ sym e;
        here = here;
        there = there other o ne;
        addresses = λ i low. addresses_kept p protocol ihl field_offset port i field e low;
      }
    ]

address_step :
    (p : Packet) (address : Ipv4Addr) (protocol ihl : ℕ)
    → ipv4_tcp_or_udp p ≡ some (protocol, ihl)
    → (rewrite_ipv4_address p 16 address).1 ≡ true
    → IsAddressStep p address (rewrite_ipv4_address p 16 address).0
address_step p address protocol ihl e done =
    elim (rewrite_ipv4_address-IsAddressRewritten p 16 address (inl refl)) [
      | inl (missed, _, _) ↦ absurd (cc (missed, done))
      | inr (_, size, kind, here) ↦ record {
        size = size;
        kind = kind;
        here = here;
        there = source_kept p protocol ihl address e;
        ports = λ f port. ports_kept p protocol ihl address f port e;
      }
    ]

-- What a packet reads as once it is rewritten for its target: of the same length, to the address, to
-- the internal port where there is one and from the allocated port where there is one, and in the
-- rest of the addresses and ports as it was.
pub record IsWritten (p : Packet) (address : Ipv4Addr) (internal_port allocated_port : Option ℕ)
    (after : Packet) : Type 0 where
  pub size : length after ≡ length p
  pub destination_address : parse_destination_ipv4 after ≡ some address
  pub source_address : parse_source_ipv4 after ≡ parse_source_ipv4 p
  pub destination_port :
      parse_destination_port after ≡ written_or internal_port (parse_destination_port p)
  pub source_port : parse_source_port after ≡ written_or allocated_port (parse_source_port p)

address_read :
    (p : Packet) (found : ℕ × ℕ) (address : Ipv4Addr)
    → ipv4_tcp_or_udp p ≡ some found
    → address_at p 16 ≡ some address
    → parse_destination_ipv4 p ≡ some address
unfolding parse_destination_ipv4
address_read p found address e a = rw (e, a) refl

source_read :
    (p q : Packet)
    → ipv4_tcp_or_udp q ≡ ipv4_tcp_or_udp p
    → address_at q 12 ≡ address_at p 12
    → parse_source_ipv4 q ≡ parse_source_ipv4 p
unfolding parse_source_ipv4
source_read p q e a = rw (e, a) refl

steps-IsWritten :
    (p one two three : Packet) (address : Ipv4Addr) (internal_port allocated_port : Option ℕ)
    (found : ℕ × ℕ)
    → ipv4_tcp_or_udp p ≡ some found
    → IsAddressStep p address one
    → IsPortStep one 2 0 internal_port two
    → IsPortStep two 0 2 allocated_port three
    → IsWritten p address internal_port allocated_port three
steps-IsWritten p one two three address internal_port allocated_port found e a b c = record {
  size = c.size ∙ b.size ∙ a.size;
  destination_address =
      address_read three found address (c.kind ∙ b.kind ∙ a.kind ∙ e)
        (c.addresses 16 (omega arith) ∙ b.addresses 16 (omega arith) ∙ a.here);
  source_address =
      source_read p three (c.kind ∙ b.kind ∙ a.kind)
        (c.addresses 12 (omega arith) ∙ b.addresses 12 (omega arith) ∙ a.there);
  destination_port = c.there ∙ b.here ∙ ap (written_or internal_port) (a.ports 2 (inr refl));
  source_port = c.here ∙ ap (written_or allocated_port) (b.there ∙ a.ports 0 (inl refl));
}

-- Where all the rewritings of a packet succeed, it reads as it should.
pub rewrite_packet-IsWritten :
    (p : Packet) (address : Ipv4Addr) (internal_port allocated_port : Option ℕ)
    → (rewrite_packet p 16 address 2 internal_port 0 allocated_port).1 ≡ true
    → IsWritten p address internal_port allocated_port
        (rewrite_packet p 16 address 2 internal_port 0 allocated_port).0
unfolding rewrite_packet
rewrite_packet-IsWritten p address internal_port allocated_port e =
    let one = (rewrite_ipv4_address p 16 address).0 in
    let two = (rewrite_port_or_keep one 2 internal_port).0 in
    elim (Bool-cases (rewrite_ipv4_address p 16 address).1) [
      | inr missed ↦ absurd (cc (rw missed at e, missed))
      | inl done ↦
          let ((protocol, ihl), found) = address_found p 16 address done in
          let first = address_step p address protocol ihl found done in
          let (second_done, second_kind) =
            port_kept one 2 internal_port (protocol, ihl) (inr refl) (first.kind ∙ found) in
          rw (done, second_done)
            (steps-IsWritten p one two (rewrite_port_or_keep two 0 allocated_port).0 address
              internal_port allocated_port (protocol, ihl) found first
              (port_step one 2 0 internal_port (protocol, ihl) (inr refl) (inl refl)
                (λ same. omega (arith, same)) (first.kind ∙ found))
              (port_step two 0 2 allocated_port (protocol, ihl) (inl refl) (inr refl)
                (λ same. omega (arith, same)) second_kind))
    ]
