-- ===== src/Tunnel/Addresses.antt =====
-- src/tunnel.rs: how a packet's addresses are rewritten, and that they are read back.
use secure_connect_connector.Tunnel.Bytes.{
  byte_at-set_byte, byte_at-write_u16_other, length-set_byte, length-write_u16,
}
use secure_connect_connector.Tunnel.{
  Packet, address_at, byte_at, checksum_adjust, checksum_offset, from_be_bytes, ipv4_tcp_or_udp,
  read_u16, set_byte, tcp_or_udp, write_checksum, write_u16,
}
use secure_connect_connector.Net.{Ipv4Addr}
use secure_connect_connector.Base.{
  Bool, Option-cases, arith, false, if◌then◌else◌, inl, inr, length, nat_key, none, refl, some,
  true, ℕ, ◌+◌, ◌<◌, ◌==◌, ◌∙◌, ◌≡◌, ◌≢◌, ◌≤◌, ◌⊎◌,
}
use secure_connect_connector.Tunnel.Ports.{
  Header, byte_at-write_checksum, checksum_offset_cases, ipv4_tcp_or_udp-Header,
  length-write_checksum, unfragmented_same,
}

-- `copy_from_slice(&new_octets)`
unfoldable pub write_octets : Packet → ℕ → Ipv4Addr → Packet
unfolding set_byte
write_octets packet offset address =
    set_byte
      (set_byte (set_byte (set_byte packet offset address.a) (offset + 1) address.b) (offset + 2)
        address.c)
      (offset + 3) address.d

-- A checksum adjusted for both words of an address.
unfoldable pub adjust_for_address : Packet → ℕ → Ipv4Addr → ℕ → ℕ
unfolding checksum_adjust read_u16
adjust_for_address packet field_offset address checksum =
    checksum_adjust
      (checksum_adjust checksum (read_u16 packet field_offset) (from_be_bytes address.a address.b))
      (read_u16 packet (field_offset + 2)) (from_be_bytes address.c address.d)

-- The end of `rewrite_ipv4_address`, of a packet that it does not refuse.
unfoldable pub write_ipv4_address : Packet → ℕ → ℕ → ℕ → Ipv4Addr → Packet
unfolding adjust_for_address write_u16 write_checksum write_octets
write_ipv4_address packet protocol ihl field_offset address =
    let offset = checksum_offset protocol ihl in
    let headed =
      write_u16 packet 10 (adjust_for_address packet field_offset address (read_u16 packet 10)) in
    let summed =
      write_checksum headed protocol offset
        (adjust_for_address packet field_offset address (read_u16 headed offset)) in
    write_octets summed field_offset address

-- `rewrite_ipv4_address`, whose guards are those of `ipv4_tcp_or_udp`, one after the other.
unfoldable pub rewrite_ipv4_address : Packet → ℕ → Ipv4Addr → Packet × Bool
unfolding ipv4_tcp_or_udp write_ipv4_address
rewrite_ipv4_address packet field_offset address = elim (ipv4_tcp_or_udp packet) [
  | none ↦ (packet, false)
  | some (protocol, ihl) ↦ (write_ipv4_address packet protocol ihl field_offset address, true)
]

abbrev pub rewrite_destination_ipv4 : Packet → Ipv4Addr → Packet × Bool
rewrite_destination_ipv4 packet new_dst = rewrite_ipv4_address packet 16 new_dst

abbrev pub rewrite_source_ipv4 : Packet → Ipv4Addr → Packet × Bool
rewrite_source_ipv4 packet new_src = rewrite_ipv4_address packet 12 new_src

pub Header-ipv4_tcp_or_udp :
    (p : Packet) (protocol ihl : ℕ)
    → Header p protocol ihl
    → ipv4_tcp_or_udp p ≡ some (protocol, ihl)
unfolding ipv4_tcp_or_udp tcp_or_udp
Header-ipv4_tcp_or_udp p protocol ihl h =
    let room : ihl ≤ length p = ground (arith, checksum_offset_cases protocol ihl, h.holds) in
    ground
      (arith, h.starts, h.version, h.size, h.least, h.unfragmented, h.names, room, h.holds, h.known)

length-write_octets : (p : Packet) (i : ℕ) (v : Ipv4Addr) → length (write_octets p i v) ≡ length p
unfolding write_octets
length-write_octets p i v = omega (
  arith,
  length-set_byte (set_byte (set_byte (set_byte p i v.a) (i + 1) v.b) (i + 2) v.c) (i + 3) v.d,
  length-set_byte (set_byte (set_byte p i v.a) (i + 1) v.b) (i + 2) v.c,
  length-set_byte (set_byte p i v.a) (i + 1) v.b,
  length-set_byte p i v.a,
)

byte_at-write_octets :
    (p : Packet) (i j : ℕ) (v : Ipv4Addr)
    → i + 3 < length p
    → byte_at (write_octets p i v) j ≡ (
        if i == j
        then some v.a
        else if i + 1 == j
        then some v.b
        else if i + 2 == j
        then some v.c
        else if i + 3 == j
        then some v.d
        else byte_at p j)
unfolding write_octets
byte_at-write_octets p i j v h =
    let one = set_byte p i v.a in
    let two = set_byte one (i + 1) v.b in
    let three = set_byte two (i + 2) v.c in
    ground (
      arith,
      byte_at-set_byte three (i + 3) v.d j,
      byte_at-set_byte two (i + 2) v.c j,
      byte_at-set_byte one (i + 1) v.b j,
      byte_at-set_byte p i v.a j,
      length-set_byte two (i + 2) v.c,
      length-set_byte one (i + 1) v.b,
      length-set_byte p i v.a,
    )

address_at-write_octets :
    (p : Packet) (i : ℕ) (v : Ipv4Addr)
    → i + 3 < length p
    → address_at (write_octets p i v) i ≡ some v
unfolding address_at
address_at-write_octets p i v h = ground (
  arith,
  byte_at-write_octets p i i v h,
  byte_at-write_octets p i (i + 1) v h,
  byte_at-write_octets p i (i + 2) v h,
  byte_at-write_octets p i (i + 3) v h,
)

-- The offset of the destination address, or of the source address.
abbrev pub IsAddressField : ℕ → Type 0
IsAddressField field_offset = (field_offset ≡ 16) ⊎ (field_offset ≡ 12)

module _ (p : Packet) (protocol ihl : ℕ) (h : Header p protocol ihl) (field_offset : ℕ)
    (address : Ipv4Addr) (field : IsAddressField field_offset) where
  abbrev offset : ℕ
  offset = checksum_offset protocol ihl

  abbrev header_checksum : ℕ
  header_checksum = adjust_for_address p field_offset address (read_u16 p 10)

  abbrev headed : Packet
  headed = write_u16 p 10 header_checksum

  abbrev adjusted : ℕ
  adjusted = adjust_for_address p field_offset address (read_u16 headed offset)

  abbrev summed : Packet
  summed = write_checksum headed protocol offset adjusted

  abbrev after : Packet
  after = write_octets summed field_offset address

  beyond : ihl + 6 ≤ offset
  beyond = ground (arith, checksum_offset_cases protocol ihl)

  length-summed : length summed ≡ length p
  length-summed =
      length-write_checksum headed protocol offset adjusted ∙ length-write_u16 p 10 header_checksum

  room : field_offset + 3 < length summed
  room = ground (arith, length-summed, beyond, h.holds, h.least, field)

  byte_at-summed : (j : ℕ) → j < ihl → 10 ≢ j → 11 ≢ j → byte_at summed j ≡ byte_at p j
  byte_at-summed j low a b =
      byte_at-write_checksum headed protocol offset adjusted j (λ e. omega (arith, e, low, beyond))
        (λ e. omega (arith, e, low, beyond))
      ∙ byte_at-write_u16_other p 10 header_checksum j a b

  byte_at-after : (j : ℕ) → j < 10 → byte_at after j ≡ byte_at p j
  byte_at-after j low = ground (
    arith,
    byte_at-write_octets summed field_offset j address room,
    byte_at-summed j (omega (arith, low, h.least)) (λ e. omega (arith, e, low))
        (λ e. omega (arith, e, low)),
    field,
  )

  -- Past the options' start and before the transport's checksum, outside the address.
  pub byte_at-after_other :
      (j : ℕ)
      → 12 ≤ j
      → j < ihl + 4
      → (j < field_offset) ⊎ (field_offset + 4 ≤ j)
      → byte_at after j ≡ byte_at p j
  byte_at-after_other j low high outside = ground (
    arith,
    byte_at-write_octets summed field_offset j address room,
    byte_at-write_checksum headed protocol offset adjusted j (λ e. omega (arith, e, high, beyond))
        (λ e. omega (arith, e, high, beyond)),
    byte_at-write_u16_other p 10 header_checksum j (λ e. omega (arith, e, low))
        (λ e. omega (arith, e, low)),
    outside,
  )

  length-after : length after ≡ length p
  length-after = length-write_octets summed field_offset address ∙ length-summed

  pub Header-after : Header after protocol ihl
  Header-after = record {
    first = h.first;
    starts = byte_at-after 0 (omega arith) ∙ h.starts;
    version = h.version;
    size = h.size;
    least = h.least;
    unfragmented =
        unfragmented_same p after (byte_at-after 6 (omega arith)) (byte_at-after 7 (omega arith))
        ∙ h.unfragmented;
    names = byte_at-after 9 (omega arith) ∙ h.names;
    known = h.known;
    holds = rw length-after h.holds;
  }

  parsed : address_at after field_offset ≡ some address
  parsed = address_at-write_octets summed field_offset address room

-- What a rewriting of an address comes to: a refusal that leaves the packet, or a packet of the same
-- length that is still read as TCP or UDP, with the same header, and has the new address.
abbrev pub IsAddressRewritten : Packet → ℕ → Ipv4Addr → Packet × Bool → Type 0
IsAddressRewritten p field_offset address result =
    ((result.1 ≡ false) × (result.0 ≡ p) × (ipv4_tcp_or_udp p ≡ none))
    ⊎ ((result.1 ≡ true)
        × (length result.0 ≡ length p)
        × (ipv4_tcp_or_udp result.0 ≡ ipv4_tcp_or_udp p)
        × (address_at result.0 field_offset ≡ some address))

pub rewrite_ipv4_address-IsAddressRewritten :
    (p : Packet) (field_offset : ℕ) (address : Ipv4Addr)
    → IsAddressField field_offset
    → IsAddressRewritten p field_offset address (rewrite_ipv4_address p field_offset address)
unfolding rewrite_ipv4_address write_ipv4_address
rewrite_ipv4_address-IsAddressRewritten p field_offset address field =
    elim (Option-cases (ipv4_tcp_or_udp p)) [
      | inl e ↦ rw (e, rewrite_ipv4_address) (inl (refl, refl, refl))
      | inr ((protocol, ihl), e) ↦
          let h = ipv4_tcp_or_udp-Header p protocol ihl e in
          rw (e, rewrite_ipv4_address)
            (inr (
              refl,
              length-after p protocol ihl h field_offset address field,
              Header-ipv4_tcp_or_udp _ protocol ihl
                  (Header-after p protocol ihl h field_offset address field),
              parsed p protocol ihl h field_offset address field,
            ))
    ]
