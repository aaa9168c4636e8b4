-- ===== src/Tunnel.antt =====
-- src/tunnel.rs: how a packet's ports and addresses are read and rewritten. A packet is the list of
-- its bytes. A read or a write past its end, where the source panics, has the value 0 or no effect;
-- every caller tests the length first.
pub mod Checksum
pub mod Bytes
pub mod Ports
pub mod Sums
pub mod Addresses
pub mod Words
pub mod Headers
pub mod Kept
use secure_connect_connector.FlowTable.Types.{Transport, from_ip_protocol}
use secure_connect_connector.Net.{Ipv4Addr}
use secure_connect_connector.Base.{
  Bool, List, Option, [], false, if◌then◌else◌, leb, length, ltb, nat_key, none, not, option_map,
  some, suc, true, unwrap_or, zero, ℕ, ◌%◌, ◌&&◌, ◌*◌, ◌+◌, ◌-◌, ◌/◌, ◌==◌, ◌>>=◌, ◌^◌, ◌||◌, ◌∷◌,
}

abbrev pub Packet : Type 0
Packet = List ℕ

-- `packet.get(offset)`
unfoldable pub byte_at : Packet → ℕ → Option ℕ
byte_at [] offset = none
byte_at (b ∷ packet) zero = some b
byte_at (b ∷ packet) (suc offset) = byte_at packet offset

unfoldable pub set_byte : Packet → ℕ → ℕ → Packet
set_byte [] offset value = []
set_byte (b ∷ packet) zero value = value ∷ packet
set_byte (b ∷ packet) (suc offset) value = b ∷ set_byte packet offset value

abbrev pub byte_or_zero : Packet → ℕ → ℕ
byte_or_zero packet offset = unwrap_or (byte_at packet offset) 0

-- `u16::from_be_bytes`
abbrev pub from_be_bytes : ℕ → ℕ → ℕ
from_be_bytes high low = high * 256 + low

unfoldable pub read_u16 : Packet → ℕ → ℕ
unfolding byte_at
read_u16 packet offset =
    from_be_bytes (byte_or_zero packet offset) (byte_or_zero packet (offset + 1))

unfoldable pub write_u16 : Packet → ℕ → ℕ → Packet
unfolding set_byte
write_u16 packet offset value =
    set_byte (set_byte packet offset (value / 256)) (offset + 1) (value % 256)

-- The `match` of `is_non_first_ipv4_fragment`.
unfoldable pub is_later : Option ℕ → Option ℕ → Bool
is_later (some byte6) (some byte7) = not (byte6 % 32 * 256 + byte7 == 0)
is_later _ _ = true

unfoldable pub is_non_first_ipv4_fragment : Packet → Bool
unfolding byte_at is_later
is_non_first_ipv4_fragment packet = is_later (byte_at packet 6) (byte_at packet 7)

-- The loop of `checksum_adjust`, for at most `fuel` carries.
unfoldable pub fold_carries : ℕ → ℕ → ℕ
fold_carries zero sum = sum
fold_carries (suc fuel) sum =
    let folded = fold_carries fuel (sum % 2 ^ 16 + sum / 2 ^ 16) in
    if sum / 2 ^ 16 == 0 then sum else folded

-- `checksum_adjust`, where two carries are enough.
unfoldable pub checksum_adjust : ℕ → ℕ → ℕ → ℕ
unfolding fold_carries
checksum_adjust old_checksum old_word new_word =
    65535 - fold_carries 2 (65535 - old_checksum + (65535 - old_word) + new_word) % 2 ^ 16

-- The offset of the checksum in a header that starts at `ihl`.
abbrev pub checksum_offset : ℕ → ℕ → ℕ
checksum_offset protocol ihl = if protocol == 6 then ihl + 16 else ihl + 6

-- The end of `ipv4_tcp_or_udp`, of the protocol.
unfoldable pub tcp_or_udp : Packet → ℕ → Option ℕ → Option (ℕ × ℕ)
tcp_or_udp packet ihl none = none
tcp_or_udp packet ihl (some protocol) =
    if (protocol == 6 || protocol == 17) && leb (checksum_offset protocol ihl + 2) (length packet)
    then some (protocol, ihl)
    else none

unfoldable pub ipv4_tcp_or_udp : Packet → Option (ℕ × ℕ)
unfolding byte_at is_non_first_ipv4_fragment tcp_or_udp
ipv4_tcp_or_udp packet = elim (byte_at packet 0) [
  | none ↦ none
  | some first_byte ↦
      let ihl = first_byte % 16 * 4 in
      if not (first_byte / 16 == 4)
        || ltb ihl 20
        || ltb (length packet) ihl
        || is_non_first_ipv4_fragment packet
      then none
      else tcp_or_udp packet ihl (byte_at packet 9)
]

-- `parse_ipv4_transport`
unfoldable pub parse_ipv4_transport : Packet → Option Transport
unfolding ipv4_tcp_or_udp from_ip_protocol
parse_ipv4_transport packet = do (protocol, _) ← ipv4_tcp_or_udp packet; from_ip_protocol protocol

-- Four bytes as an address.
unfoldable pub address_at : Packet → ℕ → Option Ipv4Addr
unfolding byte_at
address_at packet offset = do
  a ← byte_at packet offset
  b ← byte_at packet (offset + 1)
  c ← byte_at packet (offset + 2)
  d ← byte_at packet (offset + 3)
  some (record { a = a; b = b; c = c; d = d })

-- `parse_destination_ipv4`
unfoldable pub parse_destination_ipv4 : Packet → Option Ipv4Addr
unfolding ipv4_tcp_or_udp address_at
parse_destination_ipv4 packet = do _ ← ipv4_tcp_or_udp packet; address_at packet 16

-- `parse_source_ipv4`
unfoldable pub parse_source_ipv4 : Packet → Option Ipv4Addr
unfolding ipv4_tcp_or_udp address_at
parse_source_ipv4 packet = do _ ← ipv4_tcp_or_udp packet; address_at packet 12

-- `parse_l4_port`: the protocol's byte and the offset of the ports.
unfoldable pub l4_header : Packet → Option (ℕ × ℕ)
unfolding byte_at is_non_first_ipv4_fragment
l4_header packet = elim (byte_at packet 0) [
  | none ↦ none
  | some first_byte ↦
      let ihl = first_byte % 16 * 4 in
      if first_byte / 16 == 4
      then if ltb ihl 20 || ltb (length packet) (ihl + 4) || is_non_first_ipv4_fragment packet
        then none
        else option_map (λ protocol. (protocol, ihl)) (byte_at packet 9)
      else if first_byte / 16 == 6
      then if ltb (length packet) 44
        then none
        else option_map (λ protocol. (protocol, 40)) (byte_at packet 6)
      else none
]

-- `packet.get(offset..offset + 2)`, read as a big-endian number.
unfoldable pub u16_at : Packet → ℕ → Option ℕ
unfolding byte_at
u16_at packet offset = do
  high ← byte_at packet offset
  low ← byte_at packet (offset + 1)
  some (from_be_bytes high low)

-- The end of `parse_l4_port`.
unfoldable pub port_at : Packet → ℕ → Option (ℕ × ℕ) → Option ℕ
unfolding u16_at
port_at packet field_offset none = none
port_at packet field_offset (some (protocol, l4_offset)) =
    if protocol == 6 || protocol == 17 then u16_at packet (l4_offset + field_offset) else none

unfoldable pub parse_l4_port : Packet → ℕ → Option ℕ
unfolding l4_header port_at
parse_l4_port packet field_offset = port_at packet field_offset (l4_header packet)

abbrev pub parse_source_port : Packet → Option ℕ
parse_source_port packet = parse_l4_port packet 0

abbrev pub parse_destination_port : Packet → Option ℕ
parse_destination_port packet = parse_l4_port packet 2

-- A UDP checksum of 0 is written as `0xFFFF`.
abbrev pub written_checksum : ℕ → ℕ → ℕ
written_checksum protocol checksum = if protocol == 17 && checksum == 0 then 65535 else checksum

-- The write of an updated checksum, which a UDP packet without one is spared.
unfoldable pub write_checksum : Packet → ℕ → ℕ → ℕ → Packet
unfolding read_u16 write_u16
write_checksum packet protocol offset adjusted =
    if protocol == 6 || not (read_u16 packet offset == 0)
    then write_u16 packet offset (written_checksum protocol adjusted)
    else packet

-- The write of a port and of the checksum that covers it.
unfoldable pub write_l4_port : Packet → ℕ → ℕ → ℕ → ℕ → Packet
unfolding write_checksum checksum_adjust
write_l4_port packet protocol ihl field_offset new_port =
    let offset = checksum_offset protocol ihl in
    let adjusted =
      checksum_adjust (read_u16 packet offset) (read_u16 packet (ihl + field_offset)) new_port in
    write_u16 (write_checksum packet protocol offset adjusted) (ihl + field_offset) new_port

-- `rewrite_l4_port`: the packet after it, and whether it was rewritten.
unfoldable pub rewrite_l4_port : Packet → ℕ → ℕ → Packet × Bool
unfolding ipv4_tcp_or_udp write_l4_port
rewrite_l4_port packet field_offset new_port = elim (ipv4_tcp_or_udp packet) [
  | none ↦ (packet, false)
  | some (protocol, ihl) ↦ (write_l4_port packet protocol ihl field_offset new_port, true)
]

abbrev pub rewrite_source_port : Packet → ℕ → Packet × Bool
rewrite_source_port packet new_port = rewrite_l4_port packet 0 new_port

abbrev pub rewrite_destination_port : Packet → ℕ → Packet × Bool
rewrite_destination_port packet new_port = rewrite_l4_port packet 2 new_port
