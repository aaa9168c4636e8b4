-- ===== src/Tunnel/Headers.antt =====
-- The checksum of an IPv4 header whose address is rewritten stays right.
use secure_connect_connector.Tunnel.Words.{
  IsAddress, words, words-write_u16, words-write_u16_beyond, words_at, write_octets_words,
}
use secure_connect_connector.Tunnel.Checksum.{checksum_adjust_sum}
use secure_connect_connector.Tunnel.Bytes.{byte_at-write_u16_other, length-write_u16}
use secure_connect_connector.Tunnel.Sums.{AreBytes, read_u16_lt, read_u16_same}
use secure_connect_connector.Tunnel.Addresses.{
  IsAddressField, adjust_for_address, rewrite_ipv4_address, write_ipv4_address,
}
use secure_connect_connector.Tunnel.Ports.{
  Header, byte_at-write_checksum, checksum_offset_cases, ipv4_tcp_or_udp-Header,
  length-write_checksum,
}
use secure_connect_connector.Net.{Ipv4Addr}
use secure_connect_connector.Tunnel.{
  Packet, byte_at, checksum_adjust, checksum_offset, from_be_bytes, ipv4_tcp_or_udp, read_u16,
  write_checksum, write_u16, written_checksum,
}
use secure_connect_connector.Base.{
  arith, inl, inr, length, some, ℕ, ◌%◌, ◌*◌, ◌+◌, ◌-◌, ◌/◌, ◌<◌, ◌∙◌, ◌≡◌, ◌≤◌,
}

exchanged_twice :
    (before headed high after checksum mid adjusted old_high old_low new_high new_low : ℕ)
    → headed + checksum ≡ before + adjusted
    → high + old_high ≡ headed + new_high
    → after + old_low ≡ high + new_low
    → checksum < 65536
    → mid < 65536
    → adjusted < 65536
    → (65535 - mid + old_high) % 65535 ≡ (65535 - checksum + new_high) % 65535
    → (65535 - adjusted + old_low) % 65535 ≡ (65535 - mid + new_low) % 65535
    → after % 65535 ≡ before % 65535
exchanged_twice before headed high after checksum mid adjusted old_high old_low new_high new_low a b
      c d e f g h =
    omega arith

module _ (p : Packet) (protocol ihl : ℕ) (h : Header p protocol ihl) (field_offset : ℕ)
    (address : Ipv4Addr) (field : IsAddressField field_offset) (real : IsAddress address)
    (bytes : AreBytes p) where
  abbrev count : ℕ
  count = h.first % 16 * 2

  abbrev offset : ℕ
  offset = checksum_offset protocol ihl

  abbrev headed : Packet
  headed = write_u16 p 10 (adjust_for_address p field_offset address (read_u16 p 10))

  abbrev summed : Packet
  summed =
      write_checksum headed protocol offset
        (adjust_for_address p field_offset address (read_u16 headed offset))

  abbrev high : Packet
  high = write_u16 summed field_offset (from_be_bytes address.a address.b)

  low_field : field_offset + 4 ≤ 20
  low_field = ground (arith, field)

  least : 10 ≤ count
  least = omega (arith, h.size, h.least)

  long : 20 < length p
  long = ground (arith, checksum_offset_cases protocol ihl, h.holds, h.least)

  beyond : count + count ≤ offset
  beyond = ground (arith, checksum_offset_cases protocol ihl, h.size)

  length-summed : length summed ≡ length p
  length-summed = length-write_checksum headed protocol offset _ ∙ length-write_u16 p 10 _

  words-headed :
      words count headed + read_u16 p 10
      ≡ words count p + adjust_for_address p field_offset address (read_u16 p 10)
  words-headed = words-write_u16 count p 5 _ (omega (arith, least)) (omega (arith, long))

  words-summed : words count summed ≡ words count headed
  unfolding write_checksum
  words-summed = ground (
    arith,
    words-write_u16_beyond count headed offset
        (written_checksum protocol
          (adjust_for_address p field_offset address (read_u16 headed offset)))
        beyond,
  )

  byte_at-summed : (j : ℕ) → 12 ≤ j → j < 20 → byte_at summed j ≡ byte_at p j
  byte_at-summed j a b =
      byte_at-write_checksum headed protocol offset _ j (λ e. omega (arith, e, b, beyond, least))
        (λ e. omega (arith, e, b, beyond, least))
      ∙ byte_at-write_u16_other p 10 _ j (λ e. omega (arith, e, a)) (λ e. omega (arith, e, a))

  read-summed : (i : ℕ) → 12 ≤ i → i + 1 < 20 → read_u16 summed i ≡ read_u16 p i
  read-summed i a b =
      read_u16_same p summed i (byte_at-summed i a (omega (arith, b)))
        (byte_at-summed (i + 1) (omega (arith, a)) b)

  words-high :
      (k : ℕ)
      → field_offset ≡ k + k
      → words count high + read_u16 p field_offset
        ≡ words count summed + from_be_bytes address.a address.b
  words-high k even =
      let step =
        words_at count summed field_offset k (from_be_bytes address.a address.b) even
          (omega (arith, even, low_field, least)) (omega (arith, low_field, long, length-summed)) in
      let same = read-summed field_offset (ground (arith, field)) (omega (arith, low_field)) in
      omega (arith, step, same)

  read-high : read_u16 high (field_offset + 2) ≡ read_u16 p (field_offset + 2)
  read-high =
      read_u16_same summed high (field_offset + 2)
        (byte_at-write_u16_other summed field_offset _ (field_offset + 2) (λ e. omega (arith, e))
          (λ e. omega (arith, e)))
        (byte_at-write_u16_other summed field_offset _ (field_offset + 2 + 1)
          (λ e. omega (arith, e)) (λ e. omega (arith, e)))
      ∙ read-summed (field_offset + 2) (ground (arith, field)) (omega (arith, low_field))

  words-after :
      (k : ℕ)
      → field_offset + 2 ≡ k + k
      → words count (write_u16 high (field_offset + 2) (from_be_bytes address.c address.d))
          + read_u16 p (field_offset + 2)
        ≡ words count high + from_be_bytes address.c address.d
  words-after k even =
      let step =
        words_at count high (field_offset + 2) k (from_be_bytes address.c address.d) even
          (omega (arith, even, low_field, least))
          (omega (
            arith,
            low_field,
            long,
            length-summed,
            length-write_u16 summed field_offset (from_be_bytes address.a address.b),
          )) in
      omega (arith, step, read-high)

  even_field : (k : ℕ) × (field_offset ≡ k + k)
  even_field = elim field [ inl e ↦ (8, e) | inr e ↦ (6, e) ]

  words-rewritten :
      words count (write_ipv4_address p protocol ihl field_offset address) % 65535
      ≡ words count p % 65535
  unfolding write_ipv4_address adjust_for_address
  words-rewritten =
      let (k, even) = even_field in
      let new_high = from_be_bytes address.a address.b in
      let new_low = from_be_bytes address.c address.d in
      let mid = checksum_adjust (read_u16 p 10) (read_u16 p field_offset) new_high in
      let (small, first) =
        checksum_adjust_sum (read_u16 p 10) (read_u16 p field_offset) new_high
          (read_u16_lt p 10 bytes) (read_u16_lt p field_offset bytes) (omega (arith, real)) in
      let (fits, second) =
        checksum_adjust_sum mid (read_u16 p (field_offset + 2)) new_low small
          (read_u16_lt p (field_offset + 2) bytes) (omega (arith, real)) in
      rw (write_octets_words summed field_offset address real) (
        exchanged_twice (words count p) (words count headed) (words count high) _ (read_u16 p 10)
          mid _ (read_u16 p field_offset) (read_u16 p (field_offset + 2)) new_high new_low
          words-headed (omega (arith, words-high k even, words-summed))
          (words-after (k + 1) (omega (arith, even))) (read_u16_lt p 10 bytes) small fits first
          second)

-- When the source or the destination address of a packet of bytes is rewritten, and it is one that
-- the rewriting does not refuse, the sum of its IPv4 header's words stays the same modulo 65535.
pub rewrite_ipv4_address_sum :
    (p : Packet) (protocol ihl field_offset : ℕ) (address : Ipv4Addr)
    → IsAddressField field_offset
    → IsAddress address
    → AreBytes p
    → ipv4_tcp_or_udp p ≡ some (protocol, ihl)
    → words (ihl / 2) (rewrite_ipv4_address p field_offset address).0 % 65535
      ≡ words (ihl / 2) p % 65535
unfolding rewrite_ipv4_address
rewrite_ipv4_address_sum p protocol ihl field_offset address field real bytes e =
    let h = ipv4_tcp_or_udp-Header p protocol ihl e in
    let half : ihl / 2 ≡ h.first % 16 * 2 = omega (arith, h.size) in
    rw (half, e, rewrite_ipv4_address)
      (words-rewritten p protocol ihl h field_offset address field real bytes)
