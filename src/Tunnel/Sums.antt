-- ===== src/Tunnel/Sums.antt =====
-- The checksum of a packet whose port is rewritten stays right.
use secure_connect_connector.Tunnel.Checksum.{checksum_adjust_sum}
use secure_connect_connector.Tunnel.Bytes.{word_sum, word_sum-write_u16}
use secure_connect_connector.Tunnel.Ports.{
  Header, byte_at-write_checksum, checksum_offset_cases, ipv4_tcp_or_udp-Header,
  length-write_checksum,
}
use secure_connect_connector.Tunnel.{
  Packet, byte_at, checksum_adjust, checksum_offset, ipv4_tcp_or_udp, read_u16, rewrite_l4_port,
  write_checksum, write_l4_port, write_u16, written_checksum,
}
use secure_connect_connector.Base.{
  Bool, Option, [], arith, inl, inr, length, ltb, none, refl, some, suc, true, unwrap_or, zero, ℕ,
  ◌%◌, ◌&&◌, ◌*◌, ◌+◌, ◌-◌, ◌<◌, ◌^◌, ◌∷◌, ◌≡◌, ◌≢◌, ◌≤◌, ◌⊎◌,
}

-- Every byte of a packet is one.
abbrev pub AreBytes : Packet → Type 0
AreBytes p = (i b : ℕ) → byte_at p i ≡ some b → b < 256

pub read_u16_lt : (p : Packet) (i : ℕ) → AreBytes p → read_u16 p i < 65536
unfolding read_u16
read_u16_lt p i bytes =
    omega (arith, or_zero (byte_at p i) (bytes i), or_zero (byte_at p (i + 1)) (bytes (i + 1)))
  where
    or_zero : (o : Option ℕ) → ((b : ℕ) → o ≡ some b → b < 256) → unwrap_or o 0 < 256
    or_zero none small = omega arith
    or_zero (some b) small = small b refl

-- The words exchanged in a sum, one of them a checksum that is adjusted for the other.
exchanged :
    (before summed after checksum adjusted written old new : ℕ)
    → summed + checksum ≡ before + written
    → after + old ≡ summed + new
    → adjusted < 65536
    → checksum < 65536
    → (65535 - adjusted + old) % 65535 ≡ (65535 - checksum + new) % 65535
    → written % 65535 ≡ adjusted % 65535
    → after % 65535 ≡ before % 65535
exchanged before summed after checksum adjusted written old new a b c d e f = omega arith

written_checksum_mod :
    (protocol checksum : ℕ) → written_checksum protocol checksum % 65535 ≡ checksum % 65535
written_checksum_mod protocol checksum = ground arith

-- The word at an even offset.
word_at :
    (p : Packet) (i k v : ℕ)
    → i ≡ k + k
    → i + 1 < length p
    → word_sum (write_u16 p i v) + read_u16 p i ≡ word_sum p + v
word_at p i k v e h = rw e (word_sum-write_u16 p k v (omega (arith, e, h)))

pub read_u16_same :
    (p q : Packet) (i : ℕ)
    → byte_at q i ≡ byte_at p i
    → byte_at q (i + 1) ≡ byte_at p (i + 1)
    → read_u16 q i ≡ read_u16 p i
unfolding read_u16
read_u16_same p q i high low = rw (high, low) refl

even_offset : (protocol ihl j : ℕ) → ihl ≡ j + j → (k : ℕ) × (checksum_offset protocol ihl ≡ k + k)
even_offset protocol ihl j e = elim (checksum_offset_cases protocol ihl) [
  | inl h ↦ (j + 8, omega (arith, e, h))
  | inr h ↦ (j + 3, omega (arith, e, h))
]

even_field :
    (field_offset ihl j : ℕ)
    → (field_offset ≡ 0) ⊎ (field_offset ≡ 2)
    → ihl ≡ j + j
    → (k : ℕ) × (ihl + field_offset ≡ k + k)
even_field field_offset ihl j (inl h) e = (j, omega (arith, e, h))
even_field field_offset ihl j (inr h) e = (j + 1, omega (arith, e, h))

module _ (p : Packet) (protocol ihl : ℕ) (h : Header p protocol ihl) (field_offset new_port : ℕ)
    (field : (field_offset ≡ 0) ⊎ (field_offset ≡ 2)) where
  abbrev offset : ℕ
  offset = checksum_offset protocol ihl

  abbrev old_port : ℕ
  old_port = read_u16 p (ihl + field_offset)

  abbrev adjusted : ℕ
  adjusted = checksum_adjust (read_u16 p offset) old_port new_port

  abbrev summed : Packet
  summed = write_checksum p protocol offset adjusted

  fits : ihl + field_offset + 2 ≤ offset
  fits = ground (arith, checksum_offset_cases protocol ihl, field)

  summed-sum :
      (protocol ≡ 6) ⊎ (read_u16 p offset ≢ 0)
      → word_sum summed + read_u16 p offset ≡ word_sum p + written_checksum protocol adjusted
  unfolding write_checksum
  summed-sum checked =
      let (k, even) = even_offset protocol ihl (h.first % 16 * 2) (omega (arith, h.size)) in
      let write =
        word_at p offset k (written_checksum protocol adjusted) even (omega (arith, h.holds)) in
      ground (arith, checked, write)

  after-sum :
      word_sum (write_l4_port p protocol ihl field_offset new_port) + old_port
      ≡ word_sum summed + new_port
  unfolding write_l4_port
  after-sum =
      let (k, even) =
        even_field field_offset ihl (h.first % 16 * 2) field (omega (arith, h.size)) in
      let write =
        word_at summed (ihl + field_offset) k new_port even
          (omega (arith, length-write_checksum p protocol offset adjusted, fits, h.holds)) in
      let same =
        read_u16_same p summed (ihl + field_offset)
          (byte_at-write_checksum p protocol offset adjusted (ihl + field_offset)
            (λ e. omega (arith, e, fits)) (λ e. omega (arith, e, fits)))
          (byte_at-write_checksum p protocol offset adjusted (ihl + field_offset + 1)
            (λ e. omega (arith, e, fits)) (λ e. omega (arith, e, fits))) in
      omega (arith, write, same)

-- When the source or the destination port of a packet of bytes is rewritten, and it is TCP or UDP
-- with a checksum, the sum of the packet's words stays the same modulo 65535.
pub rewrite_l4_port_sum :
    (p : Packet) (protocol ihl field_offset new_port : ℕ)
    → (field_offset ≡ 0) ⊎ (field_offset ≡ 2)
    → AreBytes p
    → new_port < 2 ^ 16
    → ipv4_tcp_or_udp p ≡ some (protocol, ihl)
    → (protocol ≡ 6) ⊎ (read_u16 p (checksum_offset protocol ihl) ≢ 0)
    → word_sum (rewrite_l4_port p field_offset new_port).0 % 65535 ≡ word_sum p % 65535
unfolding rewrite_l4_port
rewrite_l4_port_sum p protocol ihl field_offset new_port field bytes small e checked =
    let h = ipv4_tcp_or_udp-Header p protocol ihl e in
    let at = checksum_offset protocol ihl in
    let old = read_u16 p (ihl + field_offset) in
    let (fit, same) =
      checksum_adjust_sum (read_u16 p at) old new_port (read_u16_lt p at bytes)
        (read_u16_lt p (ihl + field_offset) bytes) small in
    let adjust = checksum_adjust (read_u16 p at) old new_port in
    rw (e, rewrite_l4_port)
      (exchanged (word_sum p) (word_sum (write_checksum p protocol at adjust))
        (word_sum (write_l4_port p protocol ihl field_offset new_port)) (read_u16 p at) adjust
        (written_checksum protocol adjust) old new_port
        (summed-sum p protocol ihl h field_offset new_port field checked)
        (after-sum p protocol ihl h field_offset new_port field) fit (read_u16_lt p at bytes) same
        (written_checksum_mod protocol adjust))

-- The test of all bytes.
unfoldable pub all_bytes : Packet → Bool
all_bytes [] = true
all_bytes (b ∷ p) = ltb b 256 && all_bytes p

pub all_bytes-AreBytes : (p : Packet) → all_bytes p ≡ true → AreBytes p
unfolding all_bytes byte_at
all_bytes-AreBytes [] e i b f = absurd (ground arith)
all_bytes-AreBytes (c ∷ p) e zero b f = ground arith
all_bytes-AreBytes (c ∷ p) e (suc i) b f = all_bytes-AreBytes p (ground arith) i b f
