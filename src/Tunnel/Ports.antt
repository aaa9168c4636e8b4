-- ===== src/Tunnel/Ports.antt =====
-- A rewritten port is read back, its packet's checksum stays right, and nothing else changes.
use secure_connect_connector.Tunnel.Bytes.{
  byte_at-write_u16, byte_at-write_u16_other, length-write_u16,
}
use secure_connect_connector.Tunnel.{
  Packet, byte_at, checksum_adjust, checksum_offset, ipv4_tcp_or_udp, is_non_first_ipv4_fragment,
  l4_header, parse_l4_port, port_at, read_u16, rewrite_l4_port, tcp_or_udp, u16_at, write_checksum,
  write_l4_port, write_u16, written_checksum,
}
use secure_connect_connector.Base.{
  Bool, Bool-cases, Option, Option-cases, ap, arith, false, inl, inr, length, nat_key, none, refl,
  some, sym, true, ℕ, ◌%◌, ◌*◌, ◌+◌, ◌/◌, ◌<◌, ◌==◌, ◌∙◌, ◌≡◌, ◌≢◌, ◌≤◌, ◌⊎◌,
}

-- A first fragment of an IPv4 packet of TCP or UDP that holds its checksum.
pub record Header (p : Packet) (protocol ihl : ℕ) : Type 0 where
  pub first : ℕ
  pub starts : byte_at p 0 ≡ some first
  pub version : first / 16 ≡ 4
  pub size : ihl ≡ first % 16 * 4
  pub least : 20 ≤ ihl
  pub unfragmented : is_non_first_ipv4_fragment p ≡ false
  pub names : byte_at p 9 ≡ some protocol
  pub known : (protocol ≡ 6) ⊎ (protocol ≡ 17)
  pub holds : checksum_offset protocol ihl + 2 ≤ length p

tcp_or_udp_found :
    (p : Packet) (at : ℕ) (named : Option ℕ) (protocol ihl : ℕ)
    → tcp_or_udp p at named ≡ some (protocol, ihl)
    → (at ≡ ihl)
      × (named ≡ some protocol)
      × ((protocol ≡ 6) ⊎ (protocol ≡ 17))
      × (checksum_offset protocol ihl + 2 ≤ length p)
unfolding tcp_or_udp
tcp_or_udp_found p at none protocol ihl e = absurd (ground arith)
tcp_or_udp_found p at (some found) protocol ihl e = elim (Bool-cases (found == 6)) [
  | inl h ↦ (ground arith, ground arith, inl (ground arith), ground arith)
  | inr h ↦ (ground arith, ground arith, inr (ground arith), ground arith)
]

pub ipv4_tcp_or_udp-Header :
    (p : Packet) (protocol ihl : ℕ)
    → ipv4_tcp_or_udp p ≡ some (protocol, ihl)
    → Header p protocol ihl
unfolding ipv4_tcp_or_udp
ipv4_tcp_or_udp-Header p protocol ihl e = elim (Option-cases (byte_at p 0)) [
  | inl f ↦ absurd (ground arith)
  | inr (first, f) ↦
      let (same, names, known, holds) =
        tcp_or_udp_found p (first % 16 * 4) (byte_at p 9) protocol ihl (ground arith) in
      record {
        first = first;
        starts = f;
        version = ground arith;
        size = ground arith;
        least = ground arith;
        unfragmented = ground arith;
        names = names;
        known = known;
        holds = holds;
      }
]

pub length-write_checksum :
    (p : Packet) (protocol offset adjusted : ℕ)
    → length (write_checksum p protocol offset adjusted) ≡ length p
unfolding write_checksum
length-write_checksum p protocol offset adjusted =
    ground (arith, length-write_u16 p offset (written_checksum protocol adjusted))

pub byte_at-write_checksum :
    (p : Packet) (protocol offset adjusted j : ℕ)
    → offset ≢ j
    → offset + 1 ≢ j
    → byte_at (write_checksum p protocol offset adjusted) j ≡ byte_at p j
unfolding write_checksum
byte_at-write_checksum p protocol offset adjusted j a b =
    ground (arith, byte_at-write_u16_other p offset (written_checksum protocol adjusted) j a b)

pub checksum_offset_cases :
    (protocol ihl : ℕ)
    → (checksum_offset protocol ihl ≡ ihl + 16) ⊎ (checksum_offset protocol ihl ≡ ihl + 6)
checksum_offset_cases protocol ihl = elim (Bool-cases (protocol == 6)) [
  | inl e ↦ inl (ground arith)
  | inr e ↦ inr (ground arith)
]

pub unfragmented_same :
    (p q : Packet)
    → byte_at q 6 ≡ byte_at p 6
    → byte_at q 7 ≡ byte_at p 7
    → is_non_first_ipv4_fragment q ≡ is_non_first_ipv4_fragment p
unfolding is_non_first_ipv4_fragment
unfragmented_same p q six seven = rw (six, seven, is_non_first_ipv4_fragment) refl

l4_header-Header :
    (q : Packet) (protocol ihl : ℕ) → Header q protocol ihl → l4_header q ≡ some (protocol, ihl)
unfolding l4_header
l4_header-Header q protocol ihl h =
    let least : ihl + 4 ≤ length q = ground (arith, checksum_offset_cases protocol ihl, h.holds) in
    ground (arith, h.starts, h.version, h.size, h.least, h.unfragmented, h.names, least)

pub parse_l4_port-Header :
    (q : Packet) (protocol ihl f : ℕ)
    → Header q protocol ihl
    → parse_l4_port q f ≡ u16_at q (ihl + f)
unfolding parse_l4_port port_at
parse_l4_port-Header q protocol ihl f h = ground (arith, l4_header-Header q protocol ihl h, h.known)

pub u16_at-same :
    (p q : Packet) (i : ℕ)
    → byte_at q i ≡ byte_at p i
    → byte_at q (i + 1) ≡ byte_at p (i + 1)
    → u16_at q i ≡ u16_at p i
unfolding u16_at
u16_at-same p q i high low = rw (high, low) refl

u16_at-write_u16 : (p : Packet) (i v : ℕ) → i + 1 < length p → u16_at (write_u16 p i v) i ≡ some v
unfolding u16_at
u16_at-write_u16 p i v h =
    let (high, low) = byte_at-write_u16 p i v h in rw (high, low) (ap some (omega arith))

module _ (p : Packet) (protocol ihl : ℕ) (h : Header p protocol ihl) (field_offset new_port : ℕ)
    (field : (field_offset ≡ 0) ⊎ (field_offset ≡ 2)) where
  abbrev offset : ℕ
  offset = checksum_offset protocol ihl

  abbrev adjusted : ℕ
  adjusted = checksum_adjust (read_u16 p offset) (read_u16 p (ihl + field_offset)) new_port

  abbrev summed : Packet
  summed = write_checksum p protocol offset adjusted

  abbrev after : Packet
  after = write_u16 summed (ihl + field_offset) new_port

  apart : ihl + field_offset + 2 ≤ offset
  apart = ground (arith, checksum_offset_cases protocol ihl, field)

  length-after : length after ≡ length p
  length-after =
      length-write_u16 summed (ihl + field_offset) new_port
      ∙ length-write_checksum p protocol offset adjusted

  -- Whatever stands neither in the port nor in the checksum.
  byte_at-after :
      (j : ℕ)
      → ihl + field_offset ≢ j
      → ihl + field_offset + 1 ≢ j
      → offset ≢ j
      → offset + 1 ≢ j
      → byte_at after j ≡ byte_at p j
  byte_at-after j a b c d =
      byte_at-write_u16_other summed (ihl + field_offset) new_port j a b
      ∙ byte_at-write_checksum p protocol offset adjusted j c d

  -- The bytes before the transport's header.
  pub byte_at-after_low : (j : ℕ) → j < ihl → byte_at after j ≡ byte_at p j
  byte_at-after_low j low =
      byte_at-after j (λ e. omega (arith, e, low)) (λ e. omega (arith, e, low))
        (λ e. omega (arith, e, low, apart)) (λ e. omega (arith, e, low, apart))

  pub Header-after : Header after protocol ihl
  Header-after = record {
    first = h.first;
    starts = byte_at-after_low 0 (omega (arith, h.least)) ∙ h.starts;
    version = h.version;
    size = h.size;
    least = h.least;
    unfragmented =
        unfragmented_same p after (byte_at-after_low 6 (omega (arith, h.least)))
          (byte_at-after_low 7 (omega (arith, h.least)))
        ∙ h.unfragmented;
    names = byte_at-after_low 9 (omega (arith, h.least)) ∙ h.names;
    known = h.known;
    holds = rw length-after h.holds;
  }

  parse-after : parse_l4_port after field_offset ≡ some new_port
  parse-after =
      parse_l4_port-Header after protocol ihl field_offset Header-after
      ∙ u16_at-write_u16 summed (ihl + field_offset) new_port
          (omega (arith, length-write_checksum p protocol offset adjusted, apart, h.holds))

  parse-after_other :
      (other : ℕ)
      → (other ≡ 0) ⊎ (other ≡ 2)
      → other ≢ field_offset
      → parse_l4_port after other ≡ parse_l4_port p other
  parse-after_other other o ne =
      let apart2 : ihl + other + 2 ≤ offset =
        ground (arith, checksum_offset_cases protocol ihl, o) in
      let kept : (d : ℕ) → d < 2 → byte_at after (ihl + other + d) ≡ byte_at p (ihl + other + d) =
        λ d small.
          byte_at-after (ihl + other + d) (λ e. ground (arith, e, o, field, ne))
            (λ e. ground (arith, e, o, field, ne)) (λ e. omega (arith, e, apart2))
            (λ e. omega (arith, e, apart2)) in
      parse_l4_port-Header after protocol ihl other Header-after
      ∙ u16_at-same p after (ihl + other)
          (ap (byte_at after) (omega arith) ∙ kept 0 (omega arith) ∙ ap (byte_at p) (omega arith))
          (ap (byte_at after) (omega arith) ∙ kept 1 (omega arith) ∙ ap (byte_at p) (omega arith))
      ∙ sym (parse_l4_port-Header p protocol ihl other h)

-- What a rewriting of a port comes to: a refusal that leaves the packet, or a packet of the same
-- length whose port is the new one and whose other port is the old one.
abbrev pub IsPortRewritten : Packet → ℕ → ℕ → Packet × Bool → Type 0
IsPortRewritten p field_offset new_port result =
    ((result.1 ≡ false) × (result.0 ≡ p))
    ⊎ ((result.1 ≡ true)
        × (length result.0 ≡ length p)
        × (parse_l4_port result.0 field_offset ≡ some new_port)
        × ((other : ℕ)
            → (other ≡ 0) ⊎ (other ≡ 2)
            → other ≢ field_offset
            → parse_l4_port result.0 other ≡ parse_l4_port p other))

-- Rewriting the source or the destination port of a packet either leaves it untouched and says so, or
-- the packet keeps its length, the rewritten port is read back, and the other port is as it was.
pub rewrite_l4_port-IsPortRewritten :
    (p : Packet) (field_offset new_port : ℕ)
    → (field_offset ≡ 0) ⊎ (field_offset ≡ 2)
    → IsPortRewritten p field_offset new_port (rewrite_l4_port p field_offset new_port)
unfolding rewrite_l4_port write_l4_port
rewrite_l4_port-IsPortRewritten p field_offset new_port field =
    elim (Option-cases (ipv4_tcp_or_udp p)) [
      | inl e ↦ rw (e, rewrite_l4_port) (inl (refl, refl))
      | inr ((protocol, ihl), e) ↦
          let h = ipv4_tcp_or_udp-Header p protocol ihl e in
          rw (e, rewrite_l4_port)
            (inr (
              refl,
              length-after p protocol ihl h field_offset new_port field,
              parse-after p protocol ihl h field_offset new_port field,
              parse-after_other p protocol ihl h field_offset new_port field,
            ))
    ]
