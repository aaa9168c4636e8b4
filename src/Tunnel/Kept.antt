-- ===== src/Tunnel/Kept.antt =====
-- src/tunnel.rs: what the rewriting of one field of a packet leaves of its other fields.
use secure_connect_connector.Tunnel.{Packet, address_at, byte_at, parse_l4_port, write_l4_port}
use secure_connect_connector.Tunnel.Ports.{
  Header, byte_at-after_low, parse_l4_port-Header, u16_at-same,
}
use secure_connect_connector.Tunnel.Addresses.{
  Header-after as address-Header-after, IsAddressField, byte_at-after_other, write_ipv4_address,
}
use secure_connect_connector.Net.{Ipv4Addr}
use secure_connect_connector.Base.{inl, inr, ap, arith, refl, sym, ℕ, ◌+◌, ◌<◌, ◌∙◌, ◌≡◌, ◌⊎◌}

address_at-same :
    (p q : Packet) (i : ℕ)
    → ((d : ℕ) → d < 4 → byte_at q (i + d) ≡ byte_at p (i + d))
    → address_at q i ≡ address_at p i
unfolding address_at
address_at-same p q i same =
    let first : byte_at q i ≡ byte_at p i =
      ap (byte_at q) (omega arith) ∙ same 0 (omega arith) ∙ ap (byte_at p) (omega arith) in
    rw (first, same 1 (omega arith), same 2 (omega arith), same 3 (omega arith)) refl

parse_l4_port-same :
    (p q : Packet) (protocol ihl f : ℕ)
    → Header p protocol ihl
    → Header q protocol ihl
    → ((d : ℕ) → d < 2 → byte_at q (ihl + f + d) ≡ byte_at p (ihl + f + d))
    → parse_l4_port q f ≡ parse_l4_port p f
parse_l4_port-same p q protocol ihl f h k same =
    parse_l4_port-Header q protocol ihl f k
    ∙ u16_at-same p q (ihl + f)
        (ap (byte_at q) (omega arith) ∙ same 0 (omega arith) ∙ ap (byte_at p) (omega arith))
        (same 1 (omega arith))
    ∙ sym (parse_l4_port-Header p protocol ihl f h)

module _ (p : Packet) (protocol ihl : ℕ) (h : Header p protocol ihl) where
  -- A rewritten port leaves the addresses.
  pub address_at-write_l4_port :
      (field_offset port i : ℕ)
      → (field_offset ≡ 0) ⊎ (field_offset ≡ 2)
      → i + 3 < 20
      → address_at (write_l4_port p protocol ihl field_offset port) i ≡ address_at p i
  unfolding write_l4_port
  address_at-write_l4_port field_offset port i field low = address_at-same p _ i (λ d small.
      byte_at-after_low p protocol ihl h field_offset port field (i + d)
        (omega (arith, low, small, h.least)))

  -- A rewritten address leaves the ports, and the other address.
  pub parse_l4_port-write_ipv4_address :
      (field_offset : ℕ) (address : Ipv4Addr) (f : ℕ)
      → IsAddressField field_offset
      → (f ≡ 0) ⊎ (f ≡ 2)
      → parse_l4_port (write_ipv4_address p protocol ihl field_offset address) f ≡ parse_l4_port p f
  unfolding write_ipv4_address
  parse_l4_port-write_ipv4_address field_offset address f field port =
      parse_l4_port-same p _ protocol ihl f h
        (address-Header-after p protocol ihl h field_offset address field)
        (λ d small.
          byte_at-after_other p protocol ihl h field_offset address field (ihl + f + d)
            (omega (arith, h.least)) (ground (arith, port, small))
            (inr (ground (arith, field, h.least))))

  pub address_at-write_ipv4_address :
      (address : Ipv4Addr)
      → address_at (write_ipv4_address p protocol ihl 16 address) 12 ≡ address_at p 12
  unfolding write_ipv4_address
  address_at-write_ipv4_address address = address_at-same p _ 12 (λ d small.
      byte_at-after_other p protocol ihl h 16 address (inl refl) (12 + d) (omega arith)
        (omega (arith, small, h.least)) (inl (omega (arith, small))))
