-- ===== src/FlowTable/SourcePorts/Search.antt =====
-- The search hands out a free port of the range, and fails only where every port is taken.
use secure_connect_connector.Net.{Ipv4Addr}
use secure_connect_connector.HashMap.{HashMap, contains_key, get}
use secure_connect_connector.Base.{
  Bool, Bool-cases, Option, arith, false, if◌then◌else◌, inl, inr, leb, leb→le, nat_key, none, some,
  suc, true, zero, ℕ, ℕ_discrete, ◌%◌, ◌+◌, ◌-◌, ◌<◌, ◌^◌, ◌≡◌, ◌≤◌,
}
use secure_connect_connector.FlowTable.Types.{
  AllocationKey, CursorKey, FlowKey, Transport, allocation_key, cursor_key,
}
use secure_connect_connector.FlowTable.SourcePorts.{
  allocate_source_port, candidate_port, search_ports, start_port,
}

-- What a successful search found.
pub record Found (taken : ℕ → Bool) (candidate : ℕ → ℕ) (left offset p : ℕ) : Type 0 where
  pub at : ℕ
  pub above : offset ≤ at
  pub below : at < offset + left
  pub same : p ≡ candidate at
  pub free : taken p ≡ false

module _ (taken : ℕ → Bool) (candidate : ℕ → ℕ) where
  pub search_ports-Found :
      (left offset p : ℕ)
      → search_ports taken candidate left offset ≡ some p
      → Found taken candidate left offset p
  unfolding search_ports
  search_ports-Found zero offset p e = cc
  search_ports-Found (suc left) offset p e = elim (Bool-cases (taken (candidate offset))) [
    | inl busy ↦
        let rest = search_ports-Found left (offset + 1) p (ground arith) in
        record {
          at = rest.at;
          above = omega (arith, rest.above);
          below = omega (arith, rest.below);
          same = rest.same;
          free = rest.free;
        }
    | inr idle ↦ record {
      at = offset;
      above = omega arith;
      below = omega arith;
      same = ground arith;
      free = ground arith;
    }
  ]

  pub search_ports_exhausted :
      (left offset j : ℕ)
      → search_ports taken candidate left offset ≡ none
      → offset ≤ j
      → j < offset + left
      → taken (candidate j) ≡ true
  unfolding search_ports
  search_ports_exhausted zero offset j e lo hi = absurd (omega arith)
  search_ports_exhausted (suc left) offset j e lo hi = elim (ℕ_discrete offset j) [
    | yes here ↦ ground arith
    | no there ↦ ground (arith, search_ports_exhausted left (offset + 1) j)
  ]

candidate_port_bounds :
    (first last start offset : ℕ)
    → first ≤ last
    → last < 2 ^ 16
    → (first ≤ candidate_port first (last - first + 1) start offset)
      × (candidate_port first (last - first + 1) start offset ≤ last)
unfolding candidate_port
candidate_port_bounds first last start offset h k = grind arith

start_port_bounds :
    (cursor : Option ℕ) (first last : ℕ)
    → first ≤ last
    → (first ≤ start_port cursor first last) × (start_port cursor first last ≤ last)
unfolding start_port
start_port_bounds cursor first last h = ground arith

-- The offset at which the search reaches a port.
offset_of : ℕ → ℕ → ℕ → ℕ
offset_of size start p = if leb start p then p - start else p + size - start

wrapped :
    (size x : ℕ)
    → x < size
    → size ≤ 2 ^ 16
    → (x % size % 2 ^ 16 ≡ x) × ((x + size) % size % 2 ^ 16 ≡ x)
wrapped size x h k = (grind arith, grind arith)

candidate_port-offset_of :
    (first last start p : ℕ)
    → first ≤ start
    → start ≤ last
    → first ≤ p
    → p ≤ last
    → last < 2 ^ 16
    → candidate_port first (last - first + 1) start (offset_of (last - first + 1) start p) ≡ p
unfolding candidate_port offset_of
candidate_port-offset_of first last start p a b c d e = elim (Bool-cases (leb start p)) [
  | inl up ↦
      let same : start - first + (p - start) ≡ p - first = omega (arith, leb→le start p up) in
      rw up (
        rw (same, (wrapped (last - first + 1) (p - first) (omega arith) (omega arith)).0)
          (omega arith))
  | inr down ↦
      let below : p < start = ground arith in
      let same : start - first + (p + (last - first + 1) - start) ≡ p - first + (last - first + 1) =
        omega arith in
      rw down (
        rw (same, (wrapped (last - first + 1) (p - first) (omega arith) (omega arith)).1)
          (omega arith))
]

offset_of_lt :
    (first last start p : ℕ)
    → first ≤ start
    → start ≤ last
    → first ≤ p
    → p ≤ last
    → offset_of (last - first + 1) start p < last - first + 1
unfolding offset_of
offset_of_lt first last start p a b c d = ground arith

module _ (allocations : HashMap AllocationKey FlowKey) (cursors : HashMap CursorKey ℕ)
    (first last : ℕ) (transport : Transport) (target : Ipv4Addr × ℕ) (ordered : first ≤ last)
    (fits : last < 2 ^ 16) where
  abbrev in_use : ℕ → Bool
  in_use p = contains_key {K = AllocationKey} (transport, target.0, target.1, p) allocations

  abbrev start : ℕ
  start = start_port (get {K = CursorKey} (transport, target.0, target.1) cursors) first last

  -- From a range that is in order and within 16 bits, a port that is handed out lies in the range
  -- and is no other flow's toward the target.
  pub allocate_source_port_free :
      (p : ℕ)
      → (allocate_source_port allocations cursors (first, last) transport target).0 ≡ some p
      → (first ≤ p) × (p ≤ last) × (in_use p ≡ false)
  unfolding allocate_source_port
  allocate_source_port_free p e =
      let found =
        search_ports-Found in_use (candidate_port first (last - first + 1) start) (last - first + 1)
          0 p (ground arith) in
      let (low, high) = candidate_port_bounds first last start found.at ordered fits in
      (omega (arith, found.same), omega (arith, found.same), found.free)

  -- From a range that is in order and within 16 bits, the search fails only where every port of
  -- the range is in use toward the target.
  pub allocate_source_port_exhausted :
      (p : ℕ)
      → (allocate_source_port allocations cursors (first, last) transport target).0 ≡ none
      → first ≤ p
      → p ≤ last
      → in_use p ≡ true
  unfolding allocate_source_port
  allocate_source_port_exhausted p e low high =
      let (a, b) =
        start_port_bounds (get {K = CursorKey} (transport, target.0, target.1) cursors) first last
          ordered in
      let size = last - first + 1 in
      rw (candidate_port-offset_of first last start p a b low high fits) at (
        search_ports_exhausted in_use (candidate_port first size start) size 0
          (offset_of size start p) (ground arith) (omega arith)
          (omega (arith, offset_of_lt first last start p a b low high)))

-- Whatever the range, a port that is handed out is in no other flow's use toward the target.
pub allocate_source_port_unused :
    (allocations : HashMap AllocationKey FlowKey) (cursors : HashMap CursorKey ℕ) (range : ℕ × ℕ)
    (transport : Transport) (target : Ipv4Addr × ℕ) (p : ℕ)
    → (allocate_source_port allocations cursors range transport target).0 ≡ some p
    → get {K = AllocationKey} (transport, target.0, target.1, p) allocations ≡ none
unfolding allocate_source_port
allocate_source_port_unused allocations cursors (first, last) transport target p e =
    let found =
      search_ports-Found
        (λ q. contains_key {K = AllocationKey} (transport, target.0, target.1, q) allocations)
        (candidate_port first (last - first + 1)
          (start_port (get {K = CursorKey} (transport, target.0, target.1) cursors) first last))
        (last - first + 1) 0 p (ground arith) in
    ground (arith, found.free)
