-- ===== src/FlowTable/SourcePorts.antt =====
-- src/flow_table.rs: the search for a free source port toward one internal address and port.
pub mod Search
use secure_connect_connector.Base.{
  Bool, Option, if◌then◌else◌, leb, nat_key, none, some, suc, zero, ℕ, ◌%◌, ◌&&◌, ◌+◌, ◌-◌, ◌==◌,
  ◌^◌,
}
use secure_connect_connector.HashMap.{HashMap, contains_key, get, insert}
use secure_connect_connector.Net.{Ipv4Addr}
use secure_connect_connector.FlowTable.Types.{
  AllocationKey, CursorKey, FlowKey, Transport, allocation_key, cursor_key,
}

-- `first + ((start - first + offset) % size) as u16`, where `start` is in the range.
unfoldable pub candidate_port : ℕ → ℕ → ℕ → ℕ → ℕ
candidate_port first size start offset = first + (start - first + offset) % size % 2 ^ 16

-- The loop over the offsets, with the number of offsets that are left.
unfoldable pub search_ports : (ℕ → Bool) → (ℕ → ℕ) → ℕ → ℕ → Option ℕ
search_ports taken candidate zero offset = none
search_ports taken candidate (suc left) offset =
    let further = search_ports taken candidate left (offset + 1) in
    if taken (candidate offset) then further else some (candidate offset)

-- Where the search starts: after the last port handed out there, if that is in the range.
unfoldable pub start_port : Option ℕ → ℕ → ℕ → ℕ
start_port none first last = first
start_port (some port) first last = if leb first port && leb port last then port else first

unfoldable pub allocate_source_port :
    HashMap AllocationKey FlowKey
    → HashMap CursorKey ℕ
    → ℕ × ℕ
    → Transport
    → Ipv4Addr × ℕ
    → Option ℕ × HashMap CursorKey ℕ
unfolding candidate_port search_ports start_port
allocate_source_port allocations cursors (first, last) transport (address, port) =
    let size = last - first + 1 in
    let cursor : CursorKey = (transport, address, port) in
    let start = start_port (get cursor cursors) first last in
    let taken =
      λ (p : ℕ). contains_key {K = AllocationKey} (transport, address, port, p) allocations in
    elim (search_ports taken (candidate_port first size start) size 0) [
      | none ↦ (none, cursors)
      | some candidate ↦
          let next = if candidate == last then first else candidate + 1 in
          (some candidate, insert cursor next cursors)
    ]
