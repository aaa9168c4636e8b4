-- ===== src/FlowTable/Pending.antt =====
-- src/flow_table.rs: the packets that wait for their flow's admission.
pub mod Reclaims
use secure_connect_connector.Base.{
  Bool, List, Option, String, [], if◌then◌else◌, leb, length, nat_key, none, not, some, string_key,
  ℕ, ◌&&◌, ◌==◌, ◌∷◌,
}
use secure_connect_connector.HashMap.{HashMap, contains_key, get, insert, remove, retain}
use secure_connect_connector.Net.{duration_since}
use secure_connect_connector.FlowTable.Types.{
  Dialled, FlowKey, FlowTable, flow_key, max_pending_packets, pending_packet_ttl,
}

unfoldable pub is_fresh : ℕ → List ℕ × ℕ → Bool
is_fresh now (packet, buffered_at) = leb (duration_since now buffered_at) pending_packet_ttl

unfoldable pub buffer_pending : FlowTable → String → ℕ → Option Dialled → List ℕ → ℕ → FlowTable
unfolding is_fresh
buffer_pending table node_id port dialled packet now =
    let fresh = retain (λ _ held. is_fresh now held) table.pending_packets in
    let key : FlowKey = record { node_id = node_id; port = port; dialled = dialled } in
    if leb max_pending_packets (length fresh) && not (contains_key key fresh)
    then record table { pending_packets = fresh }
    else record table { pending_packets = insert key (packet, now) fresh }

-- `keys().find(..)`
unfoldable pub find_key : String → ℕ → HashMap FlowKey (List ℕ × ℕ) → Option FlowKey
find_key node_id port [] = none
find_key node_id port ((key, _) ∷ held) =
    if key.node_id == node_id && key.port == port then some key else find_key node_id port held

-- The key that an admission reclaims by.
unfoldable pub pending_key :
    HashMap FlowKey (List ℕ × ℕ) → String → ℕ → Option Dialled → Option FlowKey
unfolding find_key
pending_key held node_id port (some dialled) =
    some (record { node_id = node_id; port = port; dialled = some dialled })
pending_key held node_id port none =
    let exact : FlowKey = record { node_id = node_id; port = port; dialled = none } in
    if contains_key exact held then some exact else find_key node_id port held

unfoldable pub take_pending :
    FlowTable → String → ℕ → Option Dialled → ℕ → FlowTable × Option (List ℕ)
unfolding pending_key is_fresh
take_pending table node_id port dialled now =
    elim (pending_key table.pending_packets node_id port dialled) [
      | none ↦ (table, none)
      | some key ↦ elim (get key table.pending_packets) [
        | none ↦ (table, none)
        | some held ↦ (
          record table { pending_packets = remove key table.pending_packets },
          if is_fresh now held then some held.0 else none,
        )
      ]
    ]
