-- ===== src/Tests/Memories.antt =====
-- The theorems on what the table remembers, at concrete inputs.
use secure_connect_connector.FlowTable.Pending.{buffer_pending, take_pending}
use secure_connect_connector.HashMap.{get}
use secure_connect_connector.Tests.Data.{web_key, web_packet}
use secure_connect_connector.Base.{
  [], arith, if◌then◌else◌, leb, nat_key, none, some, string_key, ◌-◌, ◌∷◌, ◌≡◌,
}
use secure_connect_connector.FlowTable.Types.{flow_key, new as empty_table, pending_packet_ttl}
use secure_connect_connector.FlowTable.Pending.Reclaims.{take_pending-buffer_pending}

take_pending-buffer_pending_example :
    ((take_pending
        (buffer_pending empty_table "n1" 40000 (some web_packet) (69 ∷ []) 5)
        "n1"
        40000
        (some web_packet)
        6).1
      ≡ (if leb (6 - 5) pending_packet_ttl then some (69 ∷ []) else none))
    × (get web_key
          (take_pending
            (buffer_pending empty_table "n1" 40000 (some web_packet) (69 ∷ []) 5)
            "n1"
            40000
            (some web_packet)
            6).0.pending_packets
        ≡ none)
unfolding empty_table
take_pending-buffer_pending_example =
    take_pending-buffer_pending empty_table "n1" 40000 (some web_packet) (69 ∷ []) 5 6 (omega arith)
