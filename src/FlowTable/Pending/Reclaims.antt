-- ===== src/FlowTable/Pending/Reclaims.antt =====
-- A held packet is handed back once, in time, and only to its own flow's admission.
use secure_connect_connector.HashMap.Laws.{
  IsUnique, get-insert, get-remove, insert-IsUnique, remove-IsUnique, retain-IsUnique,
}
use secure_connect_connector.HashMap.{HashMap, contains_key, get, insert, remove, retain}
use secure_connect_connector.Base.{
  Bool-cases, List, Option, Option-cases, String, [], arith, false, if◌then◌else◌, inl, inr, leb,
  length, none, refl, some, ℕ, ◌-◌, ◌<◌, ◌∷◌, ◌≡◌, ◌≤◌,
}
use secure_connect_connector.HashMap.Sizes.{
  length-insert-le, length-insert_present, length-remove-le, length-retain-le,
}
use secure_connect_connector.FlowTable.Types.{
  Dialled, FlowKey, FlowTable, flow_key, max_pending_packets, pending_packet_ttl,
}
use secure_connect_connector.FlowTable.Pending.{
  buffer_pending, find_key, is_fresh, pending_key, take_pending,
}

pub record IsHeld (held : HashMap FlowKey (List ℕ × ℕ)) : Type 0 where
  pub unique : IsUnique held
  pub capped : length held ≤ max_pending_packets

-- However many packets are held back, at most `max_pending_packets` are kept.
pub buffer_pending-IsHeld :
    (table : FlowTable) (node_id : String) (port : ℕ) (dialled : Option Dialled) (packet : List ℕ)
    (now : ℕ)
    → IsHeld table.pending_packets
    → IsHeld (buffer_pending table node_id port dialled packet now).pending_packets
unfolding buffer_pending
buffer_pending-IsHeld table node_id port dialled packet now v =
    elim (Bool-cases (leb max_pending_packets (length fresh))) [
      | inr room ↦
          rw (room, buffer_pending)
            (record {
              unique = insert-IsUnique key _ fresh unique;
              capped = omega (arith, length-insert-le key (packet, now) fresh, below room);
            })
      | inl full ↦
          rw (full, buffer_pending)
            (elim (Bool-cases (contains_key key fresh)) [
              | inl known ↦
                  rw (known, buffer_pending)
                    (record {
                      unique = insert-IsUnique key _ fresh unique;
                      capped = omega (
                        arith,
                        length-insert_present key (packet, now) fresh known,
                        smaller,
                        v.capped,
                      );
                    })
              | inr other ↦
                  rw (other, buffer_pending)
                    (record { unique = unique; capped = omega (arith, smaller, v.capped) })
            ])
    ]
  where
    key : FlowKey
    key = record { node_id = node_id; port = port; dialled = dialled }

    fresh : HashMap FlowKey (List ℕ × ℕ)
    fresh = retain (λ _ held. is_fresh now held) table.pending_packets

    unique : IsUnique fresh
    unique = retain-IsUnique _ table.pending_packets v.unique

    smaller : length fresh ≤ length table.pending_packets
    smaller = length-retain-le _ table.pending_packets

    below : leb max_pending_packets (length fresh) ≡ false → length fresh < max_pending_packets
    below e = ground arith

pub take_pending-IsHeld :
    (table : FlowTable) (node_id : String) (port : ℕ) (dialled : Option Dialled) (now : ℕ)
    → IsHeld table.pending_packets
    → IsHeld (take_pending table node_id port dialled now).0.pending_packets
unfolding take_pending
take_pending-IsHeld table node_id port dialled now v =
    elim (Option-cases (pending_key table.pending_packets node_id port dialled)) [
      | inl e ↦ rw (e, take_pending) v
      | inr (key, e) ↦
          rw (e, take_pending)
            (elim (Option-cases (get key table.pending_packets)) [
              | inl f ↦ rw (f, take_pending) v
              | inr (held, f) ↦
                  rw (f, take_pending)
                    (record {
                      unique = remove-IsUnique key _ v.unique;
                      capped = omega (arith, v.capped, length-remove-le key table.pending_packets);
                    })
            ])
    ]

reclaim :
    (table : FlowTable) (node_id : String) (port : ℕ) (dialled : Option Dialled) (packet : List ℕ)
    (then_ later : ℕ)
    → get (record { node_id = node_id; port = port; dialled = dialled }) table.pending_packets
      ≡ some (packet, then_)
    → take_pending table node_id port dialled later ≡ (
      record table {
        pending_packets =
            remove
              (record { node_id = node_id; port = port; dialled = dialled })
              table.pending_packets;
      },
      if leb (later - then_) pending_packet_ttl then some packet else none,
    )
unfolding take_pending pending_key is_fresh
reclaim table node_id port none packet then_ later e = ground arith
reclaim table node_id port (some d) packet then_ later e = ground arith

buffer_pending_room :
    (table : FlowTable) (node_id : String) (port : ℕ) (dialled : Option Dialled) (packet : List ℕ)
    (now : ℕ)
    → length table.pending_packets < max_pending_packets
    → buffer_pending table node_id port dialled packet now ≡ record table {
      pending_packets =
          insert
            (record { node_id = node_id; port = port; dialled = dialled })
            (packet, now)
            (retain (λ _ held. is_fresh now held) table.pending_packets);
    }
unfolding buffer_pending
buffer_pending_room table node_id port dialled packet now room =
    ground (arith, length-retain-le (λ (_ : FlowKey) held. is_fresh now held) table.pending_packets)

-- A packet that was just held is handed back to the admission of exactly its flow, if that comes
-- within `pending_packet_ttl`, and is then gone; this wants room for one more packet.
pub take_pending-buffer_pending :
    (table : FlowTable) (node_id : String) (port : ℕ) (dialled : Option Dialled) (packet : List ℕ)
    (now later : ℕ)
    → length table.pending_packets < max_pending_packets
    → ((take_pending
          (buffer_pending table node_id port dialled packet now)
          node_id
          port
          dialled
          later).1
        ≡ (if leb (later - now) pending_packet_ttl then some packet else none))
      × (get
            (record { node_id = node_id; port = port; dialled = dialled })
            (take_pending
              (buffer_pending table node_id port dialled packet now)
              node_id
              port
              dialled
              later).0.pending_packets
          ≡ none)
take_pending-buffer_pending table node_id port dialled packet now later room =
    let key : FlowKey = record { node_id = node_id; port = port; dialled = dialled } in
    let held =
      insert key (packet, now) (retain (λ (_ : FlowKey) h. is_fresh now h) table.pending_packets) in
    rw
      (
        buffer_pending_room table node_id port dialled packet now room,
        reclaim (record table { pending_packets = held }) node_id port dialled packet now later
            (ground (
              arith,
              get-insert key key (packet, now)
                  (retain (λ (_ : FlowKey) h. is_fresh now h) table.pending_packets),
            )),
      )
      (refl, ground (arith, get-remove key key held))

-- What an admission with an identity reclaims was held under exactly that identity; one without
-- reclaims what was held for its node and port.
abbrev pub MayReclaim : Option Dialled → FlowKey → Type 0
MayReclaim none key = Unit {0}
MayReclaim (some packet) key = key.dialled ≡ some packet

find_key-port :
    (node_id : String) (port : ℕ) (held : HashMap FlowKey (List ℕ × ℕ)) (key : FlowKey)
    → find_key node_id port held ≡ some key
    → (key.node_id ≡ node_id) × (key.port ≡ port)
unfolding find_key
find_key-port node_id port [] key e = cc
find_key-port node_id port ((k, v) ∷ held) key e =
    ground (arith, find_key-port node_id port held key)

pending_key-MayReclaim :
    (held : HashMap FlowKey (List ℕ × ℕ)) (node_id : String) (port : ℕ) (dialled : Option Dialled)
    (key : FlowKey)
    → pending_key held node_id port dialled ≡ some key
    → (key.node_id ≡ node_id) × (key.port ≡ port) × MayReclaim dialled key
unfolding pending_key
pending_key-MayReclaim held node_id port none key e =
    ground (arith, find_key-port node_id port held key)
pending_key-MayReclaim held node_id port (some d) key e = ground arith

-- A reclaimed packet was held for the admission's node and port, under its identity where it has
-- one, at most `pending_packet_ttl` ago.
pub take_pending_origin :
    (table : FlowTable) (node_id : String) (port : ℕ) (dialled : Option Dialled) (packet : List ℕ)
    (now : ℕ)
    → (take_pending table node_id port dialled now).1 ≡ some packet
    → (key : FlowKey) × (since : ℕ) × (get key table.pending_packets ≡ some (packet, since))
      × (key.node_id ≡ node_id)
      × (key.port ≡ port)
      × MayReclaim dialled key
      × (now - since ≤ pending_packet_ttl)
unfolding take_pending is_fresh
take_pending_origin table node_id port dialled packet now e =
    elim (Option-cases (pending_key table.pending_packets node_id port dialled)) [
      | inl f ↦ absurd (ground arith)
      | inr (key, f) ↦
          let (n, p, m) = pending_key-MayReclaim table.pending_packets node_id port dialled key f in
          elim (Option-cases (get key table.pending_packets)) [
            | inl g ↦ absurd (ground arith)
            | inr ((held, since), g) ↦ (key, since, ground arith, n, p, m, ground arith)
          ]
    ]
