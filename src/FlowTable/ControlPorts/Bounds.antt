-- ===== src/FlowTable/ControlPorts/Bounds.antt =====
-- The bounded maps stay within their cap, and their order lists exactly the ports that they hold.
use secure_connect_connector.HashMap.Laws.{
  IsUnique, get-insert, get-remove, get-retain, insert-IsUnique, remove-IsUnique, retain-IsUnique,
  retain-none,
}
use secure_connect_connector.HashMap.{HashMap, contains_key, get, insert, retain}
use secure_connect_connector.Base.{
  Bool-cases, IsDistinct, IsDistinct-append, List, String, [], arith, elem, elem-append, false,
  if◌then◌else◌, inl, inr, length, length-append, ltb, nat_key, none, not, refl, some, string_key,
  ℕ, ◌&&◌, ◌++◌, ◌+◌, ◌<◌, ◌==◌, ◌∙◌, ◌∷◌, ◌≡◌, ◌≢◌, ◌≤◌,
}
use secure_connect_connector.FlowTable.Types.{max_tracked_control_channel_ports}
use secure_connect_connector.FlowTable.ControlPorts.{
  BoundedPorts, evict_oldest, forget_node_ports, record_bounded_port, retain_ports,
}

pub record IsWithinCap (m : BoundedPorts) : Type 0 where
  pub unique : IsUnique m.ports
  pub distinct : IsDistinct m.order
  pub listed : (port : ℕ) → elem port m.order ≡ contains_key port m.ports
  pub capped : length m.order ≤ max_tracked_control_channel_ports

evict_oldest-IsWithinCap :
    (ports : HashMap ℕ String) (order : List ℕ)
    → IsUnique ports
    → IsDistinct order
    → ((port : ℕ) → elem port order ≡ contains_key port ports)
    → length order ≤ max_tracked_control_channel_ports + 1
    → 0 < length order
    → IsWithinCap (evict_oldest (record { ports = ports; order = order }))
unfolding evict_oldest elem
evict_oldest-IsWithinCap ports [] unique distinct listed capped pos = absurd (omega arith)
evict_oldest-IsWithinCap ports (oldest ∷ rest) unique distinct listed capped pos = record {
  unique = remove-IsUnique oldest ports unique;
  distinct = distinct.1;
  listed = λ port. ground (arith, listed port, get-remove oldest port ports, distinct.0);
  capped = omega arith;
}

-- A port that is recorded, again or for the first time, keeps the map within its cap.
pub record_bounded_port-IsWithinCap :
    (m : BoundedPorts) (node_id : String) (port : ℕ)
    → IsWithinCap m
    → IsWithinCap (record_bounded_port m node_id port)
unfolding record_bounded_port elem
record_bounded_port-IsWithinCap m node_id port v = elim (Bool-cases (contains_key port m.ports)) [
  | inl known ↦
      rw (known, record_bounded_port)
        (record {
          unique = insert-IsUnique port node_id m.ports v.unique;
          distinct = v.distinct;
          listed = λ q. ground (arith, v.listed q, get-insert port q node_id m.ports);
          capped = v.capped;
        })
  | inr fresh ↦ rw (fresh, record_bounded_port) (pushed fresh)
]
  where
    ports : HashMap ℕ String
    ports = insert port node_id m.ports

    order : List ℕ
    order = m.order ++ port ∷ []

    longer : length order ≡ length m.order + 1
    longer = omega (arith, length-append m.order (port ∷ []))

    unique : IsUnique ports
    unique = insert-IsUnique port node_id m.ports v.unique

    distinct : contains_key port m.ports ≡ false → IsDistinct order
    distinct fresh = IsDistinct-append port m.order v.distinct (v.listed port ∙ fresh)

    listed : (q : ℕ) → elem q order ≡ contains_key q ports
    listed q =
        ground
          (arith, v.listed q, get-insert port q node_id m.ports, elem-append q m.order (port ∷ []))

    pushed :
        contains_key port m.ports ≡ false
        → IsWithinCap (
            if ltb max_tracked_control_channel_ports (length order)
            then evict_oldest (record { ports = ports; order = order })
            else record { ports = ports; order = order })
    pushed fresh = elim (Bool-cases (ltb max_tracked_control_channel_ports (length order))) [
      | inl over ↦ rw over (
          evict_oldest-IsWithinCap ports order unique (distinct fresh) listed
            (omega (arith, longer, v.capped)) (omega (arith, longer)))
      | inr within ↦ rw within (record {
        unique = unique;
        distinct = distinct fresh;
        listed = listed;
        capped = ground arith;
      })
    ]

elem-retain_ports :
    (ports : HashMap ℕ String) (order : List ℕ) (port : ℕ)
    → elem port (retain_ports ports order) ≡ (elem port order && contains_key port ports)
unfolding elem retain_ports
elem-retain_ports ports [] port = refl
elem-retain_ports ports (p ∷ order) port = ground (arith, elem-retain_ports ports order port)

retain_ports-IsDistinct :
    (ports : HashMap ℕ String) (order : List ℕ)
    → IsDistinct order
    → IsDistinct (retain_ports ports order)
unfolding elem retain_ports
retain_ports-IsDistinct ports [] d = tt
retain_ports-IsDistinct ports (p ∷ order) d =
    ground (arith, retain_ports-IsDistinct ports order d.1, elem-retain_ports ports order p)

length-retain_ports-le :
    (ports : HashMap ℕ String) (order : List ℕ) → length (retain_ports ports order) ≤ length order
unfolding retain_ports
length-retain_ports-le ports [] = omega arith
length-retain_ports-le ports (p ∷ order) = ground (arith, length-retain_ports-le ports order)

-- So does forgetting a node.
pub forget_node_ports-IsWithinCap :
    (m : BoundedPorts) (node_id : String)
    → IsWithinCap m
    → IsWithinCap (forget_node_ports m node_id)
unfolding forget_node_ports
forget_node_ports-IsWithinCap m node_id v =
    let kept = retain (λ (_ : ℕ) owner. not (owner == node_id)) m.ports in
    record {
      unique = retain-IsUnique _ m.ports v.unique;
      distinct = retain_ports-IsDistinct kept m.order v.distinct;
      listed = λ port. ground (
        arith,
        elem-retain_ports kept m.order port,
        v.listed port,
        retain-none (λ (_ : ℕ) owner. not (owner == node_id)) port m.ports,
      );
      capped = omega (arith, length-retain_ports-le kept m.order, v.capped);
    }

get-recorded :
    (ports : HashMap ℕ String) (order : List ℕ) (node_id : String) (port q : ℕ)
    → ((p : ℕ) → elem p order ≡ contains_key p ports)
    → let after = record_bounded_port (record { ports = ports; order = order }) node_id port in
      (get port after.ports ≡ some node_id)
      × (port ≢ q → get q after.ports ≢ none → get q after.ports ≡ get q ports)
unfolding record_bounded_port evict_oldest elem
get-recorded ports [] node_id port q listed = (
  ground (arith, get-insert port port node_id ports),
  λ ne held. ground (arith, get-insert port q node_id ports),
)
get-recorded ports (oldest ∷ rest) node_id port q listed =
    let i = insert port node_id ports in
    (
      ground (arith, listed oldest, get-insert port port node_id ports, get-remove oldest port i),
      λ ne held. ground (arith, get-insert port q node_id ports, get-remove oldest q i),
    )

-- In a map within its cap, the port just recorded leads to its node, and every other port that is
-- still held leads where it led before.
pub get-record_bounded_port :
    (m : BoundedPorts) (node_id : String) (port q : ℕ)
    → IsWithinCap m
    → port ≢ q
    → get q (record_bounded_port m node_id port).ports ≢ none
    → (get port (record_bounded_port m node_id port).ports ≡ some node_id)
      × (get q (record_bounded_port m node_id port).ports ≡ get q m.ports)
get-record_bounded_port m node_id port q v other held =
    let (recorded, kept) = get-recorded m.ports m.order node_id port q v.listed in
    (recorded, kept other held)

-- A node that is forgotten owns no port, and no other owner changes.
pub get-forget_node_ports :
    (m : BoundedPorts) (node_id : String) (port : ℕ)
    → IsWithinCap m
    → get port (forget_node_ports m node_id).ports ≡ (elim (get port m.ports) [
      | none ↦ none
      | some owner ↦ if owner == node_id then none else some owner
    ])
unfolding forget_node_ports
get-forget_node_ports m node_id port v =
    ground (arith, get-retain (λ (_ : ℕ) owner. not (owner == node_id)) port m.ports v.unique)
