-- ===== src/FlowTable/Invariant/Nodes.antt =====
-- The index from a translated port to the nodes that hold it, against the flows that were admitted
-- without an identity.
use secure_connect_connector.Base.{
  Bool, Option, Option-cases, String, [], arith, false, if◌then◌else◌, inl, inr, nat_key, none,
  refl, some, string_key, true, ℕ, ◌&&◌, ◌==◌, ◌∷◌, ◌≡◌, ◌≢◌,
}
use secure_connect_connector.HashMap.{HashMap, HashSet, contains_key, get, insert, remove}
use secure_connect_connector.HashMap.Laws.{
  IsUnique, get-insert, get-remove, insert-IsUnique, remove-IsUnique,
}
use secure_connect_connector.FlowTable.Types.{flow_key}
use secure_connect_connector.FlowTable.Flows.{deindex, index_node, keep_nodes}

abbrev pub Index : Type 0
Index = HashMap ℕ (HashSet String)

unfoldable pub member_of : String → Option (HashSet String) → Bool
member_of node_id none = false
member_of node_id (some nodes) = contains_key node_id nodes

abbrev pub member : Index → String → ℕ → Bool
member index node_id port = member_of node_id (get port index)

-- A set that the index holds: its nodes are distinct, and there is at least one.
unfoldable pub IsNodeSet : Option (HashSet String) → Type 0
IsNodeSet none = Unit
IsNodeSet (some nodes) = IsUnique nodes × (nodes ≢ [])

abbrev pub AreNodeSets : Index → Type 0
AreNodeSets index = (port : ℕ) → IsNodeSet (get port index)

non_empty : HashSet String → Option (HashSet String)
non_empty [] = none
non_empty (x ∷ xs) = some (x ∷ xs)

get-keep_nodes :
    (index : Index) (port q : ℕ) (nodes : HashSet String)
    → get q (keep_nodes index port nodes) ≡ (if port == q then non_empty nodes else get q index)
unfolding keep_nodes non_empty
get-keep_nodes index port q [] = get-remove port q index
get-keep_nodes index port q (x ∷ xs) = get-insert port q (x ∷ xs) index

member_of-non_empty :
    (m : String) (nodes : HashSet String) → member_of m (non_empty nodes) ≡ contains_key m nodes
unfolding member_of non_empty get
member_of-non_empty m [] = refl
member_of-non_empty m (x ∷ xs) = refl

non_empty-IsNodeSet : (nodes : HashSet String) → IsUnique nodes → IsNodeSet (non_empty nodes)
unfolding IsNodeSet non_empty
non_empty-IsNodeSet [] u = tt
non_empty-IsNodeSet (x ∷ xs) u = (u, λ e. cc)

module _ (index : Index) (node_id : String) (port : ℕ) where
  pub member-deindex :
      (m : String) (q : ℕ)
      → member (deindex index node_id port) m q
        ≡ (if node_id == m && port == q then false else member index m q)
  unfolding deindex member_of
  member-deindex m q = elim (Option-cases (get port index)) [
    | inl e ↦ ground arith
    | inr (nodes, e) ↦ ground (
      arith,
      get-keep_nodes index port q (remove node_id nodes),
      member_of-non_empty m (remove node_id nodes),
      get-remove node_id m nodes,
    )
  ]

  pub deindex-AreNodeSets : AreNodeSets index → AreNodeSets (deindex index node_id port)
  unfolding deindex IsNodeSet
  deindex-AreNodeSets sets q = elim (Option-cases (get port index)) [
    | inl e ↦ rw (e, deindex) (sets q)
    | inr (nodes, e) ↦ ground (
      arith,
      sets q,
      sets port,
      get-keep_nodes index port q (remove node_id nodes),
      non_empty-IsNodeSet (remove node_id nodes),
      remove-IsUnique node_id nodes,
    )
  ]

  pub member-index_node :
      (m : String) (q : ℕ)
      → member (index_node index node_id port) m q
        ≡ (if node_id == m && port == q then true else member index m q)
  unfolding index_node member_of get
  member-index_node m q = elim (Option-cases (get port index)) [
    | inl e ↦ ground (arith, get-insert port q ((node_id, tt) ∷ []) index)
    | inr (nodes, e) ↦
        ground
          (arith, get-insert port q (insert node_id tt nodes) index, get-insert node_id m tt nodes)
  ]

  pub index_node-AreNodeSets : AreNodeSets index → AreNodeSets (index_node index node_id port)
  unfolding index_node IsNodeSet get insert
  index_node-AreNodeSets sets q = elim (Option-cases (get port index)) [
    | inl e ↦ ground (arith, sets q, get-insert port q ((node_id, tt) ∷ []) index)
    | inr (nodes, e) ↦ ground (
      arith,
      sets q,
      sets port,
      get-insert port q (insert node_id tt nodes) index,
      insert-IsUnique node_id tt nodes,
    )
  ]
