-- ===== src/FlowTable/Reply/Nodes.antt =====
-- A port leads to a node only where no other node holds it.
use secure_connect_connector.HashMap.{HashSet, contains_key, get}
use secure_connect_connector.Base.{
  Option, String, [], arith, nat_key, none, some, sym, true, ℕ, ◌↔◌, ◌∙◌, ◌∷◌, ◌≡◌,
}
use secure_connect_connector.FlowTable.Types.{FlowTable, flow_key, legacy_key}
use secure_connect_connector.FlowTable.Reply.{node_for_port}
use secure_connect_connector.FlowTable.Invariant.Nodes.{IsNodeSet, member_of}
use secure_connect_connector.FlowTable.Invariant.Removal.{IsValid}

only_node : Option (HashSet String) → Option String
only_node (some ((node_id, _) ∷ [])) = some node_id
only_node _ = none

-- The one member of a set.
only_node-sole :
    (s : Option (HashSet String)) (n : String)
    → only_node s ≡ some n
    → (member_of n s ≡ true) × ((m : String) → member_of m s ≡ true → m ≡ n)
unfolding only_node member_of get
only_node-sole none n e = cc
only_node-sole (some []) n e = cc
only_node-sole (some ((x, u) ∷ [])) n e = (ground arith, λ m h. ground arith)
only_node-sole (some ((x, u) ∷ (y, w) ∷ s)) n e = cc

sole-only_node :
    (s : Option (HashSet String)) (n : String)
    → IsNodeSet s
    → member_of n s ≡ true
    → ((m : String) → member_of m s ≡ true → m ≡ n)
    → only_node s ≡ some n
unfolding only_node member_of IsNodeSet get
sole-only_node none n v h alone = cc
sole-only_node (some []) n v h alone = cc
sole-only_node (some ((x, u) ∷ [])) n v h alone = ground arith
sole-only_node (some ((x, u) ∷ (y, w) ∷ s)) n v h alone = absurd (ground (arith, alone x, alone y))

-- A node that holds a port, by a flow without an identity.
abbrev pub Holds : FlowTable → ℕ → String → Type 0
Holds table port node_id = contains_key (legacy_key node_id port) table.flows ≡ true

-- In a well-formed table, `node_for_port` names a node exactly when that node and no other holds
-- the port.
pub node_for_port_iff :
    (table : FlowTable) (port : ℕ) (n : String)
    → IsValid table
    → (node_for_port table port ≡ some n)
      ↔ (Holds table port n × ((m : String) → Holds table port m → m ≡ n))
unfolding node_for_port only_node
node_for_port_iff table port n v = (
  λ e.
      let (here, alone) = only_node-sole (get port table.nodes_by_port) n e in
      (sym (v.nodes n port) ∙ here, λ m h. alone m (v.nodes m port ∙ h)),
  λ (here, alone).
      sole-only_node (get port table.nodes_by_port) n (v.sets port) (v.nodes n port ∙ here)
        (λ m h. alone m (sym (v.nodes m port) ∙ h)),
)
