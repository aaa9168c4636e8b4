-- ===== src/Dialling/Evictions.antt =====
-- src/main.rs: what a heartbeat's node list does to the flows and to the established tunnels.
use Prim.Native.String.{String}
use secure_connect_connector.Dto.{HeartbeatNode}
use secure_connect_connector.Dialling.{dial, dial_each, dial_new_nodes, evict_each}
use secure_connect_connector.TunnelManager.{
  NodeTunnel, TunnelManager, WireGuard, initiate_handshake, is_established, seen_ids, sync_nodes,
}
use secure_connect_connector.TunnelManager.Nodes.{sync_nodes_dropped}
use secure_connect_connector.FlowTable.Types.{FlowKey, FlowTable, flow_key}
use secure_connect_connector.FlowTable.Flows.{evict_node}
use secure_connect_connector.FlowTable.Flows.Effects.{get-evict_node_flows}
use secure_connect_connector.FlowTable.Invariant.Removal.{IsValid}
use secure_connect_connector.FlowTable.Invariant.Changes.{evict_node-IsValid}
use secure_connect_connector.HashMap.{contains_key, get}
use secure_connect_connector.HashMap.Laws.{get-insert}
use secure_connect_connector.Base.{
  Bool-cases, List, Option, [], arith, elem, false, if◌then◌else◌, inl, inr, none, not, refl, some,
  string_key, true, ◌&&◌, ◌==◌, ◌∙◌, ◌∷◌, ◌≡◌,
}

module _ (wireguard : WireGuard) where
  evict_each-IsValid :
      (table : FlowTable) (node_ids : List String)
      → IsValid table
      → IsValid (evict_each wireguard table node_ids)
  unfolding evict_each
  evict_each-IsValid table [] valid = valid
  evict_each-IsValid table (node_id ∷ node_ids) valid =
      evict_each-IsValid (evict_node table node_id) node_ids
        (evict_node-IsValid table node_id valid)

  pub dial_new_nodes-IsValid :
      (manager : TunnelManager wireguard) (nodes : List HeartbeatNode) (table : FlowTable)
      → IsValid table
      → IsValid (dial_new_nodes wireguard manager nodes table).1
  unfolding dial_new_nodes
  dial_new_nodes-IsValid manager nodes table valid =
      evict_each-IsValid table (sync_nodes wireguard manager nodes).1 valid

  get-evict_each :
      (table : FlowTable) (node_ids : List String) (k : FlowKey)
      → IsValid table
      → get k (evict_each wireguard table node_ids).flows
        ≡ (if elem k.node_id node_ids then none else get k table.flows)
  unfolding evict_each elem
  get-evict_each table [] k valid = refl
  get-evict_each table (node_id ∷ node_ids) k valid = ground (
    arith,
    get-evict_each (evict_node table node_id) node_ids k (evict_node-IsValid table node_id valid),
    get-evict_node_flows table node_id k valid.distinct,
  )

  -- In a well-formed table, the flows that a heartbeat's node list ends are exactly those of the
  -- nodes that had a tunnel and are not on the list with a key; the others are as they were.
  pub get-dial_new_nodes :
      (manager : TunnelManager wireguard) (nodes : List HeartbeatNode) (table : FlowTable)
      (k : FlowKey)
      → IsValid table
      → get k (dial_new_nodes wireguard manager nodes table).1.flows ≡ (
          if contains_key k.node_id manager.tunnels
            && not (elem k.node_id (seen_ids wireguard nodes))
          then none
          else get k table.flows)
  unfolding dial_new_nodes
  get-dial_new_nodes manager nodes table k valid =
      get-evict_each table (sync_nodes wireguard manager nodes).1 k valid
      ∙ rw ((sync_nodes_dropped wireguard manager nodes k.node_id).0) refl

  get-dial_other :
      (manager : TunnelManager wireguard) (node_id k : String)
      (found : Option (NodeTunnel wireguard))
      → (node_id == k) ≡ false
      → get k (dial wireguard manager node_id found).0.tunnels ≡ get k manager.tunnels
  unfolding dial
  get-dial_other manager node_id k none h = refl
  get-dial_other manager node_id k (some tunnel) h =
      elim (Bool-cases (is_established wireguard tunnel)) [
        | inl e ↦ rw e refl
        | inr e ↦ rw e (
            get-insert node_id k (initiate_handshake wireguard tunnel).0 manager.tunnels
            ∙ rw h refl)
      ]

  get-dial_established :
      (manager : TunnelManager wireguard) (node_id k : String) (tunnel : NodeTunnel wireguard)
      → get k manager.tunnels ≡ some tunnel
      → is_established wireguard tunnel ≡ true
      → get k (dial wireguard manager node_id (get node_id manager.tunnels)).0.tunnels ≡ some tunnel
  get-dial_established manager node_id k tunnel e established = elim (Bool-cases (node_id == k)) [
    | inl same ↦ let ids : node_id ≡ k = ground arith in unfold dial in rw (ids, e, established) e
    | inr other ↦ get-dial_other manager node_id k (get node_id manager.tunnels) other ∙ e
  ]

  dial_each-keeps :
      (manager : TunnelManager wireguard) (nodes : List HeartbeatNode) (k : String)
      (tunnel : NodeTunnel wireguard)
      → get k manager.tunnels ≡ some tunnel
      → is_established wireguard tunnel ≡ true
      → get k (dial_each wireguard manager nodes).0.tunnels ≡ some tunnel
  unfolding dial_each
  dial_each-keeps manager [] k tunnel e established = e
  dial_each-keeps manager (node ∷ nodes) k tunnel e established =
      dial_each-keeps (dial wireguard manager node.node_id (get node.node_id manager.tunnels)).0
        nodes k tunnel (get-dial_established manager node.node_id k tunnel e established)
        established

  -- A tunnel that the node list keeps and whose session is established is not dialled again.
  pub dial_new_nodes_established :
      (manager : TunnelManager wireguard) (nodes : List HeartbeatNode) (table : FlowTable)
      (node_id : String) (tunnel : NodeTunnel wireguard)
      → get node_id (sync_nodes wireguard manager nodes).0.tunnels ≡ some tunnel
      → is_established wireguard tunnel ≡ true
      → get node_id (dial_new_nodes wireguard manager nodes table).0.tunnels ≡ some tunnel
  unfolding dial_new_nodes
  dial_new_nodes_established manager nodes table node_id tunnel e established =
      dial_each-keeps (sync_nodes wireguard manager nodes).0 nodes node_id tunnel e established
