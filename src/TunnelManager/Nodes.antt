-- ===== src/TunnelManager/Nodes.antt =====
-- src/tunnel.rs: the tunnel of each node after a heartbeat's node list is synchronised.
use secure_connect_connector.Dto.{HeartbeatNode}
use secure_connect_connector.TunnelManager.{
  TunnelManager, WireGuard, keys_unseen, seen_ids, sync_each, sync_node, sync_nodes,
}
use secure_connect_connector.TunnelManager.Sync.{
  Tunnels, elem-seen_ids-append, get-sync_each_unseen, get-sync_node, get-sync_nodes, refreshed,
  sync_each-append,
}
use secure_connect_connector.HashMap.{contains_key, get}
use secure_connect_connector.Base.{
  List, String, [], ap, arith, elem, false, none, not, refl, some, string_key, true, ℕ, ◌&&◌, ◌++◌,
  ◌∙◌, ◌∷◌, ◌≡◌,
}

module _ (wireguard : WireGuard) where
  get-sync_node_self :
      (manager : TunnelManager wireguard) (node : HeartbeatNode) (key : String)
      → get node.node_id (sync_node wireguard manager node (some key)).tunnels
        ≡ refreshed wireguard manager.next_index (get node.node_id manager.tunnels) node key
  get-sync_node_self manager node key =
      ground (arith, get-sync_node wireguard manager node key node.node_id)

  -- A node of the list that reports a key, where no other node of the list that does has its id: its
  -- tunnel is the one it had, session and all, if that was built from the key and address that it
  -- reports now; or else a new one to the reported key and address, if both can be read; and or else
  -- the one it had, if it had one.
  pub sync_nodes_reported :
      (manager : TunnelManager wireguard) (before after : List HeartbeatNode) (node : HeartbeatNode)
      (key : String)
      → node.wireguard_public_key ≡ some key
      → elem node.node_id (seen_ids wireguard before) ≡ false
      → elem node.node_id (seen_ids wireguard after) ≡ false
      → (index : ℕ) × (get node.node_id
            (sync_nodes wireguard manager (before ++ node ∷ after)).0.tunnels
          ≡ refreshed wireguard index (get node.node_id manager.tunnels) node key)
  sync_nodes_reported manager before after node key reports unseen_before unseen_after =
      let first = sync_each wireguard manager before in
      let id = node.node_id in
      let seen : elem id (seen_ids wireguard (before ++ node ∷ after)) ≡ true =
        unfold seen_ids elem in
        rw (elem-seen_ids-append wireguard id before (node ∷ after)) (ground (arith, reports)) in
      let own : get id (sync_each wireguard first (node ∷ after)).tunnels
          ≡ refreshed wireguard first.next_index (get id first.tunnels) node key =
        unfold sync_each in
        get-sync_each_unseen wireguard (sync_node wireguard first node node.wireguard_public_key)
          after id unseen_after
        ∙ ap (λ reported. get id (sync_node wireguard first node reported).tunnels) reports
        ∙ get-sync_node_self first node key in
      let start = get-sync_each_unseen wireguard manager before id unseen_before in
      (
        first.next_index,
        get-sync_nodes wireguard manager (before ++ node ∷ after) id
            ∙ rw seen (
                rw (sync_each-append wireguard manager before (node ∷ after))
                  (own ∙ rw start refl)),
      )

  elem-keys_unseen :
      (seen : List String) (tunnels : Tunnels wireguard) (k : String)
      → elem k (keys_unseen wireguard seen tunnels) ≡ (contains_key k tunnels && not (elem k seen))
  unfolding keys_unseen elem get
  elem-keys_unseen seen [] k = refl
  elem-keys_unseen seen ((node_id, tunnel) ∷ tunnels) k =
      ground (arith, elem-keys_unseen seen tunnels k)

  -- A node that is not on the list with a key has no tunnel afterwards, and the nodes that are
  -- reported as dropped are exactly those that had a tunnel and are not on the list with a key.
  pub sync_nodes_dropped :
      (manager : TunnelManager wireguard) (nodes : List HeartbeatNode) (k : String)
      → (elem k (sync_nodes wireguard manager nodes).1
          ≡ (contains_key k manager.tunnels && not (elem k (seen_ids wireguard nodes))))
        × (elem k (seen_ids wireguard nodes) ≡ false
            → get k (sync_nodes wireguard manager nodes).0.tunnels ≡ none)
  sync_nodes_dropped manager nodes k = (
    unfold sync_nodes in
        elem-keys_unseen (seen_ids wireguard nodes) (sync_each wireguard manager nodes).tunnels k
        ∙ ground (arith, get-sync_each_unseen wireguard manager nodes k),
    λ h. get-sync_nodes wireguard manager nodes k ∙ rw h refl,
  )
