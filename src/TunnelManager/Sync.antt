-- ===== src/TunnelManager/Sync.antt =====
-- src/tunnel.rs: what `sync_nodes` leaves of each tunnel, and which nodes it reports as dropped.
use secure_connect_connector.Dto.{HeartbeatNode}
use secure_connect_connector.TunnelManager.{
  NodeTunnel, TunnelManager, WireGuard, build_tunnel, decode_public_base64, is_kept, keep_built,
  seen_ids, sync_each, sync_node, sync_nodes, wireguard_port,
}
use secure_connect_connector.HashMap.{HashMap, get}
use secure_connect_connector.HashMap.Laws.{get-insert, get-retain_keys}
use secure_connect_connector.Base.{
  Bool-cases, List, Option, Option-cases, String, [], arith, elem, false, if◌then◌else◌, inl, inr,
  is_some, none, refl, some, string_key, ℕ, ◌&&◌, ◌++◌, ◌==◌, ◌>>=◌, ◌||◌, ◌∙◌, ◌∷◌, ◌≡◌,
}

module _ (wireguard : WireGuard) where
  abbrev pub Tunnels : Type 0
  Tunnels = HashMap String (NodeTunnel wireguard)

  -- The tunnel that a node's key and address make, where they can be read.
  unfoldable pub built : ℕ → HeartbeatNode → String → Option (NodeTunnel wireguard)
  built index node key = do
    public_key ← decode_public_base64 wireguard key
    ip ← wireguard.parse_ip node.ip_address
    some (record {
      tunn = wireguard.new_tunn public_key index;
      node_id = node.node_id;
      addr = record { ip = ip; port = wireguard_port };
      key_base64 = key;
    })

  abbrev pub or_else :
      Option (NodeTunnel wireguard) → Option (NodeTunnel wireguard) → Option (NodeTunnel wireguard)
  or_else none old = old
  or_else (some tunnel) old = some tunnel

  -- A tunnel that is unchanged stays; another is built anew, and stays where that fails.
  abbrev pub refreshed :
      ℕ → Option (NodeTunnel wireguard) → HeartbeatNode → String → Option (NodeTunnel wireguard)
  refreshed index old node key =
      if is_kept wireguard old node key then old else or_else (built index node key) old

  build_tunnel_tunnels :
      (manager : TunnelManager wireguard) (node : HeartbeatNode) (key : String)
      → ((build_tunnel wireguard manager node key).0.tunnels ≡ manager.tunnels)
        × ((build_tunnel wireguard manager node key).1 ≡ built manager.next_index node key)
  unfolding build_tunnel built
  build_tunnel_tunnels manager node key = elim (Option-cases (decode_public_base64 wireguard key)) [
    | inl e ↦ rw (e, build_tunnel) (refl, refl)
    | inr (public_key, e) ↦ elim (Option-cases (wireguard.parse_ip node.ip_address)) [
      | inl f ↦ rw (e, f, build_tunnel) (refl, refl)
      | inr (ip, f) ↦ rw (e, f, build_tunnel) (refl, refl)
    ]
  ]

  get-keep_built :
      (k node_id : String) (built : TunnelManager wireguard × Option (NodeTunnel wireguard))
      → get k (keep_built wireguard node_id built).tunnels
        ≡ (if node_id == k then or_else built.1 (get k built.0.tunnels) else get k built.0.tunnels)
  get-keep_built k node_id (manager, none) = ground arith
  get-keep_built k node_id (manager, some tunnel) = get-insert node_id k tunnel manager.tunnels

  pub get-sync_node :
      (manager : TunnelManager wireguard) (node : HeartbeatNode) (key k : String)
      → get k (sync_node wireguard manager node (some key)).tunnels ≡ (
          if node.node_id == k
          then refreshed manager.next_index (get node.node_id manager.tunnels) node key
          else get k manager.tunnels)
  unfolding sync_node
  get-sync_node manager node key k =
      elim (Bool-cases (is_kept wireguard (get node.node_id manager.tunnels) node key)) [
        | inl e ↦ rw e (ground arith)
        | inr e ↦ rw e (
            ground (
              arith,
              get-keep_built k node.node_id (build_tunnel wireguard manager node key),
              build_tunnel_tunnels manager node key,
            ))
      ]

  pub sync_each-append :
      (manager : TunnelManager wireguard) (before after : List HeartbeatNode)
      → sync_each wireguard manager (before ++ after)
        ≡ sync_each wireguard (sync_each wireguard manager before) after
  unfolding sync_each
  sync_each-append manager [] after = refl
  sync_each-append manager (node ∷ before) after =
      sync_each-append (sync_node wireguard manager node node.wireguard_public_key) before after

  get-sync_node_unseen :
      (manager : TunnelManager wireguard) (node : HeartbeatNode) (reported : Option String)
      (k : String)
      → (is_some reported && node.node_id == k) ≡ false
      → get k (sync_node wireguard manager node reported).tunnels ≡ get k manager.tunnels
  get-sync_node_unseen manager node none k h = unfold sync_node in refl
  get-sync_node_unseen manager node (some key) k h =
      ground (arith, get-sync_node manager node key k)

  pub get-sync_each_unseen :
      (manager : TunnelManager wireguard) (nodes : List HeartbeatNode) (k : String)
      → elem k (seen_ids wireguard nodes) ≡ false
      → get k (sync_each wireguard manager nodes).tunnels ≡ get k manager.tunnels
  unfolding sync_each seen_ids elem
  get-sync_each_unseen manager [] k h = refl
  get-sync_each_unseen manager (node ∷ nodes) k h =
      let next = sync_node wireguard manager node node.wireguard_public_key in
      get-sync_each_unseen next nodes k (ground arith)
      ∙ get-sync_node_unseen manager node node.wireguard_public_key k (ground arith)

  pub get-sync_nodes :
      (manager : TunnelManager wireguard) (nodes : List HeartbeatNode) (k : String)
      → get k (sync_nodes wireguard manager nodes).0.tunnels ≡ (
          if elem k (seen_ids wireguard nodes)
          then get k (sync_each wireguard manager nodes).tunnels
          else none)
  unfolding sync_nodes
  get-sync_nodes manager nodes k =
      get-retain_keys (λ id. elem id (seen_ids wireguard nodes)) k
        (sync_each wireguard manager nodes).tunnels

  pub elem-seen_ids-append :
      (k : String) (before after : List HeartbeatNode)
      → elem k (seen_ids wireguard (before ++ after))
        ≡ (elem k (seen_ids wireguard before) || elem k (seen_ids wireguard after))
  unfolding seen_ids elem
  elem-seen_ids-append k [] after = refl
  elem-seen_ids-append k (node ∷ before) after = ground (arith, elem-seen_ids-append k before after)
