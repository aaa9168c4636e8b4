-- ===== src/Dialling.antt =====
-- src/main.rs: the tunnels brought up to date with a heartbeat's node list, the handshakes to send,
-- and the flows of the nodes that are gone.
pub mod Evictions
use Prim.Native.String.{String}
use secure_connect_connector.Dto.{HeartbeatNode}
use secure_connect_connector.TunnelManager.{
  NodeTunnel, SocketAddr, TunnelEvent, TunnelManager, WireGuard, decrypted_data, initiate_handshake,
  is_established, nothing, protocol_error, send_to_node, sync_nodes,
}
use secure_connect_connector.FlowTable.Types.{FlowTable}
use secure_connect_connector.FlowTable.Flows.{evict_node}
use secure_connect_connector.HashMap.{get, insert}
use secure_connect_connector.Base.{
  List, Option, [], if◌then◌else◌, none, some, string_key, ℕ, ◌++◌, ◌∷◌,
}

-- A packet, the address that it goes to, and the node there.
pub record Handshake : Type 0 where
  pub packet : List ℕ
  pub addr : SocketAddr
  pub node_id : String

abbrev pub handshake_of : SocketAddr → String → TunnelEvent → List Handshake
handshake_of addr node_id (send_to_node packet) =
    record { packet = packet; addr = addr; node_id = node_id } ∷ []
handshake_of addr node_id (decrypted_data packet) = []
handshake_of addr node_id nothing = []
handshake_of addr node_id (protocol_error error) = []

module _ (wireguard : WireGuard) where
  -- One node of the list, with its tunnel, if it has one.
  unfoldable pub dial :
      TunnelManager wireguard
      → String
      → Option (NodeTunnel wireguard)
      → TunnelManager wireguard × List Handshake
  unfolding is_established initiate_handshake
  dial manager node_id none = (manager, [])
  dial manager node_id (some tunnel) =
      if is_established wireguard tunnel
      then (manager, [])
      else let (tunnel', event) = initiate_handshake wireguard tunnel in
        (
          record manager { tunnels = insert node_id tunnel' manager.tunnels },
          handshake_of tunnel.addr node_id event,
        )

  unfoldable pub dial_each :
      TunnelManager wireguard → List HeartbeatNode → TunnelManager wireguard × List Handshake
  unfolding dial
  dial_each manager [] = (manager, [])
  dial_each manager (node ∷ nodes) =
      let (dialled, handshakes) = dial manager node.node_id (get node.node_id manager.tunnels) in
      let (last, more) = dial_each dialled nodes in (last, handshakes ++ more)

  unfoldable pub evict_each : FlowTable → List String → FlowTable
  unfolding evict_node
  evict_each table [] = table
  evict_each table (node_id ∷ node_ids) = evict_each (evict_node table node_id) node_ids

  unfoldable pub dial_new_nodes :
      TunnelManager wireguard
      → List HeartbeatNode
      → FlowTable
      → TunnelManager wireguard × FlowTable × List Handshake
  unfolding sync_nodes dial_each evict_each
  dial_new_nodes manager nodes table =
      let (synced, dropped) = sync_nodes wireguard manager nodes in
      let (dialled, handshakes) = dial_each synced nodes in
      (dialled, evict_each table dropped, handshakes)
