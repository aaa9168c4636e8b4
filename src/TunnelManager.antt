-- ===== src/TunnelManager.antt =====
-- src/tunnel.rs: the tunnels to the nodes, one to a node. What WireGuard does (boringtun's `Tunn`)
-- and the reading of addresses and keys are the fields of a record.
use Prim.Native.String.{String}
pub mod Sync
pub mod Nodes
use secure_connect_connector.Dto.{HeartbeatNode}
use secure_connect_connector.HashMap.{HashMap, get, insert, retain}
use secure_connect_connector.Net.{Ipv4Addr, Ipv4Addr-discrete, from_secs, ipv4_key}
use secure_connect_connector.Base.{
  Bool, Key, List, Option, [], elem, false, if◌then◌else◌, is_some, length, ltb, nat_key, none,
  some, string_key, ℕ, ℕ_discrete, ◌%◌, ◌&&◌, ◌++◌, ◌+◌, ◌==◌, ◌^◌, ◌∷◌,
}

-- `IpAddr`; a version 6 address is its number.
pub data IpAddr : Type 0 where
  v4 : Ipv4Addr → IpAddr
  v6 : ℕ → IpAddr

pub record SocketAddr : Type 0 where
  pub ip : IpAddr
  pub port : ℕ

unfoldable pub SocketAddr-discrete : Discrete SocketAddr
unfolding Ipv4Addr-discrete ℕ_discrete
SocketAddr-discrete = hlevel (Ipv4Addr-discrete, ℕ_discrete)

instance abbrev pub socket_addr_key : Key SocketAddr
socket_addr_key = record { discrete = SocketAddr-discrete }

abbrev pub wireguard_port : ℕ
wireguard_port = 51820

abbrev pub session_reject_after : ℕ
session_reject_after = from_secs 180

-- `boringtun::noise::TunnResult`
pub data TunnResult : Type 0 where
  write_to_network : List ℕ → TunnResult
  write_to_tunnel_v4 write_to_tunnel_v6 : List ℕ → TunnResult
  done : TunnResult
  err : String → TunnResult

pub data TunnelEvent : Type 0 where
  send_to_node : List ℕ → TunnelEvent
  decrypted_data : List ℕ → TunnelEvent
  nothing : TunnelEvent
  protocol_error : String → TunnelEvent

-- `From<TunnResult> for TunnelEvent`
unfoldable pub event_of : TunnResult → TunnelEvent
event_of (write_to_network packet) = send_to_node packet
event_of (write_to_tunnel_v4 packet) = decrypted_data packet
event_of (write_to_tunnel_v6 packet) = decrypted_data packet
event_of done = nothing
event_of (err error) = protocol_error error

-- A `Tunn` is made of the node's public key and an index; the Connector's own secret and the rate
-- limiter are the same for all.
pub record WireGuard : Type 1 where
  pub Tunn : Type 0
  pub new_tunn : (public_key : List ℕ) (index : ℕ) → Tunn
  pub format_handshake_initiation : Tunn → Tunn × TunnResult
  pub decapsulate : Tunn → IpAddr → List ℕ → Tunn × TunnResult
  pub encapsulate : Tunn → List ℕ → Tunn × TunnResult
  pub update_timers : Tunn → Tunn × TunnResult
  pub time_since_last_handshake : Tunn → Option ℕ
  pub base64_decode : String → Option (List ℕ)
  pub parse_ip : String → Option IpAddr

module _ (wireguard : WireGuard) where
  open wireguard use {
    Tunn, new_tunn, format_handshake_initiation, decapsulate, encapsulate, update_timers,
    time_since_last_handshake, base64_decode, parse_ip,
  }

  pub record NodeTunnel : Type 0 where
    pub tunn : Tunn
    pub node_id : String
    pub addr : SocketAddr
    pub key_base64 : String

  -- A call of the `Tunn` of a tunnel.
  abbrev advance : NodeTunnel → Tunn × TunnResult → NodeTunnel × TunnelEvent
  advance tunnel (tunn, result) = (record tunnel { tunn = tunn }, event_of result)

  unfoldable pub initiate_handshake : NodeTunnel → NodeTunnel × TunnelEvent
  unfolding event_of
  initiate_handshake tunnel = advance tunnel (format_handshake_initiation tunnel.tunn)

  unfoldable pub receive : NodeTunnel → List ℕ → NodeTunnel × TunnelEvent
  unfolding event_of
  receive tunnel datagram = advance tunnel (decapsulate tunnel.tunn tunnel.addr.ip datagram)

  unfoldable pub drive_timers : NodeTunnel → NodeTunnel × TunnelEvent
  unfolding event_of
  drive_timers tunnel = advance tunnel (update_timers tunnel.tunn)

  -- `NodeTunnel::encapsulate`
  unfoldable pub encapsulate_packet : NodeTunnel → List ℕ → NodeTunnel × TunnelEvent
  unfolding event_of
  encapsulate_packet tunnel packet = advance tunnel (encapsulate tunnel.tunn packet)

  unfoldable pub is_established : NodeTunnel → Bool
  is_established tunnel = elim (time_since_last_handshake tunnel.tunn) [
    | none ↦ false
    | some elapsed ↦ ltb elapsed session_reject_after
  ]

  pub record TunnelManager : Type 0 where
    pub tunnels : HashMap String NodeTunnel
    pub next_index : ℕ

  unfoldable pub new : TunnelManager
  new = record { tunnels = []; next_index = 0 }

  unfoldable pub decode_public_base64 : String → Option (List ℕ)
  decode_public_base64 value = elim (base64_decode value) [
    | none ↦ none
    | some bytes ↦ if length bytes == 32 then some bytes else none
  ]

  -- The tunnel, where the key and the address can be read, and the manager, which has then used
  -- an index: a `u32`, with its wrap-around.
  unfoldable pub build_tunnel :
      TunnelManager → HeartbeatNode → String → TunnelManager × Option NodeTunnel
  unfolding decode_public_base64
  build_tunnel manager node public_key_base64 = elim (decode_public_base64 public_key_base64) [
    | none ↦ (manager, none)
    | some public_key ↦ elim (parse_ip node.ip_address) [
      | none ↦ (manager, none)
      | some ip ↦ (
        record manager { next_index = (manager.next_index + 1) % 2 ^ 32 },
        some (record {
          tunn = new_tunn public_key manager.next_index;
          node_id = node.node_id;
          addr = record { ip = ip; port = wireguard_port };
          key_base64 = public_key_base64;
        }),
      )
    ]
  ]

  -- Whether a tunnel was built from the address and the key that a node reports.
  unfoldable pub is_unchanged : NodeTunnel → HeartbeatNode → String → Bool
  is_unchanged existing node wireguard_public_key = elim (parse_ip node.ip_address) [
    | none ↦ false
    | some ip ↦
        let addr : SocketAddr = record { ip = ip; port = wireguard_port } in
        addr == existing.addr && existing.key_base64 == wireguard_public_key
  ]

  abbrev pub keep_built : String → TunnelManager × Option NodeTunnel → TunnelManager
  keep_built node_id (manager, none) = manager
  keep_built node_id (manager, some tunnel) = record manager {
    tunnels = insert node_id tunnel manager.tunnels;
  }

  abbrev pub is_kept : Option NodeTunnel → HeartbeatNode → String → Bool
  is_kept none node key = false
  is_kept (some existing) node key = is_unchanged existing node key

  -- One node of the list, with the key that it reports.
  unfoldable pub sync_node : TunnelManager → HeartbeatNode → Option String → TunnelManager
  unfolding build_tunnel is_unchanged
  sync_node manager node none = manager
  sync_node manager node (some wireguard_public_key) =
      if is_kept (get node.node_id manager.tunnels) node wireguard_public_key
      then manager
      else keep_built node.node_id (build_tunnel manager node wireguard_public_key)

  unfoldable pub sync_each : TunnelManager → List HeartbeatNode → TunnelManager
  unfolding sync_node
  sync_each manager [] = manager
  sync_each manager (node ∷ nodes) =
      sync_each (sync_node manager node node.wireguard_public_key) nodes

  -- `seen`: the nodes that report a key.
  unfoldable pub seen_ids : List HeartbeatNode → List String
  seen_ids [] = []
  seen_ids (node ∷ nodes) =
      if is_some node.wireguard_public_key then node.node_id ∷ seen_ids nodes else seen_ids nodes

  unfoldable pub keys_unseen : List String → HashMap String NodeTunnel → List String
  unfolding elem
  keys_unseen seen [] = []
  keys_unseen seen ((node_id, tunnel) ∷ tunnels) =
      if elem node_id seen then keys_unseen seen tunnels else node_id ∷ keys_unseen seen tunnels

  unfoldable pub sync_nodes : TunnelManager → List HeartbeatNode → TunnelManager × List String
  unfolding sync_each seen_ids keys_unseen
  sync_nodes manager nodes =
      let synced = sync_each manager nodes in
      let seen = seen_ids nodes in
      (
        record synced { tunnels = retain (λ node_id _. elem node_id seen) synced.tunnels },
        keys_unseen seen synced.tunnels,
      )

  -- The first of the tunnels to an address. Where two nodes report one address, the source takes
  -- either.
  unfoldable pub tunnel_for_addr : SocketAddr → HashMap String NodeTunnel → Option NodeTunnel
  tunnel_for_addr addr [] = none
  tunnel_for_addr addr ((node_id, tunnel) ∷ tunnels) =
      if tunnel.addr == addr then some tunnel else tunnel_for_addr addr tunnels

  abbrev packet_of : SocketAddr → TunnelEvent → List (List ℕ × SocketAddr)
  packet_of addr (send_to_node packet) = (packet, addr) ∷ []
  packet_of addr (decrypted_data packet) = []
  packet_of addr nothing = []
  packet_of addr (protocol_error error) = []

  -- The loop of `drive_all_timers`.
  unfoldable pub drive_each :
      HashMap String NodeTunnel → HashMap String NodeTunnel × List (List ℕ × SocketAddr)
  unfolding drive_timers
  drive_each [] = ([], [])
  drive_each ((node_id, tunnel) ∷ tunnels) =
      let (tunnel', event) = drive_timers tunnel in
      let (tunnels', packets) = drive_each tunnels in
      ((node_id, tunnel') ∷ tunnels', packet_of tunnel.addr event ++ packets)

  unfoldable pub drive_all_timers : TunnelManager → TunnelManager × List (List ℕ × SocketAddr)
  unfolding drive_each
  drive_all_timers manager =
      let (tunnels, packets) = drive_each manager.tunnels in
      (record manager { tunnels = tunnels }, packets)
