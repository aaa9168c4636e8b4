-- ===== src/Package.antt =====
-- src/main.rs: what a heartbeat package that is in force changes: `queue_gateway_end_reports`, and the
-- part of `run_heartbeat` past the application of the package. Its parts run one after the other on
-- the state that they share; a failed write is logged and no more.
use Prim.Native.String.{String}
use secure_connect_connector.AdmissionPoller.Pollers.{AdmissionPollers, sync}
use secure_connect_connector.AgentDirectory.{AgentDirectory, Network}
use secure_connect_connector.Audit.{AuditEvent, AuditLog, flows_ended, record_events}
use secure_connect_connector.Crypto.{Library}
use secure_connect_connector.Dialling.{Handshake, dial_new_nodes}
use secure_connect_connector.DnsCache.{DnsCache, Lookup, refresh_with}
use secure_connect_connector.Dto.{ConnectorHeartbeatResponse, PolicyBundle}
use secure_connect_connector.Endpoints.{
  bundle_audit_events, collect_endpoint_hosts, reconcile_endpoint_changes,
}
use secure_connect_connector.FlowTable.Types.{FlowTable}
use secure_connect_connector.GatewayEnd.{GatewayEndQueue, GatewayEndReport, Saving, Serde, enqueue}
use secure_connect_connector.Heartbeat.{Parsers}
use secure_connect_connector.Policy.{Applied, PolicyStore}
use secure_connect_connector.Revocation.{reconcile_dropped_entitlements}
use secure_connect_connector.TunnelManager.{TunnelManager, WireGuard}
use secure_connect_connector.Base.{List, Option, map, none, some, string_key, ℕ}

-- The libraries that a heartbeat calls.
pub record Libraries : Type 1 where
  pub wireguard : WireGuard
  pub crypto : Library
  pub parsers : Parsers
  pub serde : Serde
  pub digest : List (String × Option String) → String
  pub error_text : Applied → String

-- What the surroundings do in one heartbeat: the network's answers, the clocks, how the saves of the
-- reports go, the resolver's answers and the random report ids.
pub record Surroundings (Bytes : Type 0) : Type 0 where
  pub network : Network
  pub utc_now : ℕ
  pub now_ms : ℕ
  pub instant : ℕ
  pub pending_saving : Saving Bytes
  pub acknowledge_saving : Saving Bytes
  pub enqueue_saving : Saving Bytes
  pub lookup : String → Lookup
  pub new_report_id : ℕ → String

module _ (libraries : Libraries) where
  open libraries use {wireguard, serde, digest}

  pub record Connector : Type 0 where
    pub directory : AgentDirectory
    pub policy_store : PolicyStore
    pub audit_log : AuditLog
    pub tunnel_manager : TunnelManager wireguard
    pub flow_table : FlowTable
    pub dns_cache : DnsCache
    pub admission_pollers : AdmissionPollers
    pub gateway_end_queue : GatewayEndQueue serde.Bytes

  abbrev pub ended_event : GatewayEndReport → AuditEvent
  ended_event report =
      flows_ended report.gateway_id report.user_id report.device_public_key report.flows_ended
        report.report_id

  -- `queue_gateway_end_reports`
  unfoldable pub queue_gateway_end_reports :
      Surroundings serde.Bytes → Connector → List GatewayEndReport → Connector
  unfolding enqueue
  queue_gateway_end_reports around c reports = record c {
    audit_log = record_events c.audit_log (map ended_event reports);
    gateway_end_queue = (enqueue serde around.enqueue_saving c.gateway_end_queue reports).0;
  }

  -- The entitlements that were dropped since the bundles in force before, if any were.
  unfoldable pub reconcile_entitlements :
      Surroundings serde.Bytes
      → Connector
      → Option (List PolicyBundle)
      → List PolicyBundle
      → Connector
  unfolding reconcile_dropped_entitlements queue_gateway_end_reports
  reconcile_entitlements around c none new_bundles = c
  reconcile_entitlements around c (some old_bundles) new_bundles =
      let reconciled =
        reconcile_dropped_entitlements around.new_report_id new_bundles around.now_ms c.flow_table
          old_bundles in
      queue_gateway_end_reports around (record c { flow_table = reconciled.flow_table })
        reconciled.reports

  -- The bundles' audit entries, the tunnels and the pollers.
  unfoldable pub follow_nodes :
      Connector
      → Option (List PolicyBundle)
      → ConnectorHeartbeatResponse
      → Connector × List Handshake
  unfolding bundle_audit_events dial_new_nodes sync
  follow_nodes c old_bundles response =
      let (manager, table, handshakes) =
        dial_new_nodes wireguard c.tunnel_manager response.node_list c.flow_table in
      (
        record c {
          audit_log =
              record_events c.audit_log
                (bundle_audit_events digest old_bundles response.policy_bundles);
          tunnel_manager = manager;
          flow_table = table;
          admission_pollers = sync c.admission_pollers response.connector_id response.node_list;
        },
        handshakes,
      )

  -- The admitted flows' rules, and the hosts that they lead to.
  unfoldable pub follow_rules : Surroundings serde.Bytes → Connector → List PolicyBundle → Connector
  unfolding reconcile_endpoint_changes collect_endpoint_hosts refresh_with
  follow_rules around c new_bundles =
      let (table, events) = reconcile_endpoint_changes c.flow_table new_bundles around.instant in
      record c {
        flow_table = table;
        audit_log = record_events c.audit_log events;
        dns_cache = refresh_with c.dns_cache (collect_endpoint_hosts new_bundles) around.lookup;
      }

  -- What a package that is in force changes.
  unfoldable pub put_in_force :
      Surroundings serde.Bytes
      → Connector
      → Option (List PolicyBundle)
      → ConnectorHeartbeatResponse
      → Connector × List Handshake
  unfolding follow_nodes reconcile_entitlements follow_rules
  put_in_force around c old_bundles response =
      let (dialled, handshakes) = follow_nodes c old_bundles response in
      let reconciled = reconcile_entitlements around dialled old_bundles response.policy_bundles in
      (follow_rules around reconciled response.policy_bundles, handshakes)
