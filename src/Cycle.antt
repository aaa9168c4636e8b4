-- ===== src/Cycle.antt =====
-- src/main.rs: one heartbeat, from what it reports to what its answer changes. The writing of the
-- audit log and the sending of the handshakes, which may fail and change nothing else, are left out.
pub mod Invariant
pub mod Trust
pub mod Revoked
pub mod Answers
pub mod Reports
use secure_connect_connector.Package.{Connector, Libraries, Surroundings, put_in_force}
use Prim.Native.String.{String}
use secure_connect_connector.AgentDirectory.{Answer, answered, heartbeat}
use secure_connect_connector.Audit.{AuditEvent, policy_applied, policy_rejected, record_event}
use secure_connect_connector.Dialling.{Handshake}
use secure_connect_connector.Dto.{ConnectorHeartbeatResponse, PolicyBundle}
use secure_connect_connector.Endpoints.{unresolved_hosts_in}
use secure_connect_connector.GatewayEnd.{GatewayEndReport, acknowledge, pending, report_ids}
use secure_connect_connector.Heartbeat.{ConnectorHeartbeatRequest}
use secure_connect_connector.Policy.{
  Applied, PolicyState, applied, apply_at, current, expired, unparseable,
}
use secure_connect_connector.Net.{Ipv4Addr, parse_ipv4}
use secure_connect_connector.Base.{List, Option, [], and_then, length, option_map, string_key}

module _ (libraries : Libraries) where
  open libraries use {crypto, parsers, serde, error_text}

  pub data Beat : Type 0 where
    beaten : Option Ipv4Addr → Beat
    heartbeat_failed : Answer ConnectorHeartbeatResponse → Beat
    package_rejected : Applied → Beat

  abbrev pub audit_of : ConnectorHeartbeatResponse → Applied → AuditEvent
  audit_of response applied =
      policy_applied response.connector_id (length response.policy_bundles)
        (length response.node_list)
  audit_of response unparseable = policy_rejected (error_text unparseable)
  audit_of response expired = policy_rejected (error_text expired)

  -- Past the application of the package: the rest of the heartbeat, unless it was rejected.
  unfoldable pub finish :
      Surroundings serde.Bytes
      → Connector libraries
      → Option (List PolicyBundle)
      → ConnectorHeartbeatResponse
      → Applied
      → Connector libraries × List Handshake × Beat
  unfolding put_in_force
  finish around c old_bundles response applied =
      let (in_force, handshakes) = put_in_force libraries around c old_bundles response in
      (in_force, handshakes, beaten (and_then response.connector_virtual_ip parse_ipv4))
  finish around c old_bundles response unparseable = (c, [], package_rejected unparseable)
  finish around c old_bundles response expired = (c, [], package_rejected expired)

  -- A verified response: its reports are delivered, and its package is applied, or rejected.
  unfoldable pub apply_response :
      Surroundings serde.Bytes
      → Connector libraries
      → List String
      → ConnectorHeartbeatResponse
      → Connector libraries × Applied
  unfolding acknowledge apply_at
  apply_response around c sent_report_ids response =
      let queue =
        (acknowledge serde around.acknowledge_saving c.gateway_end_queue sent_report_ids).0 in
      let (store, result) =
        apply_at parsers.parse_from_rfc3339 c.policy_store response around.utc_now in
      (
        record c {
          gateway_end_queue = queue;
          policy_store = store;
          audit_log = record_event c.audit_log (audit_of response result);
        },
        result,
      )

  abbrev pub take_answer :
      Surroundings serde.Bytes
      → Connector libraries
      → Option (List PolicyBundle)
      → List String
      → Answer ConnectorHeartbeatResponse
      → Connector libraries × List Handshake × Beat
  take_answer around c old_bundles sent_report_ids (answered response) =
      let (taken, result) = apply_response around c sent_report_ids response in
      finish around taken old_bundles response result
  take_answer around c old_bundles sent_report_ids error = (c, [], heartbeat_failed error)

  -- The request that a heartbeat sends.
  abbrev pub request_of :
      String → Connector libraries → List GatewayEndReport → ConnectorHeartbeatRequest
  request_of connector_public_key c ended_flows = record {
    connector_public_key = connector_public_key;
    unresolved_endpoint_hosts =
        option_map (λ (state : PolicyState). unresolved_hosts_in state.policy_bundles c.dns_cache)
          (current c.policy_store);
    ended_flows = ended_flows;
  }

  -- The heartbeat's request and its answer.
  unfoldable pub ask :
      String
      → Surroundings serde.Bytes
      → Connector libraries
      → Connector libraries × List GatewayEndReport × Answer ConnectorHeartbeatResponse
  unfolding pending heartbeat unresolved_hosts_in
  ask connector_public_key around c =
      let (queue, ended_flows) =
        pending serde around.pending_saving c.gateway_end_queue around.now_ms in
      let (directory, answer) =
        heartbeat crypto parsers around.network c.directory
          (request_of connector_public_key c ended_flows) in
      (record c { directory = directory; gateway_end_queue = queue }, ended_flows, answer)

  abbrev pub bundles_in_force : Connector libraries → Option (List PolicyBundle)
  bundles_in_force c =
      option_map (λ (state : PolicyState). state.policy_bundles) (current c.policy_store)

  unfoldable pub run_heartbeat :
      String
      → Surroundings serde.Bytes
      → Connector libraries
      → Connector libraries × List Handshake × Beat
  unfolding ask apply_response finish
  run_heartbeat connector_public_key around c =
      let (asked, sent, answer) = ask connector_public_key around c in
      take_answer around asked (bundles_in_force c) (report_ids sent) answer
