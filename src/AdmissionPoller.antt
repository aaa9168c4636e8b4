-- ===== src/AdmissionPoller.antt =====
-- src/admission_poller.rs: the messages that a Gatekeeper's long poll delivers, and the pollers that
-- a heartbeat's node list keeps running. The HTTP exchanges are left out: a result that a handler
-- posts is listed, and the port that the socket gets is an argument.
pub mod Pollers
pub mod Messages
pub mod Releases
pub mod Admitted
pub mod Origins
use secure_connect_connector.Audit.{AuditLog}
use secure_connect_connector.Crypto.{Library}
use secure_connect_connector.FlowTable.Types.{FlowTable}
use secure_connect_connector.Policy.{PolicyStore}
use secure_connect_connector.FlowTable.ControlPorts.{record_outbound_control_channel_port}
use secure_connect_connector.FlowTable.Pending.{take_pending}
use secure_connect_connector.FlowTable.Flows.{release}
use secure_connect_connector.Base.{
  List, Option, String, [], and_then, if◌then◌else◌, none, option_map, some, string_key, ℕ, ◌==◌,
  ◌∷◌,
}
use secure_connect_connector.FlowControl.{
  DnsAdmissionRequest, DnsAdmissionResponse, FlowAdmissionRequest, FlowAdmissionResponse,
  FlowReleaseRequest, dialled,
}
use secure_connect_connector.FlowControl.Handlers.{
  Handled, handle_dns_admission, handle_flow_admission, handle_flow_release,
}

pub record ConnectorPollResponse : Type 0 where
  pub kind : String
  pub admission : Option FlowAdmissionRequest
  pub released : Option FlowReleaseRequest
  pub dns_admission : Option DnsAdmissionRequest

-- What is posted to `admission-result`.
pub data PostedResult : Type 0 where
  flow_result : FlowAdmissionResponse → PostedResult
  dns_result : (correlation_id : String) → DnsAdmissionResponse → PostedResult

-- `ControlPlaneState`, with the packets sent to `recovered_packet_tx` and the results posted, each
-- the latest first.
pub record ControlPlaneState : Type 0 where
  pub policy_store : PolicyStore
  pub audit_log : AuditLog
  pub flow_table : FlowTable
  pub recovered : List (String × List ℕ)
  pub results : List PostedResult

-- When a handler reads its clocks, and the port that its socket gets.
pub record Moment : Type 0 where
  pub now : ℕ
  pub instant : ℕ
  pub reclaimed_at : ℕ
  pub local_port : Option ℕ

-- `connect_registered`: the socket's port is the node's before the first packet leaves.
unfoldable pub connect_registered : FlowTable → String → Option ℕ → FlowTable
unfolding record_outbound_control_channel_port
connect_registered table node_id none = table
connect_registered table node_id (some port) =
    record_outbound_control_channel_port table node_id port

-- The send on `recovered_packet_tx`.
unfoldable pub hand_back :
    List (String × List ℕ) → String → Option (List ℕ) → List (String × List ℕ)
hand_back recovered node_id none = recovered
hand_back recovered node_id (some packet) = (node_id, packet) ∷ recovered

-- The part of `handle_admission` after the handler.
unfoldable pub finish_admission :
    ControlPlaneState → String → FlowAdmissionRequest → Moment → Handled → ControlPlaneState
unfolding take_pending hand_back connect_registered dialled
finish_admission state node_id request moment handled =
    let (table, packet) =
      if handled.response.decision == "admit"
      then take_pending handled.flow_table node_id request.port (dialled request)
          moment.reclaimed_at
      else (handled.flow_table, none) in
    record state {
      audit_log = handled.audit_log;
      flow_table = connect_registered table node_id moment.local_port;
      recovered = hand_back state.recovered node_id packet;
      results = flow_result handled.response ∷ state.results;
    }

-- `handle_release`
unfoldable pub handle_release :
    ControlPlaneState → Option FlowReleaseRequest → ℕ → ControlPlaneState
unfolding release handle_flow_release
handle_release state none instant = state
handle_release state (some request) instant = record state {
  flow_table = release state.flow_table request.flow_id instant;
  audit_log = handle_flow_release state.audit_log request;
}

module _ (library : Library) (parse_from_rfc3339 : String → Option ℕ) where
  -- `handle_admission`
  unfoldable pub handle_admission :
      ControlPlaneState → String → Option FlowAdmissionRequest → Moment → Option ControlPlaneState
  unfolding handle_flow_admission finish_admission
  handle_admission state node_id none moment = some state
  handle_admission state node_id (some request) moment =
      option_map (finish_admission state node_id request moment) (
        handle_flow_admission library parse_from_rfc3339 state.policy_store state.audit_log
          state.flow_table request moment.now moment.instant)

  -- `handle_dns`
  unfoldable pub handle_dns :
      ControlPlaneState → String → Option DnsAdmissionRequest → Moment → Option ControlPlaneState
  unfolding handle_dns_admission connect_registered
  handle_dns state node_id none moment = some state
  handle_dns state node_id (some request) moment =
      option_map
        (λ ((log, response) : AuditLog × DnsAdmissionResponse). record state {
          audit_log = log;
          flow_table = connect_registered state.flow_table node_id moment.local_port;
          results = dns_result request.correlation_id response ∷ state.results;
        })
        (handle_dns_admission library parse_from_rfc3339 state.policy_store state.audit_log request
          moment.now)

  -- `handle_message`
  unfoldable pub handle_message :
      ControlPlaneState → String → ConnectorPollResponse → Moment → Option ControlPlaneState
  unfolding handle_admission handle_dns handle_release
  handle_message state node_id message moment =
      if message.kind == "admission"
      then handle_admission state node_id message.admission moment
      else if message.kind == "dns_admission"
      then handle_dns state node_id message.dns_admission moment
      else if message.kind == "release"
      then some (handle_release state message.released moment.instant)
      else some state

  -- The messages that one or more pollers handle, in the order in which their handlers run; there is
  -- no result where one of them has none.
  unfoldable pub handle_messages :
      ControlPlaneState → List (String × ConnectorPollResponse × Moment) → Option ControlPlaneState
  unfolding handle_message
  handle_messages state [] = some state
  handle_messages state ((node_id, message, moment) ∷ later) =
      and_then (handle_message state node_id message moment) (λ next. handle_messages next later)
