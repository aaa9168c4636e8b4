-- ===== src/FlowControl/Handlers.antt =====
-- src/flow_control.rs: the handlers of an admission, of a host name and of a release.
use secure_connect_connector.Policy.{PolicyStore}
use secure_connect_connector.FlowTable.Rules.{matching_rule}
use secure_connect_connector.FlowTable.Types.{Dialled, FlowTable}
use secure_connect_connector.Audit.{AuditLog, flow_admitted, flow_released, record_event}
use secure_connect_connector.FlowTable.RuleChanges.{current_rules}
use secure_connect_connector.Dto.{PortRule, describe, rules}
use secure_connect_connector.Crypto.{Library}
use secure_connect_connector.FlowTable.Flows.{admit_flow, was_recently_released}
use secure_connect_connector.Base.{
  List, Option, String, if◌then◌else◌, none, option_map, some, unwrap_or, ℕ, ◌>>=◌,
}
use secure_connect_connector.FlowControl.{
  AdmissionOutcome, DnsAdmissionRequest, DnsAdmissionResponse, FlowAdmissionRequest,
  FlowAdmissionResponse, FlowReleaseRequest, Recorded, admitted, admitted_without_dialled_identity,
  already_released, authenticate_and_decide, dialled,
}

-- The rule that will forward the flow's packets, as the log names it.
unfoldable pub named_rule : List PortRule → Option Dialled → Option String
unfolding describe matching_rule
named_rule rules identity = do
  packet ← identity
  option_map describe (matching_rule rules (some packet.transport) packet.destination_port)

-- The part of the handler that holds the table's lock, from the rules that it admits by.
unfoldable pub record_flow :
    FlowTable → FlowAdmissionRequest → String → List PortRule → ℕ → FlowTable × Recorded
unfolding was_recently_released admit_flow dialled
record_flow table request device_public_key rules instant =
    if was_recently_released table request.flow_id instant then (table, already_released) else (
      admit_flow table request.node_id request.port (dialled request) request.gateway_id
          request.flow_id device_public_key rules,
      elim (dialled request) [ some _ ↦ admitted | none ↦ admitted_without_dialled_identity ],
    )

-- `port_rule` and `warning` of the audit entry.
unfoldable pub admission_notes : Recorded → Option String → Option String × Option String
admission_notes admitted (some rule) = (some rule, none)
admission_notes admitted none =
    (none, some "no single port rule serves the flow's transport and port")
admission_notes admitted_without_dialled_identity _ =
    (none, some "the node sent no dialled port; only rules with equal ports serve the flow")
admission_notes already_released _ = (none, none)

-- The log after the handler's own entry, and its response, of what was recorded.
unfoldable pub respond :
    AuditLog
    → FlowAdmissionRequest
    → String
    → Option String
    → Recorded
    → AuditLog × FlowAdmissionResponse
unfolding admission_notes
respond audit_log request device_public_key rule already_released = (
  audit_log,
  record { flow_id = request.flow_id; decision = "refuse"; reason = some "flow_already_released" },
)
respond audit_log request device_public_key rule recorded =
    let (port_rule, warning) = admission_notes recorded rule in
    (
      record_event audit_log
          (flow_admitted request.flow_id request.gateway_id device_public_key port_rule warning),
      record { flow_id = request.flow_id; decision = "admit"; reason = none },
    )

pub record Handled : Type 0 where
  pub audit_log : AuditLog
  pub flow_table : FlowTable
  pub response : FlowAdmissionResponse

-- The handler from the outcome of `authenticate_and_decide`.
unfoldable pub handle_outcome :
    AuditLog → FlowTable → FlowAdmissionRequest → AdmissionOutcome → ℕ → Handled
unfolding current_rules record_flow named_rule respond
handle_outcome audit_log table request (AdmissionOutcome.refused reason) instant = record {
  audit_log = audit_log;
  flow_table = table;
  response = record { flow_id = request.flow_id; decision = "refuse"; reason = some reason };
}
handle_outcome audit_log table request (AdmissionOutcome.allowed device_public_key rules) instant =
    let current = unwrap_or (current_rules table request.gateway_id) rules in
    let (next, recorded) = record_flow table request device_public_key current instant in
    let (log, response) =
      respond audit_log request device_public_key (named_rule current (dialled request)) recorded in
    record { audit_log = log; flow_table = next; response = response }

-- The response on a host name, of the outcome of `authenticate_and_decide`.
unfoldable pub dns_response : AdmissionOutcome → DnsAdmissionResponse
dns_response (AdmissionOutcome.allowed _ _) = record { decision = "admit"; reason = none }
dns_response (AdmissionOutcome.refused reason) = record {
  decision = "refuse";
  reason = some reason;
}

module _ (library : Library) (parse_from_rfc3339 : String → Option ℕ) where
  -- `handle_flow_admission`, at a time of day and an instant.
  unfoldable pub handle_flow_admission :
      PolicyStore → AuditLog → FlowTable → FlowAdmissionRequest → ℕ → ℕ → Option Handled
  unfolding authenticate_and_decide handle_outcome
  handle_flow_admission store audit_log table request now instant =
      option_map
        (λ ((log, outcome) : AuditLog × AdmissionOutcome).
          handle_outcome log table request outcome instant)
        (authenticate_and_decide library parse_from_rfc3339 store audit_log request.gateway_id
          request.user_public_key request.signature request.signed_data now)

  unfoldable pub handle_dns_admission :
      PolicyStore → AuditLog → DnsAdmissionRequest → ℕ → Option (AuditLog × DnsAdmissionResponse)
  unfolding authenticate_and_decide dns_response
  handle_dns_admission store audit_log request now =
      option_map (λ ((log, outcome) : AuditLog × AdmissionOutcome). (log, dns_response outcome))
        (authenticate_and_decide library parse_from_rfc3339 store audit_log request.gateway_id
          request.user_public_key request.signature request.signed_data now)

-- `handle_flow_release`
unfoldable pub handle_flow_release : AuditLog → FlowReleaseRequest → AuditLog
handle_flow_release audit_log request =
    record_event audit_log (flow_released request.flow_id request.gateway_id)
