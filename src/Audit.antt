-- ===== src/Audit.antt =====
-- src/audit.rs: the audit log's events. The log is the list of its entries, the latest first;
-- writing it to disk, which may fail and changes nothing else, is not modelled.
use secure_connect_connector.Dto.{PortRule}
use secure_connect_connector.Base.{List, Option, String, [], ℕ, ◌∷◌}

-- One flow of a `flows_ended_by_rule_change` entry.
pub record EndedFlow : Type 0 where
  pub flow_id : String
  pub device_public_key : String

pub data AuditEvent : Type 0 where
  policy_applied : (connector_id : String) (gateway_count node_count : ℕ) → AuditEvent
  policy_rejected : (reason : String) → AuditEvent
  policy_bundle_applied :
      (gateway_id location hostname : String) (port_rules : List PortRule) → AuditEvent
  entitlement_list_received :
      (gateway_id : String) (entitlement_count : ℕ) (entitlement_list_sha256 : String) → AuditEvent
  access_allowed : (gateway_id user_id device_public_key : String) → AuditEvent
  access_refused : (gateway_id device_public_key reason : String) → AuditEvent
  flow_released : (flow_id gateway_id : String) → AuditEvent
  flow_admitted :
      (flow_id gateway_id device_public_key : String) (port_rule warning : Option String)
      → AuditEvent
  flows_ended_by_rule_change :
      (gateway_id : String) (flows_ended : ℕ) (flows : List EndedFlow) → AuditEvent
  flows_ended :
      (gateway_id user_id device_public_key : String) (flows_ended : ℕ) (report_id : String)
      → AuditEvent

abbrev pub AuditLog : Type 0
AuditLog = List AuditEvent

-- `AuditLog::record`
abbrev pub record_event : AuditLog → AuditEvent → AuditLog
record_event audit_log event = event ∷ audit_log

-- A call of `record` for each event.
abbrev pub record_events : AuditLog → List AuditEvent → AuditLog
record_events audit_log [] = audit_log
record_events audit_log (event ∷ events) = record_events (record_event audit_log event) events
