-- ===== src/FlowControl.antt =====
-- src/flow_control.rs: the admission of flows and of host names, and the release of flows. The
-- audit entries are those that `record` is called with, one that is written in the background
-- included; the logging is left out.
pub mod Handlers
pub mod Decisions
pub mod Admissions
use secure_connect_connector.Audit.{AuditLog, access_refused, record_event}
use secure_connect_connector.Policy.{PolicyStore}
use secure_connect_connector.FlowTable.Types.{Dialled, from_wire}
use secure_connect_connector.Crypto.{Library, verify_base64}
use secure_connect_connector.Dto.{PortRule, rules}
use secure_connect_connector.Access.{AccessDecision, as_wire_str, decide_access_and_audit}
use secure_connect_connector.Net.{parse_ipv4}
use secure_connect_connector.Base.{
  List, Option, String, if◌then◌else◌, none, option_map, some, unwrap_or, ℕ, ◌>>=◌,
}

pub record FlowAdmissionRequest : Type 0 where
  pub flow_id : String
  pub gateway_id : String
  pub node_id : String
  pub port : ℕ
  pub user_public_key : Option String
  pub signature : Option String
  pub signed_data : Option String
  pub transport : Option String
  pub gateway_address : Option String
  pub destination_port : Option ℕ

-- `FlowAdmissionRequest::dialled`
unfoldable pub dialled : FlowAdmissionRequest → Option Dialled
unfolding from_wire
dialled request = do
  value ← request.transport
  transport ← from_wire value
  text ← request.gateway_address
  gateway_address ← parse_ipv4 text
  destination_port ← request.destination_port
  some (record {
    transport = transport;
    gateway_address = gateway_address;
    destination_port = destination_port;
  })

pub data Recorded : Type 0 where
  admitted admitted_without_dialled_identity already_released : Recorded

pub record FlowAdmissionResponse : Type 0 where
  pub flow_id : String
  pub decision : String
  pub reason : Option String

pub record FlowReleaseRequest : Type 0 where
  pub flow_id : String
  pub gateway_id : String
  pub port : ℕ

pub record DnsAdmissionRequest : Type 0 where
  pub correlation_id : String
  pub gateway_id : String
  pub hostname : String
  pub user_public_key : Option String
  pub signature : Option String
  pub signed_data : Option String

pub record DnsAdmissionResponse : Type 0 where
  pub decision : String
  pub reason : Option String

pub data AdmissionOutcome : Type 0 where
  allowed : (device_public_key : String) (rules : List PortRule) → AdmissionOutcome
  refused : (reason : String) → AdmissionOutcome

-- What `authenticate_and_decide` makes of an access decision.
unfoldable pub outcome_of_decision : String → AccessDecision → AdmissionOutcome
unfolding as_wire_str
outcome_of_decision user_public_key (AccessDecision.allowed _ rules) =
    AdmissionOutcome.allowed user_public_key rules
outcome_of_decision user_public_key (AccessDecision.refused reason) =
    AdmissionOutcome.refused (as_wire_str reason)

module _ (library : Library) (parse_from_rfc3339 : String → Option ℕ) where
  -- The part of `authenticate_and_decide` for a signature that is there, from its decoded data.
  unfoldable pub decide_signed :
      PolicyStore
      → AuditLog
      → String
      → String
      → String
      → Option (List ℕ)
      → ℕ
      → Option (AuditLog × AdmissionOutcome)
  unfolding verify_base64 decide_access_and_audit outcome_of_decision
  decide_signed store audit_log gateway_id user_public_key signature none now = some (
    record_event audit_log (access_refused gateway_id user_public_key "invalid_signature"),
    AdmissionOutcome.refused "invalid_signature",
  )
  decide_signed store audit_log gateway_id user_public_key signature (some message) now =
      if verify_base64 library user_public_key message signature
      then option_map
          (λ ((log, decision) : AuditLog × AccessDecision).
            (log, outcome_of_decision user_public_key decision))
          (decide_access_and_audit parse_from_rfc3339 store audit_log gateway_id user_public_key
            now)
      else some (
        record_event audit_log (access_refused gateway_id user_public_key "invalid_signature"),
        AdmissionOutcome.refused "invalid_signature",
      )

  -- `authenticate_and_decide`, with no result where the access decision has none.
  unfoldable pub authenticate_and_decide :
      PolicyStore
      → AuditLog
      → String
      → Option String
      → Option String
      → Option String
      → ℕ
      → Option (AuditLog × AdmissionOutcome)
  unfolding decide_signed
  authenticate_and_decide store audit_log gateway_id (some user_public_key) (some signature)
        (some signed_data) now =
      decide_signed store audit_log gateway_id user_public_key signature
        (library.base64_decode signed_data) now
  authenticate_and_decide store audit_log gateway_id user_public_key _ _ now = some (
    record_event audit_log
        (access_refused gateway_id (unwrap_or user_public_key "") "no_signature_presented"),
    AdmissionOutcome.refused "invalid_signature",
  )
