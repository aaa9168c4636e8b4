-- ===== src/Tests/Control.antt =====
-- The theorems on admissions, releases, policies and pollers, at concrete inputs.
use secure_connect_connector.Revocation.Teardown.{reconcile_dropped_entitlements_kept}
use secure_connect_connector.Revocation.{reconcile_dropped_entitlements, still_entitled}
use secure_connect_connector.Net.{Ipv4Addr-discrete}
use secure_connect_connector.AdmissionPoller.Admitted.{IsAdmitted}
use secure_connect_connector.AdmissionPoller.Origins.{handle_messages-IsAdmitted}
use secure_connect_connector.FlowTable.Invariant.Histories.{run, run-new-IsValid, step}
use secure_connect_connector.FlowTable.Flows.{admit_flow, new_flow}
use secure_connect_connector.Crypto.Schemes.{IsSigned, verify_base64-IsSigned}
use secure_connect_connector.AdmissionPoller.Releases.{handle_release_stays_out}
use secure_connect_connector.FlowTable.Invariant.Removal.{IsValid}
use secure_connect_connector.Access.{decide_access_at}
use secure_connect_connector.Audit.{
  AuditEvent, AuditLog, access_allowed, flow_admitted, flow_released,
}
use secure_connect_connector.Crypto.{Library, verify_base64}
use secure_connect_connector.Policy.{PolicyState, PolicyStore}
use secure_connect_connector.Dto.{Entitlement, PolicyBundle}
use secure_connect_connector.HashMap.{get, insert}
use secure_connect_connector.Tests.Data.{
  plain_key, plain_rule, two_flows, two_flows-IsBounded, two_flows-IsValid, web_key, web_packet,
  web_rule,
}
use secure_connect_connector.Base.{
  List, Option, String, String-discrete, [], arith, false, none, refl, some, string_key, suc, true,
  zero, ℕ, ℕ_discrete, ◌↔◌, ◌∷◌, ◌≡◌, ◌≢◌, ◌⊎◌,
}
use secure_connect_connector.FlowTable.Types.{FlowKey-discrete, flow_key, new as empty_table}
use secure_connect_connector.FlowControl.{
  AdmissionOutcome, FlowAdmissionRequest, FlowReleaseRequest, authenticate_and_decide,
}
use secure_connect_connector.FlowControl.Handlers.{Handled, handle_flow_admission}
use secure_connect_connector.FlowControl.Admissions.{IsHandled, handle_flow_admission-IsHandled}
use secure_connect_connector.FlowControl.Decisions.{IsEventOf, authenticate_and_decide_audited}
use secure_connect_connector.Access.Decisions.{IsEntitled, decide_access_at_allowed}
use secure_connect_connector.AdmissionPoller.{
  ConnectorPollResponse, ControlPlaneState, Moment, flow_result, handle_messages, handle_release,
}

abbrev zeros : ℕ → List ℕ
zeros zero = []
zeros (suc n) = 0 ∷ zeros n

-- Every key is 32 zero bytes, and every signature 64.
abbrev library : Library
library = record {
  hex_decode = λ _. some (zeros 32);
  base64_decode = λ _. some (zeros 64);
  is_ed25519_key = λ _. true;
  ed25519_verifies = λ _ _ _. true;
  ecdsa_p256_verifies = λ _ _ _. false;
}

-- Every expiry is the instant 100.
abbrev parse : String → Option ℕ
parse _ = some 100

abbrev entitlement : Entitlement
entitlement = record { user_id = "u1"; device_public_key = some "k1" }

abbrev bundle : PolicyBundle
bundle = record {
  gateway_id = "g1";
  location = "l1";
  hostname = "h1";
  access_mode = "private";
  endpoints = [];
  port_rules = some (web_rule ∷ []);
  entitlement_list = entitlement ∷ [];
}

abbrev policy : PolicyState
policy = record {
  connector_id = "c1";
  generated_at = "0";
  expires_at = "100";
  policy_bundles = bundle ∷ [];
  node_list = [];
}

abbrev store : PolicyStore
store = record { state = some policy }

abbrev request : FlowAdmissionRequest
request = record {
  flow_id = "f1";
  gateway_id = "g1";
  node_id = "n1";
  port = 40000;
  user_public_key = some "k1";
  signature = some "s1";
  signed_data = some "d1";
  transport = some "tcp";
  gateway_address = some "100.64.0.9";
  destination_port = some 443;
}

decide_access_at_allowed_example : IsEntitled parse store "g1" "k1" 7 "u1" (web_rule ∷ [])
unfolding decide_access_at String-discrete
decide_access_at_allowed_example =
    decide_access_at_allowed parse store "g1" "k1" 7 "u1" (web_rule ∷ []) refl

authenticate_and_decide_audited_example :
    (event : AuditEvent) × (◌≡◌ {A = AuditLog} (access_allowed "g1" "u1" "k1" ∷ []) (event ∷ []))
    × IsEventOf "g1" event (AdmissionOutcome.allowed "k1" (web_rule ∷ []))
unfolding authenticate_and_decide String-discrete ℕ_discrete
authenticate_and_decide_audited_example =
    authenticate_and_decide_audited library parse store [] "g1" (some "k1") (some "s1") (some "d1")
      7 (access_allowed "g1" "u1" "k1" ∷ []) (AdmissionOutcome.allowed "k1" (web_rule ∷ [])) refl

abbrev handled : Handled
handled = record {
  audit_log =
      flow_admitted "f1" "g1" "k1" (some "TCP 443 -> 10.0.0.5:8443") none
      ∷ access_allowed "g1" "u1" "k1"
      ∷ [];
  flow_table = admit_flow empty_table "n1" 40000 (some web_packet) "g1" "f1" "k1" (web_rule ∷ []);
  response = record { flow_id = "f1"; decision = "admit"; reason = none };
}

handle_flow_admission-IsHandled_example :
    IsHandled library parse store empty_table request 7 3 handled
unfolding handle_flow_admission empty_table String-discrete ℕ_discrete get
    secure_connect_connector.Net.parse_ipv4 secure_connect_connector.FlowTable.Rules.serves
handle_flow_admission-IsHandled_example =
    handle_flow_admission-IsHandled library parse store [] empty_table request 7 3 handled refl

verify_base64-IsSigned_example : (verify_base64 library "k1" (zeros 3) "s1" ≡ true) ↔ (
    (key : List ℕ) × (bytes : List ℕ) × (library.hex_decode "k1" ≡ some key)
    × (library.base64_decode "s1" ≡ some bytes)
    × IsSigned library key (zeros 3) bytes)
verify_base64-IsSigned_example = verify_base64-IsSigned library "k1" (zeros 3) "s1"

abbrev state : ControlPlaneState
state = record {
  policy_store = store;
  audit_log = [];
  flow_table = empty_table;
  recovered = [];
  results = [];
}

abbrev moment : Moment
moment = record { now = 7; instant = 5; reclaimed_at = 5; local_port = none }

abbrev admission : ConnectorPollResponse
admission = record {
  kind = "admission";
  admission = some request;
  released = none;
  dns_admission = none;
}

abbrev release_request : FlowReleaseRequest
release_request = record { flow_id = "f1"; gateway_id = "g1"; port = 40000 }

abbrev admitted_state : ControlPlaneState
admitted_state = record state {
  audit_log = handled.audit_log;
  flow_table = handled.flow_table;
  results = flow_result handled.response ∷ [];
}

empty_table-IsValid : IsValid empty_table
unfolding run
empty_table-IsValid = run-new-IsValid []

handle_messages-IsAdmitted_example :
    (get web_key empty_table.flows ≡ some (new_flow web_key "g1" "f1" "k1" (web_rule ∷ [])))
    ⊎ IsAdmitted library parse state
        (("n1", admission, moment) ∷ [])
        web_key
        (new_flow web_key "g1" "f1" "k1" (web_rule ∷ []))
unfolding handle_messages admit_flow new_flow empty_table String-discrete ℕ_discrete get insert
    secure_connect_connector.Net.parse_ipv4 secure_connect_connector.FlowTable.Rules.serves
    Ipv4Addr-discrete FlowKey-discrete secure_connect_connector.HashMap.retain
handle_messages-IsAdmitted_example =
    handle_messages-IsAdmitted library parse state admitted_state (("n1", admission, moment) ∷ [])
      empty_table-IsValid refl web_key (new_flow web_key "g1" "f1" "k1" (web_rule ∷ [])) refl

abbrev busy : ControlPlaneState
busy = record state { flow_table = two_flows }

abbrev late_state : ControlPlaneState
late_state = record (handle_release busy (some release_request) 3) {
  audit_log = access_allowed "g1" "u1" "k1" ∷ flow_released "f1" "g1" ∷ [];
  results =
      flow_result
        (record { flow_id = "f1"; decision = "refuse"; reason = some "flow_already_released" })
      ∷ [];
}

handle_release_stays_out_example : ◌≢◌ {A = String} "f2" "f1"
unfolding handle_messages two_flows run step admit_flow new_flow empty_table get insert
    String-discrete ℕ_discrete FlowKey-discrete secure_connect_connector.HashMap.retain
handle_release_stays_out_example =
    handle_release_stays_out library parse release_request 3 busy late_state
      (("n1", admission, moment) ∷ []) two_flows-IsValid two_flows-IsBounded.released
      (omega arith, omega arith, tt) refl plain_key
      (new_flow plain_key "g1" "f2" "k2" (plain_rule ∷ [])) refl

abbrev report_id : ℕ → String
report_id _ = "r"

reconcile_dropped_entitlements_kept_example :
    get web_key
      (reconcile_dropped_entitlements report_id
        (bundle ∷ [])
        7
        two_flows
        (bundle ∷ [])).flow_table.flows
    ≡ some (new_flow web_key "g1" "f1" "k1" (web_rule ∷ []))
unfolding two_flows run step admit_flow new_flow empty_table get insert still_entitled
    String-discrete ℕ_discrete Ipv4Addr-discrete FlowKey-discrete
    secure_connect_connector.HashMap.retain
reconcile_dropped_entitlements_kept_example =
    reconcile_dropped_entitlements_kept report_id (bundle ∷ []) 7 two_flows (bundle ∷ []) web_key
      (new_flow web_key "g1" "f1" "k1" (web_rule ∷ [])) two_flows-IsValid refl refl
