-- ===== src/Tests/Tables.antt =====
-- The flow table's theorems on two flows.
use secure_connect_connector.FlowTable.Forward.{forward}
use secure_connect_connector.FlowTable.Forward.Replies.{route_reply-forward, route_reply_only}
use secure_connect_connector.FlowTable.SourcePorts.Search.{allocate_source_port_free}
use secure_connect_connector.FlowTable.Bounds.Histories.{run-new-IsBounded}
use secure_connect_connector.FlowTable.Invariant.Removal.{IsValid}
use secure_connect_connector.FlowTable.Bounds.{IsBounded, memory}
use secure_connect_connector.FlowTable.Reply.{Routed, route_reply}
use secure_connect_connector.FlowTable.Invariant.Allocations.{claims}
use secure_connect_connector.FlowTable.SourcePorts.{allocate_source_port}
use secure_connect_connector.HashMap.{HashMap, contains_key, get}
use secure_connect_connector.Tests.Data.{
  gateway_ip, internal_ip, no_names, plain_admission, sent, sent-IsValid, two_flows,
  two_flows-IsValid, web_admission, web_claim, web_claims, web_forward, web_key, web_packet,
  web_reply,
}
use secure_connect_connector.Base.{
  [], arith, false, refl, some, string_key, ℕ_discrete, ◌∷◌, ◌≡◌, ◌≤◌,
}
use secure_connect_connector.FlowTable.Types.{
  AdmittedFlow, AllocationKey, FlowKey, Transport, allocation_key, flow_key, new as empty_table,
  restore,
}
use secure_connect_connector.FlowTable.Invariant.Histories.{
  forwards_packet, run, run-new-IsValid, run-new-claims_injective,
}
use secure_connect_connector.FlowTable.Forward.Targets.{LeadsTo, MayUse, forward-MayUse}

run-new-IsValid_example : IsValid (run empty_table (web_admission ∷ plain_admission ∷ []))
run-new-IsValid_example = run-new-IsValid (web_admission ∷ plain_admission ∷ [])

run-new-IsBounded_example :
    IsBounded (memory (run empty_table (web_admission ∷ plain_admission ∷ [])))
run-new-IsBounded_example = run-new-IsBounded (web_admission ∷ plain_admission ∷ [])

run-new-claims_injective_example : web_key ≡ web_key
unfolding sent
run-new-claims_injective_example =
    run-new-claims_injective
      (web_admission
        ∷ plain_admission
        ∷ forwards_packet "n1" 40000 (some web_packet) 443 no_names
        ∷ [])
      web_key web_key web_claim web_claims web_claims

route_reply-forward_example :
    route_reply
      (forward two_flows "n1" 40000 (some web_packet) 443 no_names).0
      (some Transport.tcp)
      (some internal_ip)
      (some 8443)
      1024
    ≡ Routed.ok (restore "n1" gateway_ip (some 443) (some 40000))
route_reply-forward_example =
    route_reply-forward two_flows "n1" 40000 web_packet 443 no_names internal_ip 1024 (some 8443)
      two_flows-IsValid web_forward

route_reply_only_example : claims sent.flows web_key ≡ some web_claim
route_reply_only_example =
    route_reply_only sent Transport.tcp internal_ip gateway_ip 8443 1024 443 40000 "n1" sent-IsValid
      web_reply

forward-MayUse_example :
    (flow : AdmittedFlow) × MayUse two_flows "n1" 40000 web_packet flow
    × LeadsTo no_names flow (some Transport.tcp) 443 internal_ip 8443
forward-MayUse_example =
    forward-MayUse two_flows "n1" 40000 web_packet no_names internal_ip (some 8443) (some 1024)
      web_forward

abbrev one_taken : HashMap AllocationKey FlowKey
one_taken = ((Transport.tcp, internal_ip, 8443, 1024), web_key) ∷ []

allocate_source_port_free_example :
    (1024 ≤ 1025)
    × (1025 ≤ 1025)
    × (contains_key {K = AllocationKey} (Transport.tcp, internal_ip, 8443, 1025) one_taken ≡ false)
unfolding allocate_source_port get ℕ_discrete
    secure_connect_connector.FlowTable.Types.AllocationKey-discrete
allocate_source_port_free_example =
    allocate_source_port_free one_taken [] 1024 1025 Transport.tcp (internal_ip, 8443) (omega arith)
      (omega arith) 1025 refl
