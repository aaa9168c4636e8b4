-- ===== src/FlowControl/Admissions.antt =====
-- What the admission of a flow does to the table.
use secure_connect_connector.FlowTable.RuleChanges.{current_rules}
use secure_connect_connector.FlowTable.Flows.{admit_flow, was_recently_released}
use secure_connect_connector.Policy.{PolicyStore}
use secure_connect_connector.Dto.{PortRule}
use secure_connect_connector.Crypto.{Library}
use secure_connect_connector.FlowTable.Types.{FlowTable}
use secure_connect_connector.Audit.{AuditLog}
use secure_connect_connector.Base.{
  Bool-cases, List, Option, Option-cases, String, ap, arith, false, inl, inr, none, refl, some,
  subst, true, unwrap_or, ℕ, ◌≡◌, ◌≢◌, ◌⊎◌,
}
use secure_connect_connector.FlowControl.{
  AdmissionOutcome, FlowAdmissionRequest, Recorded, admitted, admitted_without_dialled_identity,
  already_released, authenticate_and_decide, dialled,
}
use secure_connect_connector.FlowControl.Decisions.{
  IsAuthenticated, authenticate_and_decide_allowed,
}
use secure_connect_connector.FlowControl.Handlers.{
  Handled, handle_flow_admission, handle_outcome, named_rule, record_flow, respond,
}

-- A flow that was admitted: the request proves its key and is entitled, the flow was not released
-- just before, and the table gains exactly that flow, with the rules of the last heartbeat where one
-- gave any, and else those of the entitlement's policy.
pub record IsAdmission (library : Library) (p : String → Option ℕ) (store : PolicyStore)
    (before after : FlowTable) (request : FlowAdmissionRequest) (now instant : ℕ) : Type 0 where
  pub key : String
  pub opened : List PortRule
  pub authenticated :
      IsAuthenticated library p store request.gateway_id request.user_public_key request.signature
        request.signed_data now key opened
  pub unreleased : was_recently_released before request.flow_id instant ≡ false
  pub admission :
      after
      ≡ admit_flow before request.node_id request.port
          (dialled request)
          request.gateway_id
          request.flow_id
          key
          (unwrap_or (current_rules before request.gateway_id) opened)

-- How a handler ends: with an admission, or with a refusal that leaves the table as it was.
abbrev pub IsHandled :
    Library
    → (String → Option ℕ)
    → PolicyStore
    → FlowTable
    → FlowAdmissionRequest
    → ℕ
    → ℕ
    → Handled
    → Type 0
IsHandled library p store table request now instant handled =
    ((handled.response.decision ≡ "admit")
      × (handled.response.reason ≡ none)
      × IsAdmission library p store table handled.flow_table request now instant)
    ⊎ ((handled.response.decision ≡ "refuse")
        × (handled.response.reason ≢ none)
        × (handled.flow_table ≡ table))

respond_decision :
    (log : AuditLog) (request : FlowAdmissionRequest) (key : String) (rule : Option String)
    (recorded : Recorded)
    → ((recorded ≡ already_released)
        × ((respond log request key rule recorded).1.decision ≡ "refuse")
        × ((respond log request key rule recorded).1.reason ≢ none))
      ⊎ ((recorded ≢ already_released)
          × ((respond log request key rule recorded).1.decision ≡ "admit")
          × ((respond log request key rule recorded).1.reason ≡ none))
unfolding respond
respond_decision log request key rule already_released = inl (refl, refl, λ e. cc e)
respond_decision log request key rule admitted = inr (λ e. cc e, refl, refl)
respond_decision log request key rule admitted_without_dialled_identity =
    inr (λ e. cc e, refl, refl)

record_flow_cases :
    (table : FlowTable) (request : FlowAdmissionRequest) (key : String) (opened : List PortRule)
    (instant : ℕ)
    → ((was_recently_released table request.flow_id instant ≡ true)
        × (record_flow table request key opened instant ≡ (table, already_released)))
      ⊎ ((was_recently_released table request.flow_id instant ≡ false)
          × ((record_flow table request key opened instant).0
              ≡ admit_flow table request.node_id request.port
                  (dialled request)
                  request.gateway_id
                  request.flow_id
                  key
                  opened)
          × ((record_flow table request key opened instant).1 ≢ already_released))
unfolding record_flow
record_flow_cases table request key opened instant =
    elim (Bool-cases (was_recently_released table request.flow_id instant)) [
      | inl e ↦ inl (e, ground arith)
      | inr e ↦ elim (Option-cases (dialled request)) [
        | inl f ↦ inr (e, ground arith, λ same. ground arith)
        | inr (packet, f) ↦ inr (e, ground arith, λ same. ground arith)
      ]
    ]

-- Where the handler answers, it is an admission, without a reason, that rests on a proof of
-- identity, an entitlement and no earlier release, and adds exactly that flow with the rules in
-- force, or a refusal with a reason, after which the table is as it was.
pub handle_flow_admission-IsHandled :
    (library : Library) (p : String → Option ℕ) (store : PolicyStore) (log : AuditLog)
    (table : FlowTable) (request : FlowAdmissionRequest) (now instant : ℕ) (handled : Handled)
    → handle_flow_admission library p store log table request now instant ≡ some handled
    → IsHandled library p store table request now instant handled
unfolding handle_flow_admission
handle_flow_admission-IsHandled library p store log table request now instant handled e =
    elim (Option-cases (
      authenticate_and_decide library p store log request.gateway_id request.user_public_key
        request.signature request.signed_data now)) [
          | inl f ↦ absurd (ground arith)
          | inr ((after, outcome), f) ↦
              subst (IsHandled library p store table request now instant) (handled_is f)
                (by_outcome after outcome f)
        ]
  where
    handled_is :
        {after : AuditLog} {outcome : AdmissionOutcome}
        → authenticate_and_decide library p store log request.gateway_id request.user_public_key
            request.signature request.signed_data now
          ≡ some (after, outcome)
        → handle_outcome after table request outcome instant ≡ handled
    handled_is f = ground arith

    by_outcome :
        (after : AuditLog) (outcome : AdmissionOutcome)
        → authenticate_and_decide library p store log request.gateway_id request.user_public_key
            request.signature request.signed_data now
          ≡ some (after, outcome)
        → IsHandled library p store table request now instant
            (handle_outcome after table request outcome instant)
    by_outcome after (AdmissionOutcome.refused reason) f = inr (refl, λ same. cc same, refl)
    by_outcome after (AdmissionOutcome.allowed key opened) f =
        let in_force = unwrap_or (current_rules table request.gateway_id) opened in
        let answer =
          respond_decision after request key (named_rule in_force (dialled request))
            (record_flow table request key in_force instant).1 in
        elim (record_flow_cases table request key in_force instant) [
          | inl (gone, e) ↦ elim answer [
            | inl (_, d, n) ↦ inr (d, n, ap (λ x. x.0) e)
            | inr (other, _, _) ↦ absurd (other (ap (λ x. x.1) e))
          ]
          | inr (fresh, e, other) ↦ elim answer [
            | inl (same, _, _) ↦ absurd (other same)
            | inr (_, d, n) ↦ inl (
              d,
              n,
              record {
                key = key;
                opened = opened;
                authenticated =
                    authenticate_and_decide_allowed library p store log request.gateway_id
                      request.user_public_key request.signature request.signed_data now after key
                      opened f;
                unreleased = fresh;
                admission = e;
              },
            )
          ]
        ]
