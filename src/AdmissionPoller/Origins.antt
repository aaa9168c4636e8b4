-- ===== src/AdmissionPoller/Origins.antt =====
-- src/admission_poller.rs: where the flows that the pollers' messages leave in the table come from.
use secure_connect_connector.AdmissionPoller.Messages.{finish_admitted, finish_refused}
use secure_connect_connector.AdmissionPoller.{
  ConnectorPollResponse, ControlPlaneState, Moment, connect_registered, finish_admission,
  handle_admission, handle_dns, handle_message, handle_messages, handle_release,
}
use secure_connect_connector.Crypto.{Library}
use secure_connect_connector.FlowControl.{
  DnsAdmissionRequest, FlowAdmissionRequest, FlowReleaseRequest, dialled,
}
use secure_connect_connector.FlowControl.Admissions.{handle_flow_admission-IsHandled}
use secure_connect_connector.FlowTable.ControlPorts.{record_outbound_control_channel_port}
use secure_connect_connector.FlowTable.Flows.Gone.{release-absent, take_pending-rest}
use secure_connect_connector.FlowTable.Invariant.Removal.{IsValid}
use secure_connect_connector.FlowTable.Pending.{take_pending}
use secure_connect_connector.FlowTable.RuleChanges.{current_rules}
use secure_connect_connector.FlowTable.Types.{AdmittedFlow, FlowKey, FlowTable, flow_key}
use secure_connect_connector.HashMap.{get}
use secure_connect_connector.Base.{
  Bool-cases, List, Option, Option-cases, String, [], ap, arith, inl, inr, none, refl, some,
  string_key, subst, sym, unwrap_or, ℕ, ◌==◌, ◌∙◌, ◌∷◌, ◌≡◌, ◌⊎◌,
}
use secure_connect_connector.AdmissionPoller.Admitted.{
  IsAdmitted, IsAdmitted-later, admitted_cases, handle_message-IsValid, option_map-some,
}

module _ (library : Library) (p : String → Option ℕ) where
  module _ (s : ControlPlaneState) (node_id : String) (message : ConnectorPollResponse)
      (moment : Moment) where
    connected_flows :
        (t : FlowTable) (port : Option ℕ) → (connect_registered t node_id port).flows ≡ t.flows
    unfolding connect_registered record_outbound_control_channel_port
    connected_flows t none = refl
    connected_flows t (some port) = refl

    admission_store :
        (request : Option FlowAdmissionRequest) (after : ControlPlaneState)
        → handle_admission library p s node_id request moment ≡ some after
        → after.policy_store ≡ s.policy_store
    unfolding handle_admission finish_admission
    admission_store none after e = ground arith
    admission_store (some request) after e =
        let (handled, _, same) =
          option_map-some (finish_admission s node_id request moment) _ after e in
        ap (λ (x : ControlPlaneState). x.policy_store) same

    dns_same :
        (request : Option DnsAdmissionRequest) (after : ControlPlaneState)
        → handle_dns library p s node_id request moment ≡ some after
        → (after.policy_store ≡ s.policy_store) × (after.flow_table.flows ≡ s.flow_table.flows)
    unfolding handle_dns connect_registered record_outbound_control_channel_port
    dns_same none after e = (ground arith, ground arith)
    dns_same (some request) after e =
        let (answer, _, same) = option_map-some _ _ after e in
        (
          ap (λ (x : ControlPlaneState). x.policy_store) same,
          ap (λ (x : ControlPlaneState). x.flow_table.flows) same
              ∙ connected_flows s.flow_table moment.local_port,
        )

    released_origin :
        (request : Option FlowReleaseRequest) (key : FlowKey) (flow : AdmittedFlow)
        → IsValid s.flow_table
        → get key (handle_release s request moment.instant).flow_table.flows ≡ some flow
        → get key s.flow_table.flows ≡ some flow
    unfolding handle_release
    released_origin none key flow v e = e
    released_origin (some request) key flow v e =
        (release-absent s.flow_table request.flow_id moment.instant v.distinct key flow e).1

    release_store :
        (request : Option FlowReleaseRequest)
        → (handle_release s request moment.instant).policy_store ≡ s.policy_store
    unfolding handle_release
    release_store none = refl
    release_store (some request) = refl

    -- A flow that an admission leaves is an old one, or the one that it admits.
    admission_origin :
        (request : Option FlowAdmissionRequest) (after : ControlPlaneState) (key : FlowKey)
        (flow : AdmittedFlow)
        → message.kind ≡ "admission"
        → message.admission ≡ request
        → handle_admission library p s node_id request moment ≡ some after
        → get key after.flow_table.flows ≡ some flow
        → (get key s.flow_table.flows ≡ some flow)
          ⊎ ((later : List (String × ConnectorPollResponse × Moment))
              → IsAdmitted library p s ((node_id, message, moment) ∷ later) key flow)
    unfolding handle_admission handle_messages
    admission_origin none after key flow k asks e f = inl (ground arith)
    admission_origin (some request) after key flow k asks e f =
        let (handled, given, same) =
          option_map-some (finish_admission s node_id request moment) _ after e in
        let table = ap (λ (x : ControlPlaneState). x.flow_table) same in
        elim (handle_flow_admission-IsHandled library p s.policy_store s.audit_log s.flow_table
          request moment.now moment.instant handled given) [
            | inr (d, _, untouched) ↦ inl (
                subst (λ (t : FlowTable). get key t.flows ≡ some flow) untouched
                  (ap (get key) (sym (connected_flows handled.flow_table moment.local_port))
                    ∙ ap (λ (t : FlowTable). get key t.flows)
                        (sym (table ∙ finish_refused s node_id request moment handled d))
                    ∙ f))
            | inl (d, _, admission) ↦
                let taken =
                  take_pending handled.flow_table node_id request.port (dialled request)
                    moment.reclaimed_at in
                let held : get key handled.flow_table.flows ≡ some flow =
                  ap (get key) (
                    sym (
                      connected_flows taken.0 moment.local_port
                      ∙ (take_pending-rest handled.flow_table node_id request.port (dialled request)
                          moment.reclaimed_at).0))
                  ∙ ap (λ (t : FlowTable). get key t.flows)
                      (sym (table ∙ finish_admitted s node_id request moment handled d))
                  ∙ f in
                let rules =
                  unwrap_or (current_rules s.flow_table request.gateway_id) admission.opened in
                elim (admitted_cases s.flow_table request admission.key rules key flow
                  (ap (λ (t : FlowTable). get key t.flows) (sym admission.admission) ∙ held)) [
                    | inr old ↦ inl old
                    | inl (its_key, its_flow) ↦ inr (λ later. record {
                      earlier = [];
                      later = later;
                      node_id = node_id;
                      message = message;
                      moment = moment;
                      request = request;
                      before = s;
                      device_public_key = admission.key;
                      opened = admission.opened;
                      arrived = refl;
                      reached = refl;
                      kind = k;
                      asks = asks;
                      authenticated = admission.authenticated;
                      unreleased = admission.unreleased;
                      its_key = its_key;
                      its_flow = its_flow;
                    })
                  ]
          ]

    -- What a message leaves: the policy, and flows that are old or that it admits.
    message_origin :
        (after : ControlPlaneState)
        → IsValid s.flow_table
        → handle_message library p s node_id message moment ≡ some after
        → (after.policy_store ≡ s.policy_store)
          × ((key : FlowKey) (flow : AdmittedFlow)
              → get key after.flow_table.flows ≡ some flow
              → (get key s.flow_table.flows ≡ some flow)
                ⊎ ((later : List (String × ConnectorPollResponse × Moment))
                    → IsAdmitted library p s ((node_id, message, moment) ∷ later) key flow))
    unfolding handle_message
    message_origin after v e = elim (Bool-cases (message.kind == "admission")) [
      | inl a ↦
          let f : handle_admission library p s node_id message.admission moment ≡ some after =
            rw a at e in
          (
            admission_store message.admission after f,
            λ key flow g.
                admission_origin message.admission after key flow (ground (arith, a)) refl f g,
          )
      | inr a ↦ elim (Bool-cases (message.kind == "dns_admission")) [
        | inl b ↦
            let (store, flows) = dns_same message.dns_admission after (rw (a, b) at e) in
            (store, λ key flow g. inl (ap (get key) (sym flows) ∙ g))
        | inr b ↦ elim (Bool-cases (message.kind == "release")) [
          | inl c ↦
              let same : handle_release s message.released moment.instant ≡ after =
                ap (λ o. unwrap_or o after) (rw (a, b, c) at e) in
              (
                ap (λ (x : ControlPlaneState). x.policy_store) (sym same)
                    ∙ release_store message.released,
                λ key flow g. inl (
                    released_origin message.released key flow v
                      (ap (λ (x : ControlPlaneState). get key x.flow_table.flows) same ∙ g)),
              )
          | inr c ↦
              let same : s ≡ after = ap (λ o. unwrap_or o after) (rw (a, b, c) at e) in
              (
                ap (λ (x : ControlPlaneState). x.policy_store) (sym same),
                λ key flow g.
                    inl (ap (λ (x : ControlPlaneState). get key x.flow_table.flows) same ∙ g),
              )
        ]
      ]
    ]

  -- Whatever messages of any nodes are handled, in any order, from a well-formed table: a flow that
  -- the table then has is one that it had before, or one that an admission message among them asked
  -- for, with a valid signature by the flow's device key and an entitlement of that key under the
  -- policy at its time, while no release of its id was remembered, and with the rules then in force.
  pub handle_messages-IsAdmitted :
      (s after : ControlPlaneState) (messages : List (String × ConnectorPollResponse × Moment))
      → IsValid s.flow_table
      → handle_messages library p s messages ≡ some after
      → (key : FlowKey) (flow : AdmittedFlow) → get key after.flow_table.flows ≡ some flow
      → (get key s.flow_table.flows ≡ some flow) ⊎ IsAdmitted library p s messages key flow
  unfolding handle_messages
  handle_messages-IsAdmitted s after [] v e key flow g =
      let same : s ≡ after = ap (λ o. unwrap_or o after) e in
      inl (ap (λ (x : ControlPlaneState). get key x.flow_table.flows) same ∙ g)
  handle_messages-IsAdmitted s after ((node_id, message, moment) ∷ later) v e key flow g =
      elim (Option-cases (handle_message library p s node_id message moment)) [
        | inl f ↦ absurd (cc (rw f at e))
        | inr (next, f) ↦
            let (store, origin) = message_origin s node_id message moment next v f in
            elim (handle_messages-IsAdmitted next after later
              (handle_message-IsValid library p s next node_id message moment v f) (rw f at e) key
              flow g) [
                | inr a ↦ inr (
                    IsAdmitted-later library p s next node_id message moment later key flow f store
                      a)
                | inl old ↦ elim (origin key flow old) [
                  | inl older ↦ inl older
                  | inr own ↦ inr (own later)
                ]
              ]
      ]
