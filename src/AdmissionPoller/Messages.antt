-- ===== src/AdmissionPoller/Messages.antt =====
-- The table stays well-formed over whatever messages arrive.
use secure_connect_connector.Dto.{PortRule}
use secure_connect_connector.FlowTable.Flows.{admit_flow, release, was_recently_released}
use secure_connect_connector.Crypto.{Library}
use secure_connect_connector.FlowTable.Types.{FlowTable}
use secure_connect_connector.FlowTable.Pending.{take_pending}
use secure_connect_connector.Base.{
  Bool-cases, List, Option, Option-cases, String, String-discrete, [], ap, arith, false, inl, inr,
  none, refl, some, string_key, subst, sym, ℕ, ◌++◌, ◌==◌, ◌∙◌, ◌∷◌, ◌≡◌,
}
use secure_connect_connector.FlowTable.Invariant.Histories.{
  Call, admits, records_outbound, releases, run, step, takes,
}
use secure_connect_connector.FlowControl.{
  DnsAdmissionRequest, FlowAdmissionRequest, FlowReleaseRequest, dialled,
}
use secure_connect_connector.FlowControl.Admissions.{handle_flow_admission-IsHandled}
use secure_connect_connector.FlowControl.Handlers.{
  Handled, handle_dns_admission, handle_flow_admission,
}
use secure_connect_connector.AdmissionPoller.{
  ConnectorPollResponse, ControlPlaneState, Moment, connect_registered, finish_admission,
  handle_admission, handle_dns, handle_message, handle_messages, handle_release,
}

-- The calls of one handler.
abbrev pub registration : String → Option ℕ → List Call
registration node_id none = []
registration node_id (some port) = records_outbound node_id port ∷ []

connect_registered-run :
    (t : FlowTable) (n : String) (port : Option ℕ)
    → connect_registered t n port ≡ run t (registration n port)
unfolding connect_registered run step
connect_registered-run t n none = refl
connect_registered-run t n (some port) = refl

pub refuse_no_admission : ◌==◌ {K = String} "refuse" "admit" ≡ false
unfolding String-discrete
refuse_no_admission = refl

pub finish_refused :
    (s : ControlPlaneState) (n : String) (request : FlowAdmissionRequest) (moment : Moment)
    (handled : Handled)
    → handled.response.decision ≡ "refuse"
    → (finish_admission s n request moment handled).flow_table
      ≡ connect_registered handled.flow_table n moment.local_port
unfolding finish_admission
finish_refused s n request moment handled e = rw (e, refuse_no_admission) refl

pub finish_admitted :
    (s : ControlPlaneState) (n : String) (request : FlowAdmissionRequest) (moment : Moment)
    (handled : Handled)
    → handled.response.decision ≡ "admit"
    → (finish_admission s n request moment handled).flow_table
      ≡ connect_registered
          (take_pending handled.flow_table n request.port (dialled request) moment.reclaimed_at).0
          n
          moment.local_port
unfolding finish_admission
finish_admitted s n request moment handled e = ground (arith, e)

-- What one message does to the table.
pub data Effect (before : FlowTable) (node_id : String) (moment : Moment) : FlowTable → Type 0 where
  nothing :
      (after : FlowTable)
      → after ≡ connect_registered before node_id none
      → Effect before node_id moment after
  registers :
      (after : FlowTable)
      → after ≡ connect_registered before node_id moment.local_port
      → Effect before node_id moment after
  releases_flow :
      (flow_id : String) (after : FlowTable)
      → after ≡ release before flow_id moment.instant
      → Effect before node_id moment after
  admits_flow :
      (request : FlowAdmissionRequest) (key : String) (opened : List PortRule) (after : FlowTable)
      → was_recently_released before request.flow_id moment.instant ≡ false
      → after
        ≡ connect_registered
            (take_pending
              (admit_flow before request.node_id request.port
                (dialled request)
                request.gateway_id
                request.flow_id
                key
                opened)
              node_id
              request.port
              (dialled request)
              moment.reclaimed_at).0
            node_id
            moment.local_port
      → Effect before node_id moment after

module _ (library : Library) (p : String → Option ℕ) (s : ControlPlaneState) (n : String)
    (moment : Moment) where
  handle_admission-Effect :
      (request : Option FlowAdmissionRequest) (after : ControlPlaneState)
      → handle_admission library p s n request moment ≡ some after
      → Effect s.flow_table n moment after.flow_table
  unfolding handle_admission connect_registered
  handle_admission-Effect none after e = Effect.nothing _ (ground arith)
  handle_admission-Effect (some request) after e =
      elim (Option-cases (
        handle_flow_admission library p s.policy_store s.audit_log s.flow_table request moment.now
          moment.instant)) [
            | inl f ↦ absurd (ground arith)
            | inr (handled, f) ↦
                let finished : finish_admission s n request moment handled ≡ after = ground arith in
                let table = sym (ap (λ (x : ControlPlaneState). x.flow_table) finished) in
                elim (handle_flow_admission-IsHandled library p s.policy_store s.audit_log
                  s.flow_table request moment.now moment.instant handled f) [
                    | inl (d, _, admission) ↦
                        Effect.admits_flow request admission.key _ _ admission.unreleased (
                          table
                          ∙ finish_admitted s n request moment handled d
                          ∙ ap
                              (λ t.
                                connect_registered
                                  (take_pending t n request.port (dialled request)
                                    moment.reclaimed_at).0
                                  n moment.local_port)
                              admission.admission)
                    | inr (d, _, same) ↦ Effect.registers _ (
                        table
                        ∙ finish_refused s n request moment handled d
                        ∙ ap (λ t. connect_registered t n moment.local_port) same)
                  ]
          ]

  handle_dns-Effect :
      (request : Option DnsAdmissionRequest) (after : ControlPlaneState)
      → handle_dns library p s n request moment ≡ some after
      → Effect s.flow_table n moment after.flow_table
  unfolding handle_dns connect_registered
  handle_dns-Effect none after e = Effect.nothing _ (ground arith)
  handle_dns-Effect (some request) after e =
      elim (Option-cases
        (handle_dns_admission library p s.policy_store s.audit_log request moment.now)) [
          | inl f ↦ absurd (ground arith)
          | inr ((log, response), f) ↦ Effect.registers _ (ground arith)
        ]

  handle_release-Effect :
      (request : Option FlowReleaseRequest)
      → Effect s.flow_table n moment (handle_release s request moment.instant).flow_table
  unfolding handle_release connect_registered
  handle_release-Effect none = Effect.nothing _ refl
  handle_release-Effect (some request) = Effect.releases_flow request.flow_id _ refl

  -- A message has one of four effects on the table: none, a port registered, a flow released, or a
  -- flow admitted that was not released just before, with its held packet reclaimed.
  pub handle_message-Effect :
      (message : ConnectorPollResponse) (after : ControlPlaneState)
      → handle_message library p s n message moment ≡ some after
      → Effect s.flow_table n moment after.flow_table
  unfolding handle_message connect_registered
  handle_message-Effect message after e = elim (Bool-cases (message.kind == "admission")) [
    | inl a ↦ handle_admission-Effect message.admission after (ground arith)
    | inr a ↦ elim (Bool-cases (message.kind == "dns_admission")) [
      | inl b ↦ handle_dns-Effect message.dns_admission after (ground arith)
      | inr b ↦ elim (Bool-cases (message.kind == "release")) [
        | inl c ↦
            let same : handle_release s message.released moment.instant ≡ after = ground arith in
            subst (λ (x : ControlPlaneState). Effect s.flow_table n moment x.flow_table) same
              (handle_release-Effect message.released)
        | inr c ↦ Effect.nothing _ (ground arith)
      ]
    ]
  ]

-- Every effect is a history of the table's own operations.
Effect-run :
    (before after : FlowTable) (n : String) (moment : Moment)
    → Effect before n moment after
    → (cs : List Call) × (after ≡ run before cs)
unfolding run step connect_registered
Effect-run before after n moment (Effect.nothing _ e) = ([], e)
Effect-run before after n moment (Effect.registers _ e) =
    (registration n moment.local_port, e ∙ connect_registered-run before n moment.local_port)
Effect-run before after n moment (Effect.releases_flow flow_id _ e) =
    (releases flow_id moment.instant ∷ [], e)
Effect-run before after n moment (Effect.admits_flow request key opened _ _ e) = (
  admits request.node_id request.port (dialled request) request.gateway_id request.flow_id key
        opened
      ∷ takes n request.port (dialled request) moment.reclaimed_at
      ∷ registration n moment.local_port,
  e ∙ connect_registered-run _ n moment.local_port,
)

run-append : (t : FlowTable) (cs ds : List Call) → run t (cs ++ ds) ≡ run (run t cs) ds
unfolding run
run-append t [] ds = refl
run-append t (c ∷ cs) ds = run-append (step t c) cs ds

-- Whatever messages arrive, in whatever order their handlers run, the table is one that a history
-- of its own operations reaches from where it started.
pub handle_messages-run :
    (library : Library) (p : String → Option ℕ) (s after : ControlPlaneState)
    (messages : List (String × ConnectorPollResponse × Moment))
    → handle_messages library p s messages ≡ some after
    → (cs : List Call) × (after.flow_table ≡ run s.flow_table cs)
unfolding handle_messages run
handle_messages-run library p s after [] e = ([], ground arith)
handle_messages-run library p s after ((n, message, moment) ∷ later) e =
    elim (Option-cases (handle_message library p s n message moment)) [
      | inl f ↦ absurd (ground arith)
      | inr (next, f) ↦
          let (cs, first) =
            Effect-run s.flow_table next.flow_table n moment
              (handle_message-Effect library p s n moment message next f) in
          let (ds, rest) = handle_messages-run library p next after later (ground arith) in
          (cs ++ ds, rest ∙ ap (λ t. run t ds) first ∙ sym (run-append s.flow_table cs ds))
    ]
