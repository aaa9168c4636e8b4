-- ===== src/AdmissionPoller/Admitted.antt =====
-- src/admission_poller.rs: what it is for a flow to be admitted by one of the pollers' messages.
use secure_connect_connector.AdmissionPoller.Messages.{handle_messages-run}
use secure_connect_connector.AdmissionPoller.{
  ConnectorPollResponse, ControlPlaneState, Moment, handle_message, handle_messages,
}
use secure_connect_connector.Crypto.{Library}
use secure_connect_connector.Dto.{PortRule}
use secure_connect_connector.FlowControl.{FlowAdmissionRequest, dialled}
use secure_connect_connector.FlowControl.Decisions.{IsAuthenticated}
use secure_connect_connector.FlowTable.Flows.{admit_flow, new_flow, was_recently_released}
use secure_connect_connector.FlowTable.Flows.Effects.{get-admit_flow}
use secure_connect_connector.FlowTable.Invariant.Histories.{run-IsValid}
use secure_connect_connector.FlowTable.Invariant.Removal.{IsValid}
use secure_connect_connector.FlowTable.RuleChanges.{current_rules}
use secure_connect_connector.FlowTable.Types.{AdmittedFlow, FlowKey, FlowTable, flow_key}
use secure_connect_connector.HashMap.{get}
use secure_connect_connector.Base.{
  Bool-cases, List, Option, String, [], ap, arith, false, inl, inr, none, option_map, refl, some,
  string_key, subst, sym, unwrap_or, ℕ, ◌++◌, ◌==◌, ◌∙◌, ◌∷◌, ◌≡◌, ◌⊎◌,
}

abbrev pub key_of : FlowAdmissionRequest → FlowKey
key_of request = record {
  node_id = request.node_id;
  port = request.port;
  dialled = dialled request;
}

pub admitted_cases :
    (t : FlowTable) (request : FlowAdmissionRequest) (device : String) (opened : List PortRule)
    (at : FlowKey) (flow : AdmittedFlow)
    → get at
        (admit_flow t request.node_id request.port
          (dialled request)
          request.gateway_id
          request.flow_id
          device
          opened).flows
      ≡ some flow
    → ((at ≡ key_of request)
        × (flow ≡ new_flow (key_of request) request.gateway_id request.flow_id device opened))
      ⊎ (get at t.flows ≡ some flow)
admitted_cases t request device opened at flow e =
    let given =
      get-admit_flow t request.node_id request.port (dialled request) request.gateway_id
        request.flow_id device opened at in
    elim (Bool-cases (key_of request == at)) [
      | inl h ↦ inl (
        ground (arith, h),
        let held : some (new_flow (key_of request) request.gateway_id request.flow_id device opened)
                ≡ some flow =
              sym (rw h at given) ∙ e in
            sym (ap (λ (o : Option AdmittedFlow). unwrap_or o flow) held),
      )
      | inr h ↦ inr (ground (arith, given))
    ]

pub option_map-some {ℓ κ} :
    {A : Type ℓ} {B : Type κ} (f : A → B) (o : Option A) (b : B)
    → option_map f o ≡ some b
    → (a : A) × (o ≡ some a) × (b ≡ f a)
option_map-some f none b e = absurd (cc e)
option_map-some f (some a) b e = (a, refl, sym (ap (λ o. unwrap_or o b) e))

pub handle_message-IsValid :
    (library : Library) (p : String → Option ℕ) (s after : ControlPlaneState) (node_id : String)
    (message : ConnectorPollResponse) (moment : Moment)
    → IsValid s.flow_table
    → handle_message library p s node_id message moment ≡ some after
    → IsValid after.flow_table
unfolding handle_messages
handle_message-IsValid library p s after node_id message moment v e =
    let (cs, reached) =
      handle_messages-run library p s after ((node_id, message, moment) ∷ []) (rw e refl) in
    subst IsValid (sym reached) (run-IsValid s.flow_table cs v)

module _ (library : Library) (p : String → Option ℕ) where
  -- A flow that a message admitted: after the messages before it, an admission that proves its key by
  -- its signature, that the policy entitles, and whose flow had not been released just before; the
  -- flow is the one that was asked for, of that key, with the rules in force.
  pub record IsAdmitted (s : ControlPlaneState)
      (messages : List (String × ConnectorPollResponse × Moment)) (key : FlowKey)
      (flow : AdmittedFlow) : Type 0 where
    pub earlier : List (String × ConnectorPollResponse × Moment)
    pub later : List (String × ConnectorPollResponse × Moment)
    pub node_id : String
    pub message : ConnectorPollResponse
    pub moment : Moment
    pub request : FlowAdmissionRequest
    pub before : ControlPlaneState
    pub device_public_key : String
    pub opened : List PortRule
    pub arrived : messages ≡ earlier ++ (node_id, message, moment) ∷ later
    pub reached : handle_messages library p s earlier ≡ some before
    pub kind : message.kind ≡ "admission"
    pub asks : message.admission ≡ some request
    pub authenticated :
        IsAuthenticated library p s.policy_store request.gateway_id request.user_public_key
          request.signature request.signed_data moment.now device_public_key opened
    pub unreleased : was_recently_released before.flow_table request.flow_id moment.instant ≡ false
    pub its_key : key ≡ key_of request
    pub its_flow :
        flow
        ≡ new_flow
            (key_of request)
            request.gateway_id
            request.flow_id
            device_public_key
            (unwrap_or (current_rules before.flow_table request.gateway_id) opened)

  -- The messages before may be more.
  pub IsAdmitted-later :
      (s next : ControlPlaneState) (node_id : String) (message : ConnectorPollResponse)
      (moment : Moment) (rest : List (String × ConnectorPollResponse × Moment)) (key : FlowKey)
      (flow : AdmittedFlow)
      → handle_message library p s node_id message moment ≡ some next
      → next.policy_store ≡ s.policy_store
      → IsAdmitted next rest key flow
      → IsAdmitted s ((node_id, message, moment) ∷ rest) key flow
  unfolding handle_messages
  IsAdmitted-later s next node_id message moment rest key flow e store a = record {
    earlier = (node_id, message, moment) ∷ a.earlier;
    later = a.later;
    node_id = a.node_id;
    message = a.message;
    moment = a.moment;
    request = a.request;
    before = a.before;
    device_public_key = a.device_public_key;
    opened = a.opened;
    arrived = ap (λ messages. (node_id, message, moment) ∷ messages) a.arrived;
    reached = rw e a.reached;
    kind = a.kind;
    asks = a.asks;
    authenticated =
        subst
          (λ store.
            IsAuthenticated library p store a.request.gateway_id a.request.user_public_key
              a.request.signature a.request.signed_data a.moment.now a.device_public_key a.opened)
          store a.authenticated;
    unreleased = a.unreleased;
    its_key = a.its_key;
    its_flow = a.its_flow;
  }
