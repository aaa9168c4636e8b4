-- ===== src/FlowTable/Flows/Effects.antt =====
-- What an admission, a release and an eviction do to the flows, and what they leave alone.
use secure_connect_connector.HashMap.Laws.{IsUnique, get-insert, get-retain}
use secure_connect_connector.HashMap.{HashMap, get, insert, retain}
use secure_connect_connector.Base.{
  Bool, List, Option, Option-cases, String, [], and_then, ap, arith, false, if◌then◌else◌, inl, inr,
  leb, nat_key, none, not, refl, some, string_key, ℕ, ◌&&◌, ◌-◌, ◌==◌, ◌∙◌, ◌∷◌, ◌≡◌, ◌≤◌,
}
use secure_connect_connector.Dto.{PortRule}
use secure_connect_connector.FlowTable.Types.{
  AdmittedFlow, Dialled, FlowKey, FlowTable, flow_key, legacy_key, released_flow_memory,
}
use secure_connect_connector.FlowTable.Flows.{
  admit_flow, evict_gateway_device, evict_node, free_flow, index_flow, new_flow, release,
  remove_flow, remove_flows, remove_flows_where, selected_keys, was_recently_released,
}
use secure_connect_connector.FlowTable.ControlPorts.{
  node_for_control_channel_port, node_for_outbound_control_channel_source_port,
}
use secure_connect_connector.FlowTable.Invariant.Removal.{get-remove_flow}
use secure_connect_connector.FlowTable.Invariant.Selection.{get-remove_flows_where, selected}

-- Removing flows changes the flows and their two indexes only.
abbrev pub SameRest : FlowTable → FlowTable → Type 0
SameRest t u = u ≡ record t {
  flows = u.flows;
  nodes_by_port = u.nodes_by_port;
  dialled_by_allocation = u.dialled_by_allocation;
}

pub remove_flow-SameRest : (t : FlowTable) (key : FlowKey) → SameRest t (remove_flow t key)
unfolding remove_flow free_flow
remove_flow-SameRest t key = elim (Option-cases (get key t.flows)) [
  | inl e ↦ rw (e, remove_flow)
  | inr (flow, e) ↦
      rw (e, remove_flow)
        (elim (Option-cases key.dialled) [
          | inl f ↦ rw (f, free_flow)
          | inr (d, f) ↦
              rw (f, free_flow)
                (elim (Option-cases flow.allocation) [
                  | inl g ↦ rw (g, free_flow)
                  | inr (held, g) ↦ rw (g, free_flow)
                ])
        ])
]

remove_flows-SameRest : (t : FlowTable) (keys : List FlowKey) → SameRest t (remove_flows t keys)
unfolding remove_flows
remove_flows-SameRest t [] = refl
remove_flows-SameRest t (key ∷ keys) = remove_flows-SameRest (remove_flow t key) keys ∙ (λ i.
    record (remove_flow-SameRest t key i) {
      flows = (remove_flows (remove_flow t key) keys).flows;
      nodes_by_port = (remove_flows (remove_flow t key) keys).nodes_by_port;
      dialled_by_allocation = (remove_flows (remove_flow t key) keys).dialled_by_allocation;
    })

pub remove_flows_where-SameRest :
    (t : FlowTable) (drop_it : FlowKey → AdmittedFlow → Bool)
    → SameRest t (remove_flows_where t drop_it).0
unfolding remove_flows_where
remove_flows_where-SameRest t drop_it = remove_flows-SameRest t (selected_keys drop_it t.flows)

-- A flow, where the test does not drop it.
abbrev pub unless : (AdmittedFlow → Bool) → AdmittedFlow → Option AdmittedFlow
unless drop_it flow = if drop_it flow then none else some flow

unless_lem :
    (drop_it : FlowKey → AdmittedFlow → Bool) (k : FlowKey) (o : Option AdmittedFlow)
    → (if selected drop_it k o then none else o) ≡ and_then o (unless (drop_it k))
unfolding selected
unless_lem drop_it k none = refl
unless_lem drop_it k (some flow) = refl

-- In a table whose keys are unique, a release removes the flows with its id, and no other flow
-- changes.
pub get-release :
    (t : FlowTable) (flow_id : String) (now : ℕ) (k : FlowKey)
    → IsUnique t.flows
    → get k (release t flow_id now).flows
      ≡ and_then (get k t.flows) (unless (λ flow. flow.flow_id == flow_id))
unfolding release
get-release t flow_id now k u =
    get-remove_flows_where t (λ _ flow. flow.flow_id == flow_id) k u
    ∙ unless_lem (λ _ flow. flow.flow_id == flow_id) k (get k t.flows)

-- Whether an id counts as recently released, by the memory alone.
abbrev recent_in : HashMap String ℕ → String → ℕ → Bool
recent_in recent other later = elim (get other recent) [
  | none ↦ false
  | some at ↦ leb (later - at) released_flow_memory
]

recent_in-insert :
    (recent : HashMap String ℕ) (flow_id other : String) (now later : ℕ)
    → IsUnique recent
    → now ≤ later
    → recent_in
        (insert flow_id now (retain (λ _ at. leb (now - at) released_flow_memory) recent))
        other
        later
      ≡ (if flow_id == other
          then leb (later - now) released_flow_memory
          else recent_in recent other later)
recent_in-insert recent flow_id other now later u h =
    let kept = retain (λ (_ : String) at. leb (now - at) released_flow_memory) recent in
    ground (
      arith,
      get-insert flow_id other now kept,
      get-retain (λ (_ : String) at. leb (now - at) released_flow_memory) other recent u,
    )

-- From a release on, its id counts as recently released for `released_flow_memory`, and every
-- other id as it did; the remembered ids are unique.
pub was_recently_released-release :
    (t : FlowTable) (flow_id other : String) (now later : ℕ)
    → IsUnique t.recently_released
    → now ≤ later
    → was_recently_released (release t flow_id now) other later ≡ (
        if flow_id == other
        then leb (later - now) released_flow_memory
        else was_recently_released t other later)
unfolding release was_recently_released
was_recently_released-release t flow_id other now later u h =
    let same =
      ap (λ (x : FlowTable). x.recently_released)
        (remove_flows_where-SameRest t (λ _ flow. flow.flow_id == flow_id)) in
    rw same (recent_in-insert t.recently_released flow_id other now later u h)

-- An admission puts its flow at its key, and no other flow changes.
pub get-admit_flow :
    (t : FlowTable) (node_id : String) (port : ℕ) (dialled : Option Dialled) (g i d : String)
    (rs : List PortRule) (k : FlowKey)
    → let key : FlowKey = record { node_id = node_id; port = port; dialled = dialled } in
      get k (admit_flow t node_id port dialled g i d rs).flows
      ≡ (if key == k then some (new_flow key g i d rs) else get k t.flows)
unfolding admit_flow index_flow
get-admit_flow t node_id port none g i d rs k =
    let key = legacy_key node_id port in
    ground (
      arith,
      get-insert key k (new_flow key g i d rs) (remove_flow t key).flows,
      get-remove_flow t key k,
    )
get-admit_flow t node_id port (some dialled) g i d rs k =
    let key : FlowKey = record { node_id = node_id; port = port; dialled = some dialled } in
    ground (
      arith,
      get-insert key k (new_flow key g i d rs) (remove_flow t key).flows,
      get-remove_flow t key k,
    )

-- An eviction of a device from a gateway removes its flows there, and no other flow changes.
pub get-evict_gateway_device :
    (t : FlowTable) (g d : String) (k : FlowKey)
    → IsUnique t.flows
    → get k (evict_gateway_device t g d).0.flows
      ≡ and_then
          (get k t.flows)
          (unless (λ flow. flow.gateway_id == g && flow.device_public_key == d))
unfolding evict_gateway_device
get-evict_gateway_device t g d k u =
    get-remove_flows_where t (λ _ flow. flow.gateway_id == g && flow.device_public_key == d) k u
    ∙ unless_lem (λ _ flow. flow.gateway_id == g && flow.device_public_key == d) k (get k t.flows)

of_node :
    (node_id : String) (k : FlowKey) (o : Option AdmittedFlow)
    → (if selected (λ key _. key.node_id == node_id) k o then none else o)
      ≡ (if k.node_id == node_id then none else o)
unfolding selected
of_node node_id k none = ground arith
of_node node_id k (some flow) = refl

pub get-evict_node_flows :
    (t : FlowTable) (node_id : String) (k : FlowKey)
    → IsUnique t.flows
    → get k (evict_node t node_id).flows ≡ (if k.node_id == node_id then none else get k t.flows)
unfolding evict_node
get-evict_node_flows t node_id k u =
    get-remove_flows_where t (λ key _. key.node_id == node_id) k u
    ∙ of_node node_id k (get k t.flows)

-- In a table whose keys are unique, an evicted node holds no flow and no control channel's port,
-- and every other node keeps its own.
pub get-evict_node :
    (t : FlowTable) (node_id : String) (k : FlowKey) (port : ℕ)
    → IsUnique t.flows
    → IsUnique t.control_channel_ports
    → IsUnique t.outbound_control_channel_ports
    → (get k (evict_node t node_id).flows ≡ (if k.node_id == node_id then none else get k t.flows))
      × (node_for_control_channel_port (evict_node t node_id) port
          ≡ and_then
              (node_for_control_channel_port t port)
              (λ owner. if owner == node_id then none else some owner))
      × (node_for_outbound_control_channel_source_port (evict_node t node_id) port
          ≡ and_then
              (node_for_outbound_control_channel_source_port t port)
              (λ owner. if owner == node_id then none else some owner))
unfolding evict_node node_for_control_channel_port node_for_outbound_control_channel_source_port
get-evict_node t node_id k port u v w =
    let same = remove_flows_where-SameRest t (λ key _. key.node_id == node_id) in
    (
      get-evict_node_flows t node_id k u,
      rw (ap (λ (x : FlowTable). x.control_channel_ports) same) (
          ground (
            arith,
            get-retain (λ (_ : ℕ) owner. not (owner == node_id)) port t.control_channel_ports v,
          )),
      rw (ap (λ (x : FlowTable). x.outbound_control_channel_ports) same) (
          ground (
            arith,
            get-retain (λ (_ : ℕ) owner. not (owner == node_id)) port
                t.outbound_control_channel_ports w,
          )),
    )
