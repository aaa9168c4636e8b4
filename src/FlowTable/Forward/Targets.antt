-- ===== src/FlowTable/Forward/Targets.antt =====
-- A packet is forwarded for an admitted flow only, and only where one of its rules leads.
use secure_connect_connector.Net.{Ipv4Addr}
use secure_connect_connector.HashMap.{contains_key, get}
use secure_connect_connector.Base.{
  Bool-cases, List, Option, Option-cases, String, [], arith, false, inl, inr, none, refl, some,
  string_key, true, unwrap_or, ℕ, ◌∷◌, ◌≡◌,
}
use secure_connect_connector.DnsCache.{DnsCache, resolve}
use secure_connect_connector.Dto.{PortRule}
use secure_connect_connector.FlowTable.Types.{
  AdmittedFlow, Dialled, FlowKey, FlowTable, Transport, flow_key, forwards, legacy_key,
  not_admitted,
}
use secure_connect_connector.FlowTable.Rules.{
  Resolved, err, matching_rule, ok, only, resolve_only, resolve_rule, serving,
}
use secure_connect_connector.FlowTable.Forward.{
  allocate, forward, forward_legacy, forward_plain, forward_resolved, forward_with_identity,
  held_port, keep_or_allocate, legacy_flow_accepts,
}

-- One rule of the flow opens the packet's transport and port, and it leads to the address and port.
pub record LeadsTo (dns_cache : DnsCache) (flow : AdmittedFlow) (transport : Option Transport)
    (dialled_port : ℕ) (address : Ipv4Addr) (internal_port : ℕ) : Type 0 where
  pub rule : PortRule
  pub matched : matching_rule flow.rules transport dialled_port ≡ some rule
  pub resolved : resolve dns_cache rule.internal_host ≡ some address
  pub port : rule.internal_port ≡ internal_port

resolve_only-LeadsTo :
    (dns_cache : DnsCache) (rules : List PortRule) (address : Ipv4Addr) (internal_port : ℕ)
    → resolve_only dns_cache rules ≡ ok address internal_port
    → (rule : PortRule) × (only rules ≡ some rule)
      × (resolve dns_cache rule.internal_host ≡ some address)
      × (rule.internal_port ≡ internal_port)
unfolding resolve_only only
resolve_only-LeadsTo dns_cache [] address internal_port e = cc
resolve_only-LeadsTo dns_cache (rule ∷ []) address internal_port e =
    (rule, refl, ground arith, ground arith)
resolve_only-LeadsTo dns_cache (_ ∷ _ ∷ _) address internal_port e = cc

resolve_rule-LeadsTo :
    (dns_cache : DnsCache) (flow : AdmittedFlow) (transport : Option Transport) (dialled_port : ℕ)
    (address : Ipv4Addr) (internal_port : ℕ)
    → resolve_rule flow.rules transport dialled_port dns_cache ≡ ok address internal_port
    → LeadsTo dns_cache flow transport dialled_port address internal_port
unfolding resolve_rule matching_rule
resolve_rule-LeadsTo dns_cache flow transport dialled_port address internal_port e =
    let (rule, m, r, p) =
      resolve_only-LeadsTo dns_cache (serving transport dialled_port flow.rules) address
        internal_port e in
    record { rule = rule; matched = m; resolved = r; port = p }

-- The flow that a packet with an identity may use: the one admitted with exactly that identity, or
-- one without, which was first seen with the packet's gateway, or with none yet on an old node.
pub data MayUse (table : FlowTable) (node_id : String) (port : ℕ) (packet : Dialled)
    (flow : AdmittedFlow) : Type 0 where
  exact :
      get (record { node_id = node_id; port = port; dialled = some packet }) table.flows ≡ some flow
      → MayUse table node_id port packet flow
  seen :
      get (legacy_key node_id port) table.flows ≡ some flow
      → flow.virtual_address ≡ some packet.gateway_address
      → MayUse table node_id port packet flow
  unseen :
      get (legacy_key node_id port) table.flows ≡ some flow
      → flow.virtual_address ≡ none
      → contains_key node_id table.dialled_nodes ≡ false
      → MayUse table node_id port packet flow

module _ (table : FlowTable) (key : FlowKey) (dialled : Dialled) (flow : AdmittedFlow)
    (dns_cache : DnsCache) where
  allocate_address :
      (address a : Ipv4Addr) (internal_port : ℕ) (q s : Option ℕ)
      → (allocate table key dialled flow address internal_port).1 ≡ forwards a q s
      → (address ≡ a) × (internal_port ≡ unwrap_or q dialled.destination_port)
  unfolding allocate
  allocate_address address a internal_port q s e = ground arith

  keep_or_allocate_address :
      (address a : Ipv4Addr) (internal_port : ℕ) (held q s : Option ℕ)
      → (keep_or_allocate table key dialled flow address internal_port held).1 ≡ forwards a q s
      → (address ≡ a) × (internal_port ≡ unwrap_or q dialled.destination_port)
  unfolding keep_or_allocate
  keep_or_allocate_address address a internal_port (some port) q s e = ground arith
  keep_or_allocate_address address a internal_port none q s e =
      allocate_address address a internal_port q s e

  forward_resolved_address :
      (r : Resolved) (a : Ipv4Addr) (q s : Option ℕ)
      → (forward_resolved table key dialled flow r).1 ≡ forwards a q s
      → r ≡ ok a (unwrap_or q dialled.destination_port)
  unfolding forward_resolved
  forward_resolved_address (err outcome) a q s e = cc
  forward_resolved_address (ok address internal_port) a q s e =
      let (same, port) =
        keep_or_allocate_address address a internal_port (held_port flow address internal_port) q s
          e in
      cc

forward_with_identity-LeadsTo :
    (table : FlowTable) (key : FlowKey) (dialled : Dialled) (dns_cache : DnsCache) (a : Ipv4Addr)
    (q s : Option ℕ)
    → (forward_with_identity table key dialled dns_cache).1 ≡ forwards a q s
    → (flow : AdmittedFlow) × (get key table.flows ≡ some flow)
      × LeadsTo dns_cache flow
          (some dialled.transport)
          dialled.destination_port
          a
          (unwrap_or q dialled.destination_port)
unfolding forward_with_identity
forward_with_identity-LeadsTo table key dialled dns_cache a q s e =
    elim (Option-cases (get key table.flows)) [
      | inl f ↦ absurd (ground arith)
      | inr (flow, f) ↦ (
        flow,
        f,
        resolve_rule-LeadsTo dns_cache flow _ _ a _ (
            forward_resolved_address table key dialled flow dns_cache _ a q s
              (rw (f, forward_with_identity) at e)),
      )
    ]

pub forward_plain_address :
    (table : FlowTable) (key : FlowKey) (flow : AdmittedFlow) (dialled : Option Dialled) (port : ℕ)
    (r : Resolved) (a : Ipv4Addr) (q s : Option ℕ)
    → (forward_plain table key flow dialled port r).1 ≡ forwards a q s
    → (r ≡ ok a (unwrap_or q port)) × (s ≡ none)
unfolding forward_plain
forward_plain_address table key flow dialled port (err outcome) a q s e = cc
forward_plain_address table key flow dialled port (ok address internal_port) a q s e = ground arith

forward_legacy-LeadsTo :
    (table : FlowTable) (node_id : String) (port : ℕ) (packet : Dialled) (dns_cache : DnsCache)
    (a : Ipv4Addr) (q s : Option ℕ)
    → (forward_legacy table node_id port (some packet) packet.destination_port dns_cache).1
      ≡ forwards a q s
    → (flow : AdmittedFlow) × (get (legacy_key node_id port) table.flows ≡ some flow)
      × LeadsTo dns_cache flow
          (some packet.transport)
          packet.destination_port
          a
          (unwrap_or q packet.destination_port)
unfolding forward_legacy
forward_legacy-LeadsTo table node_id port packet dns_cache a q s e =
    elim (Option-cases (get (legacy_key node_id port) table.flows)) [
      | inl f ↦ absurd (ground arith)
      | inr (flow, f) ↦ (
        flow,
        f,
        resolve_rule-LeadsTo dns_cache flow _ _ a _
            (forward_plain_address table (legacy_key node_id port) flow (some packet)
              packet.destination_port _ a q s (rw (f, forward_legacy) at e)).0,
      )
    ]

accepted-MayUse :
    (table : FlowTable) (node_id : String) (port : ℕ) (packet : Dialled) (flow : AdmittedFlow)
    → get (legacy_key node_id port) table.flows ≡ some flow
    → legacy_flow_accepts table node_id port packet.gateway_address ≡ true
    → MayUse table node_id port packet flow
unfolding legacy_flow_accepts
accepted-MayUse table node_id port packet flow f e = elim (Option-cases flow.virtual_address) [
  | inl no_address ↦ unseen f no_address (ground arith)
  | inr (address, known) ↦ seen f (ground (arith, rw (f, known, legacy_flow_accepts) at e))
]

-- A packet with an identity is forwarded only for an admitted flow that it may use, and only to the
-- internal address and port of the one rule of that flow that opens the packet's transport and port.
pub forward-MayUse :
    (table : FlowTable) (node_id : String) (port : ℕ) (packet : Dialled) (dns_cache : DnsCache)
    (a : Ipv4Addr) (q s : Option ℕ)
    → (forward table node_id port (some packet) packet.destination_port dns_cache).1
      ≡ forwards a q s
    → (flow : AdmittedFlow) × MayUse table node_id port packet flow
      × LeadsTo dns_cache flow
          (some packet.transport)
          packet.destination_port
          a
          (unwrap_or q packet.destination_port)
unfolding forward
forward-MayUse table node_id port packet dns_cache a q s e =
    let key : FlowKey = record { node_id = node_id; port = port; dialled = some packet } in
    elim (Bool-cases (contains_key key table.flows)) [
      | inl known ↦
          let (flow, f, l) =
            forward_with_identity-LeadsTo table key packet dns_cache a q s
              (rw (known, forward) at e) in
          (flow, exact f, l)
      | inr other ↦
          elim (Bool-cases (legacy_flow_accepts table node_id port packet.gateway_address)) [
            | inl accepts ↦
                let (flow, f, l) =
                  forward_legacy-LeadsTo table node_id port packet dns_cache a q s
                    (rw (other, accepts, forward) at e) in
                (flow, accepted-MayUse table node_id port packet flow f accepts, l)
            | inr refuses ↦ absurd (ground arith)
          ]
    ]

-- A packet for which no flow is admitted, with its identity or without one, changes nothing and is
-- reported as not admitted.
pub forward_unadmitted :
    (table : FlowTable) (node_id : String) (port : ℕ) (packet : Dialled) (destination_port : ℕ)
    (dns_cache : DnsCache)
    → get (record { node_id = node_id; port = port; dialled = some packet }) table.flows ≡ none
    → get (legacy_key node_id port) table.flows ≡ none
    → forward table node_id port (some packet) destination_port dns_cache ≡ (table, not_admitted)
unfolding forward forward_legacy
forward_unadmitted table node_id port packet destination_port dns_cache e f = ground arith
