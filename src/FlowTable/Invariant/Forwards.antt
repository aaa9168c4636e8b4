-- ===== src/FlowTable/Invariant/Forwards.antt =====
-- Forwarding a packet keeps the indexes in agreement with the flows.
use secure_connect_connector.FlowTable.SourcePorts.Search.{allocate_source_port_unused}
use secure_connect_connector.FlowTable.Invariant.Changes.{IsValid-same}
use secure_connect_connector.DnsCache.{DnsCache}
use secure_connect_connector.FlowTable.SourcePorts.{allocate_source_port}
use secure_connect_connector.FlowTable.Rules.{Resolved, err, ok}
use secure_connect_connector.Net.{Ipv4Addr}
use secure_connect_connector.HashMap.Laws.{get-insert, get-remove, insert-IsUnique}
use secure_connect_connector.HashMap.{contains_key, get, insert}
use secure_connect_connector.Base.{
  Bool-cases, Option, Option-cases, String, arith, inl, inr, nat_key, none, refl, some, unwrap_or,
  ℕ, ◌==◌, ◌≡◌,
}
use secure_connect_connector.FlowTable.Types.{
  AdmittedFlow, Dialled, FlowKey, FlowTable, allocation_key, flow_key, legacy_key,
  source_port_range,
}
use secure_connect_connector.FlowTable.Forward.{
  allocate, forward, forward_legacy, forward_plain, forward_resolved, forward_with_identity,
  held_port, keep_or_allocate, take_allocation,
}
use secure_connect_connector.FlowTable.Invariant.Allocations.{IsIndexed, claimed, insert-IsIndexed}
use secure_connect_connector.FlowTable.Invariant.Nodes.{member}
use secure_connect_connector.FlowTable.Invariant.Removal.{IsValid}

-- A flow replaced by one with the same source port.
replace-IsIndexed :
    (table : FlowTable) (key : FlowKey) (old flow : AdmittedFlow)
    → IsIndexed table.flows table.dialled_by_allocation
    → get key table.flows ≡ some old
    → claimed key flow ≡ claimed key old
    → IsIndexed (insert key flow table.flows) table.dialled_by_allocation
replace-IsIndexed table key old flow valid found same = record {
  held = λ k r c. ground (arith, get-insert key k flow table.flows, valid.held k r);
  backed = λ k r c. ground (arith, get-insert key k flow table.flows, valid.backed k r);
}

replace-nodes :
    (table : FlowTable) (key : FlowKey) (old flow : AdmittedFlow)
    → IsValid table
    → get key table.flows ≡ some old
    → (m : String) (q : ℕ)
    → member table.nodes_by_port m q ≡ contains_key (legacy_key m q) (insert key flow table.flows)
replace-nodes table key old flow valid found m q =
    ground (arith, valid.nodes m q, get-insert key (legacy_key m q) flow table.flows)

module _ (table : FlowTable) (key : FlowKey) (dialled : Dialled)
    (named : key.dialled ≡ some dialled) (flow : AdmittedFlow) (valid : IsValid table)
    (found : get key table.flows ≡ some flow) where
  -- The flow without its source port stands at its key.
  pub get-take_allocation :
      get key (take_allocation table key dialled.transport flow).flows
      ≡ some (record flow { allocation = none })
  unfolding take_allocation
  get-take_allocation = elim (Option-cases flow.allocation) [
    | inl e ↦ ground arith
    | inr (held, e) ↦
        ground (arith, get-insert key key (record flow { allocation = none }) table.flows)
  ]

  pub take_allocation-IsValid : IsValid (take_allocation table key dialled.transport flow)
  unfolding take_allocation claimed
  take_allocation-IsValid = elim (Option-cases flow.allocation) [
    | inl e ↦ rw (e, take_allocation) valid
    | inr (held, e) ↦
        rw (e, take_allocation)
          (record {
            distinct = insert-IsUnique key _ table.flows valid.distinct;
            indexed = record {
              held = λ k r c. ground (
                arith,
                get-insert key k (record flow { allocation = none }) table.flows,
                get-remove (dialled.transport, held.target.0, held.target.1, held.port) r
                    table.dialled_by_allocation,
                valid.indexed.held k r,
                valid.indexed.held key (dialled.transport, held.target.0, held.target.1, held.port),
              );
              backed = λ k r c. ground (
                arith,
                get-insert key k (record flow { allocation = none }) table.flows,
                get-remove (dialled.transport, held.target.0, held.target.1, held.port) r
                    table.dialled_by_allocation,
                valid.indexed.backed k r,
              );
            };
            nodes = replace-nodes table key flow _ valid found;
            sets = valid.sets;
          })
  ]

  pub allocate-IsValid :
      (address : Ipv4Addr) (internal_port : ℕ)
      → IsValid (allocate table key dialled flow address internal_port).0
  unfolding allocate claimed
  allocate-IsValid address internal_port =
      let taken = take_allocation table key dialled.transport flow in
      let start = take_allocation-IsValid in
      let range = unwrap_or taken.source_port_range source_port_range in
      elim (Option-cases
        (allocate_source_port taken.dialled_by_allocation taken.next_source_port range
          dialled.transport (address, internal_port)).0) [
            | inl e ↦ rw (e, allocate) (IsValid-same _ _ refl refl refl start)
            | inr (port, e) ↦
                rw (e, allocate)
                  (record {
                    distinct = insert-IsUnique key _ taken.flows start.distinct;
                    indexed =
                        insert-IsIndexed start.indexed key _ _ (ground (arith, get-take_allocation))
                          (ground arith)
                          (allocate_source_port_unused taken.dialled_by_allocation
                            taken.next_source_port range dialled.transport (address, internal_port)
                            port e);
                    nodes = replace-nodes taken key _ _ start get-take_allocation;
                    sets = start.sets;
                  })
          ]

  forward_resolved-IsValid : (r : Resolved) → IsValid (forward_resolved table key dialled flow r).0
  unfolding forward_resolved keep_or_allocate
  forward_resolved-IsValid (err outcome) = valid
  forward_resolved-IsValid (ok address internal_port) =
      elim (Option-cases (held_port flow address internal_port)) [
        | inl e ↦ rw (e, forward_resolved) (allocate-IsValid address internal_port)
        | inr (port, e) ↦ rw (e, forward_resolved) valid
      ]

forward_with_identity-IsValid :
    (table : FlowTable) (key : FlowKey) (dialled : Dialled) (dns_cache : DnsCache)
    → key.dialled ≡ some dialled
    → IsValid table
    → IsValid (forward_with_identity table key dialled dns_cache).0
unfolding forward_with_identity
forward_with_identity-IsValid table key dialled dns_cache named valid =
    elim (Option-cases (get key table.flows)) [
      | inl e ↦ rw (e, forward_with_identity) valid
      | inr (flow, e) ↦
          rw (e, forward_with_identity)
            (forward_resolved-IsValid table key dialled named flow valid e _)
    ]

forward_plain-IsValid :
    (table : FlowTable) (node_id : String) (port : ℕ) (flow : AdmittedFlow)
    (dialled : Option Dialled) (destination_port : ℕ) (r : Resolved)
    → IsValid table
    → get (legacy_key node_id port) table.flows ≡ some flow
    → IsValid (forward_plain table (legacy_key node_id port) flow dialled destination_port r).0
unfolding forward_plain
forward_plain-IsValid table node_id port flow dialled destination_port (err outcome) valid found =
    valid
forward_plain-IsValid table node_id port flow dialled destination_port (ok address internal_port)
      valid found =
    elim (Bool-cases (internal_port == destination_port)) [
      | inl e ↦
          rw (e, forward_plain)
            (record {
              distinct = insert-IsUnique _ _ table.flows valid.distinct;
              indexed =
                  replace-IsIndexed table (legacy_key node_id port) flow _ valid.indexed found
                    (unfold claimed in refl);
              nodes = replace-nodes table (legacy_key node_id port) flow _ valid found;
              sets = valid.sets;
            })
      | inr e ↦ rw (e, forward_plain) valid
    ]

forward_legacy-IsValid :
    (table : FlowTable) (node_id : String) (port : ℕ) (dialled : Option Dialled)
    (destination_port : ℕ) (dns_cache : DnsCache)
    → IsValid table
    → IsValid (forward_legacy table node_id port dialled destination_port dns_cache).0
unfolding forward_legacy
forward_legacy-IsValid table node_id port dialled destination_port dns_cache valid =
    elim (Option-cases (get (legacy_key node_id port) table.flows)) [
      | inl e ↦ rw (e, forward_legacy) valid
      | inr (flow, e) ↦
          rw (e, forward_legacy)
            (forward_plain-IsValid table node_id port flow dialled destination_port _ valid e)
    ]

pub forward-IsValid :
    (table : FlowTable) (node_id : String) (port : ℕ) (dialled : Option Dialled)
    (destination_port : ℕ) (dns_cache : DnsCache)
    → IsValid table
    → IsValid (forward table node_id port dialled destination_port dns_cache).0
unfolding forward
forward-IsValid table node_id port none destination_port dns_cache valid =
    forward_legacy-IsValid table node_id port none destination_port dns_cache valid
forward-IsValid table node_id port (some packet) destination_port dns_cache valid =
    let key : FlowKey = record { node_id = node_id; port = port; dialled = some packet } in
    ground (
      arith,
      forward_with_identity-IsValid table key packet dns_cache refl valid,
      forward_legacy-IsValid table node_id port (some packet) destination_port dns_cache valid,
    )
