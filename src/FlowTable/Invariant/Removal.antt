-- ===== src/FlowTable/Invariant/Removal.antt =====
-- The invariant of a table, and that removing flows keeps it.
use secure_connect_connector.Base.{
  List, Option-cases, String, [], ap, arith, if◌then◌else◌, inl, inr, nat_key, none, some,
  string_key, ℕ, ◌==◌, ◌∷◌, ◌≡◌, ◌≢◌,
}
use secure_connect_connector.HashMap.{contains_key, get, remove}
use secure_connect_connector.HashMap.Laws.{IsUnique, get-remove, remove-IsUnique}
use secure_connect_connector.FlowTable.Types.{
  AdmittedFlow, Dialled, FlowKey, FlowTable, allocation_key, flow_key, legacy_key,
}
use secure_connect_connector.FlowTable.Flows.{free_flow, remove_flow, remove_flows}
use secure_connect_connector.FlowTable.Invariant.Allocations.{
  IsIndexed, claimed, remove-IsIndexed, remove_unclaimed-IsIndexed,
}
use secure_connect_connector.FlowTable.Invariant.Nodes.{
  AreNodeSets, deindex-AreNodeSets, member, member-deindex,
}

-- Both indexes agree with the flows.
pub record IsValid (table : FlowTable) : Type 0 where
  pub distinct : IsUnique table.flows
  pub indexed : IsIndexed table.flows table.dialled_by_allocation
  pub nodes :
      (node_id : String) (port : ℕ)
      → member table.nodes_by_port node_id port ≡ contains_key (legacy_key node_id port) table.flows
  pub sets : AreNodeSets table.nodes_by_port

-- A removed flow is gone, and no other changes.
pub get-remove_flow :
    (table : FlowTable) (key k : FlowKey)
    → get k (remove_flow table key).flows ≡ (if key == k then none else get k table.flows)
unfolding remove_flow
get-remove_flow table key k = elim (Option-cases (get key table.flows)) [
  | inl e ↦ ground arith
  | inr (flow, e) ↦ ground (arith, get-remove key k table.flows)
]

key_eta : (key : FlowKey) → key.dialled ≡ none → key ≡ legacy_key key.node_id key.port
key_eta key e = λ i. record { node_id = key.node_id; port = key.port; dialled = e i }

module _ (table : FlowTable) (valid : IsValid table) (key : FlowKey) (flow : AdmittedFlow)
    (found : get key table.flows ≡ some flow) where
  free_plain-IsValid :
      key.dialled ≡ none
      → IsValid (free_flow (record table { flows = remove key table.flows }) key flow)
  unfolding free_flow claimed
  free_plain-IsValid plain =
      rw (plain, free_flow)
        (record {
          distinct = remove-IsUnique key table.flows valid.distinct;
          indexed = remove_unclaimed-IsIndexed valid.indexed key (rw found (rw (plain, claimed)));
          nodes = λ m q. ground (
            arith,
            member-deindex table.nodes_by_port key.node_id key.port m q,
            valid.nodes m q,
            get-remove key (legacy_key m q) table.flows,
            key_eta key plain,
          );
          sets = deindex-AreNodeSets table.nodes_by_port key.node_id key.port valid.sets;
        })

  other_key :
      (dialled : Dialled) → key.dialled ≡ some dialled → (m : String) (q : ℕ) → key ≢ legacy_key m q
  other_key dialled e m q p = cc (ap (λ (k : FlowKey). k.dialled) p)

  free_dialled-IsValid :
      (dialled : Dialled)
      → key.dialled ≡ some dialled
      → IsValid (free_flow (record table { flows = remove key table.flows }) key flow)
  unfolding free_flow claimed
  free_dialled-IsValid dialled e = elim (Option-cases flow.allocation) [
    | inl no_port ↦
        rw (e, free_flow)
          (rw (no_port, free_flow)
            (record {
              distinct = remove-IsUnique key table.flows valid.distinct;
              indexed =
                  remove_unclaimed-IsIndexed valid.indexed key (ground (arith, found, e, no_port));
              nodes = λ m q. ground (
                arith,
                valid.nodes m q,
                get-remove key (legacy_key m q) table.flows,
                other_key dialled e m q,
              );
              sets = valid.sets;
            }))
    | inr (held, port) ↦
        rw (e, free_flow)
          (rw (port, free_flow)
            (record {
              distinct = remove-IsUnique key table.flows valid.distinct;
              indexed = remove-IsIndexed valid.indexed key _ (ground (arith, found, e, port));
              nodes = λ m q. ground (
                arith,
                valid.nodes m q,
                get-remove key (legacy_key m q) table.flows,
                other_key dialled e m q,
              );
              sets = valid.sets;
            }))
  ]

pub remove_flow-IsValid :
    (table : FlowTable) (key : FlowKey) → IsValid table → IsValid (remove_flow table key)
unfolding remove_flow
remove_flow-IsValid table key valid = elim (Option-cases (get key table.flows)) [
  | inl e ↦ rw (e, remove_flow) valid
  | inr (flow, e) ↦
      rw (e, remove_flow)
        (elim (Option-cases key.dialled) [
          | inl plain ↦ free_plain-IsValid table valid key flow e plain
          | inr (dialled, named) ↦ free_dialled-IsValid table valid key flow e dialled named
        ])
]

pub remove_flows-IsValid :
    (table : FlowTable) (keys : List FlowKey) → IsValid table → IsValid (remove_flows table keys)
unfolding remove_flows
remove_flows-IsValid table [] valid = valid
remove_flows-IsValid table (key ∷ keys) valid =
    remove_flows-IsValid (remove_flow table key) keys (remove_flow-IsValid table key valid)
