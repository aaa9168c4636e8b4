-- ===== src/FlowTable/Invariant/Changes.antt =====
-- Each operation on the flows keeps the indexes in agreement with them.
use secure_connect_connector.Base.{
  Bool, List, Option, String, [], arith, nat_key, none, refl, some, string_key, ℕ, ◌∷◌, ◌≡◌,
}
use secure_connect_connector.HashMap.{get, insert, map_values}
use secure_connect_connector.HashMap.Laws.{
  get-insert, get-map_values, insert-IsUnique, map_values-IsUnique,
}
use secure_connect_connector.Dto.{PortRule}
use secure_connect_connector.FlowTable.Types.{
  AdmittedFlow, Dialled, FlowKey, FlowTable, RuleEndedFlow, allocation_key, flow_key, legacy_key,
}
use secure_connect_connector.FlowTable.Flows.{
  admit_flow, evict_gateway_device, evict_node, index_flow, index_node, new_flow, release,
  remove_flow,
}
use secure_connect_connector.FlowTable.RuleChanges.{end_flows, refresh_flow, unserved, update_rules}
use secure_connect_connector.FlowTable.Invariant.Allocations.{
  claimed, claims, insert_unclaimed-IsIndexed, map_values-IsIndexed,
}
use secure_connect_connector.FlowTable.Invariant.Nodes.{index_node-AreNodeSets, member-index_node}
use secure_connect_connector.FlowTable.Invariant.Removal.{
  IsValid, get-remove_flow, remove_flow-IsValid,
}
use secure_connect_connector.FlowTable.Invariant.Selection.{remove_flows_where-IsValid}

-- Any change of what the invariant does not speak of.
pub IsValid-same :
    (s t : FlowTable)
    → s.flows ≡ t.flows
    → s.dialled_by_allocation ≡ t.dialled_by_allocation
    → s.nodes_by_port ≡ t.nodes_by_port
    → IsValid s
    → IsValid t
IsValid-same s t f a n valid = record {
  distinct = rw (← f) valid.distinct;
  indexed = rw (← f, ← a) valid.indexed;
  nodes = λ m q. rw (← f, ← n) (valid.nodes m q);
  sets = rw (← n) valid.sets;
}

new_flow-claimed :
    (key : FlowKey) (g i d : String) (rs : List PortRule)
    → claimed key (new_flow key g i d rs) ≡ none
unfolding claimed new_flow
new_flow-claimed key g i d rs = ground arith

-- Indexing and inserting a flow at a key that holds none.
insert_plain-IsValid :
    (table : FlowTable) (node_id : String) (port : ℕ) (flow : AdmittedFlow)
    → IsValid table
    → get (legacy_key node_id port) table.flows ≡ none
    → IsValid (record table {
      flows = insert (legacy_key node_id port) flow table.flows;
      nodes_by_port = index_node table.nodes_by_port node_id port;
    })
unfolding claimed
insert_plain-IsValid table node_id port flow valid absent =
    let key = legacy_key node_id port in
    record {
      distinct = insert-IsUnique key flow table.flows valid.distinct;
      indexed = insert_unclaimed-IsIndexed valid.indexed key flow (rw absent) refl;
      nodes = λ m q. ground (
        arith,
        member-index_node table.nodes_by_port node_id port m q,
        valid.nodes m q,
        get-insert key (legacy_key m q) flow table.flows,
      );
      sets = index_node-AreNodeSets table.nodes_by_port node_id port valid.sets;
    }

insert_dialled-IsValid :
    (table : FlowTable) (key : FlowKey) (dialled : Dialled) (flow : AdmittedFlow)
    → key.dialled ≡ some dialled
    → IsValid table
    → claims table.flows key ≡ none
    → claimed key flow ≡ none
    → IsValid (record table { flows = insert key flow table.flows })
insert_dialled-IsValid table key dialled flow named valid absent no_port = record {
  distinct = insert-IsUnique key flow table.flows valid.distinct;
  indexed = insert_unclaimed-IsIndexed valid.indexed key flow absent no_port;
  nodes = λ m q. ground (arith, valid.nodes m q, get-insert key (legacy_key m q) flow table.flows);
  sets = valid.sets;
}

pub admit_flow-IsValid :
    (table : FlowTable) (node_id : String) (port : ℕ) (dialled : Option Dialled) (g i d : String)
    (rs : List PortRule)
    → IsValid table
    → IsValid (admit_flow table node_id port dialled g i d rs)
unfolding admit_flow index_flow
admit_flow-IsValid table node_id port none g i d rs valid =
    let key = legacy_key node_id port in
    IsValid-same _ _ refl refl refl (
      insert_plain-IsValid (remove_flow table key) node_id port (new_flow key g i d rs)
        (remove_flow-IsValid table key valid) (ground (arith, get-remove_flow table key key)))
admit_flow-IsValid table node_id port (some dialled) g i d rs valid =
    let key : FlowKey = record { node_id = node_id; port = port; dialled = some dialled } in
    IsValid-same _ _ refl refl refl (
      insert_dialled-IsValid (remove_flow table key) key dialled (new_flow key g i d rs) refl
        (remove_flow-IsValid table key valid) (ground (arith, get-remove_flow table key key))
        (new_flow-claimed key g i d rs))

pub release-IsValid :
    (table : FlowTable) (flow_id : String) (now : ℕ)
    → IsValid table
    → IsValid (release table flow_id now)
unfolding release
release-IsValid table flow_id now valid =
    IsValid-same _ _ refl refl refl (remove_flows_where-IsValid table _ valid)

pub evict_node-IsValid :
    (table : FlowTable) (node_id : String) → IsValid table → IsValid (evict_node table node_id)
unfolding evict_node
evict_node-IsValid table node_id valid =
    IsValid-same _ _ refl refl refl (remove_flows_where-IsValid table _ valid)

pub evict_gateway_device-IsValid :
    (table : FlowTable) (g d : String) → IsValid table → IsValid (evict_gateway_device table g d).0
unfolding evict_gateway_device
evict_gateway_device-IsValid table g d valid = remove_flows_where-IsValid table _ valid

refreshed-IsValid :
    (table : FlowTable) (g : String) (rs : List PortRule)
    → IsValid table
    → IsValid (record table {
      gateway_rules = insert g rs table.gateway_rules;
      flows = map_values (refresh_flow g rs) table.flows;
    })
unfolding refresh_flow claimed
refreshed-IsValid table g rs valid = record {
  distinct = map_values-IsUnique _ table.flows valid.distinct;
  indexed = map_values-IsIndexed valid.indexed _ (λ key flow. ground arith);
  nodes = λ m q.
      ground
        (arith, valid.nodes m q, get-map_values (refresh_flow g rs) (legacy_key m q) table.flows);
  sets = valid.sets;
}

end_flows-IsValid :
    (table : FlowTable) (drop_it : FlowKey → AdmittedFlow → Bool) (now : ℕ)
    (ended : List RuleEndedFlow)
    → IsValid table
    → IsValid (end_flows table drop_it now ended).0
unfolding end_flows
end_flows-IsValid table drop_it now [] valid = valid
end_flows-IsValid table drop_it now (flow ∷ flows) valid =
    IsValid-same _ _ refl refl refl (remove_flows_where-IsValid table drop_it valid)

pub update_rules-IsValid :
    (table : FlowTable) (g : String) (rs : List PortRule) (now : ℕ)
    → IsValid table
    → IsValid (update_rules table g rs now).0
unfolding update_rules
update_rules-IsValid table g rs now valid =
    end_flows-IsValid _ (unserved g rs) now _ (refreshed-IsValid table g rs valid)
