-- ===== src/FlowTable/Bounds.antt =====
-- The table's memory stays bounded, whatever the nodes send.
pub mod Histories
use secure_connect_connector.Dto.{PortRule}
use secure_connect_connector.HashMap.Laws.{IsUnique, insert-IsUnique, retain-IsUnique}
use secure_connect_connector.HashMap.{HashMap}
use secure_connect_connector.Base.{
  Bool, Bool-cases, List, Option, String, [], ap, inl, inr, none, some, string_key, subst, sym, ℕ,
  ◌==◌, ◌∷◌, ◌≡◌,
}
use secure_connect_connector.FlowTable.Types.{
  AdmittedFlow, Dialled, FlowKey, FlowTable, RuleEndedFlow, flow_key, legacy_key,
}
use secure_connect_connector.FlowTable.Flows.{
  admit_flow, evict_node, index_flow, release, remove_flow, remove_flows_where, selected_keys,
}
use secure_connect_connector.FlowTable.Flows.Effects.{
  remove_flow-SameRest, remove_flows_where-SameRest,
}
use secure_connect_connector.FlowTable.RuleChanges.{check_ended, end_flows, is_rule_ended}
use secure_connect_connector.FlowTable.RuleChanges.Memory.{
  IsRemembered, check_ended-IsRemembered, forget_one, remember_all-IsRemembered,
}
use secure_connect_connector.FlowTable.ControlPorts.{BoundedPorts, inbound, outbound}
use secure_connect_connector.FlowTable.ControlPorts.Bounds.{
  IsWithinCap, forget_node_ports-IsWithinCap,
}
use secure_connect_connector.FlowTable.Pending.Reclaims.{IsHeld}

-- What a table remembers beside its flows.
pub record Memory : Type 0 where
  pub pending : HashMap FlowKey (List ℕ × ℕ)
  pub ended : HashMap FlowKey ℕ
  pub released : HashMap String ℕ
  pub opened_by_node : BoundedPorts
  pub opened_here : BoundedPorts

abbrev pub memory : FlowTable → Memory
memory t = record {
  pending = t.pending_packets;
  ended = t.rule_ended_flows;
  released = t.recently_released;
  opened_by_node = inbound t;
  opened_here = outbound t;
}

pub record IsBounded (m : Memory) : Type 0 where
  pub pending : IsHeld m.pending
  pub ended : IsRemembered m.ended
  pub released : IsUnique m.released
  pub opened_by_node : IsWithinCap m.opened_by_node
  pub opened_here : IsWithinCap m.opened_here

pub memory-remove_flows_where :
    (t : FlowTable) (drop_it : FlowKey → AdmittedFlow → Bool)
    → memory (remove_flows_where t drop_it).0 ≡ memory t
memory-remove_flows_where t drop_it = ap memory (remove_flows_where-SameRest t drop_it)

memory-remove_flow : (t : FlowTable) (key : FlowKey) → memory (remove_flow t key) ≡ memory t
memory-remove_flow t key = ap memory (remove_flow-SameRest t key)

pub admit_flow-IsBounded :
    (t : FlowTable) (n : String) (p : ℕ) (d : Option Dialled) (g i k : String) (rs : List PortRule)
    → IsBounded (memory t)
    → IsBounded (memory (admit_flow t n p d g i k rs))
unfolding admit_flow index_flow
admit_flow-IsBounded t n p none g i k rs b =
    let key = legacy_key n p in
    let v = subst IsBounded (sym (memory-remove_flow t key)) b in
    record {
      pending = v.pending;
      ended = forget_one key _ v.ended;
      released = v.released;
      opened_by_node = v.opened_by_node;
      opened_here = v.opened_here;
    }
admit_flow-IsBounded t n p (some d) g i k rs b =
    let key : FlowKey = record { node_id = n; port = p; dialled = some d } in
    let v = subst IsBounded (sym (memory-remove_flow t key)) b in
    record {
      pending = v.pending;
      ended = forget_one key _ v.ended;
      released = v.released;
      opened_by_node = v.opened_by_node;
      opened_here = v.opened_here;
    }

pub release-IsBounded :
    (t : FlowTable) (i : String) (now : ℕ)
    → IsBounded (memory t)
    → IsBounded (memory (release t i now))
unfolding release
release-IsBounded t i now b =
    let v = subst IsBounded (sym (memory-remove_flows_where t (λ _ flow. flow.flow_id == i))) b in
    record {
      pending = v.pending;
      ended = v.ended;
      released = insert-IsUnique i now _ (retain-IsUnique _ _ v.released);
      opened_by_node = v.opened_by_node;
      opened_here = v.opened_here;
    }

pub evict_node-IsBounded :
    (t : FlowTable) (n : String) → IsBounded (memory t) → IsBounded (memory (evict_node t n))
unfolding evict_node
evict_node-IsBounded t n b =
    let v = subst IsBounded (sym (memory-remove_flows_where t (λ key _. key.node_id == n))) b in
    record {
      pending = v.pending;
      ended = v.ended;
      released = v.released;
      opened_by_node = forget_node_ports-IsWithinCap _ n v.opened_by_node;
      opened_here = forget_node_ports-IsWithinCap _ n v.opened_here;
    }

pub end_flows-IsBounded :
    (t : FlowTable) (drop_it : FlowKey → AdmittedFlow → Bool) (now : ℕ) (ended : List RuleEndedFlow)
    → IsBounded (memory t)
    → IsBounded (memory (end_flows t drop_it now ended).0)
unfolding end_flows
end_flows-IsBounded t drop_it now [] b = b
end_flows-IsBounded t drop_it now (flow ∷ flows) b =
    let v = subst IsBounded (sym (memory-remove_flows_where t drop_it)) b in
    record {
      pending = v.pending;
      ended = remember_all-IsRemembered _ (selected_keys drop_it t.flows) now v.ended;
      released = v.released;
      opened_by_node = v.opened_by_node;
      opened_here = v.opened_here;
    }

pub is_rule_ended-IsBounded :
    (t : FlowTable) (n : String) (p : ℕ) (d : Option Dialled) (now : ℕ)
    → IsBounded (memory t)
    → IsBounded (memory (is_rule_ended t n p d now).0)
unfolding is_rule_ended
is_rule_ended-IsBounded t n p d now b =
    let key : FlowKey = record { node_id = n; port = p; dialled = d } in
    let first = check_ended t.rule_ended_flows key now in
    let v = check_ended-IsRemembered t.rule_ended_flows key now b.ended in
    elim (Bool-cases first.1) [
      | inl hit ↦
          rw (hit, is_rule_ended)
            (record {
              pending = b.pending;
              ended = v;
              released = b.released;
              opened_by_node = b.opened_by_node;
              opened_here = b.opened_here;
            })
      | inr miss ↦
          rw (miss, is_rule_ended)
            (record {
              pending = b.pending;
              ended = check_ended-IsRemembered first.0 (legacy_key n p) now v;
              released = b.released;
              opened_by_node = b.opened_by_node;
              opened_here = b.opened_here;
            })
    ]
