-- ===== src/Endpoints/Changes.antt =====
-- src/main.rs: what the port rules of a heartbeat do to the admitted flows of every gateway.
use secure_connect_connector.HashMap.Laws.{get-insert, get-retain_keys}
use Prim.Native.String.{String}
use secure_connect_connector.Access.{find_bundle}
use secure_connect_connector.Dto.{PolicyBundle, PortRule, rules}
use secure_connect_connector.Endpoints.{reconcile_endpoint_changes, update_each}
use secure_connect_connector.Endpoints.Reported.{gateway_ids}
use secure_connect_connector.FlowTable.Flows.Effects.{remove_flows_where-SameRest}
use secure_connect_connector.FlowTable.Types.{
  AdmittedFlow, FlowKey, FlowTable, RuleEndedFlow, flow_key,
}
use secure_connect_connector.FlowTable.RuleChanges.{
  current_rules, end_flows, retain_gateway_rules, unserved, update_rules,
}
use secure_connect_connector.FlowTable.RuleChanges.Effects.{after_rules, get-update_rules}
use secure_connect_connector.FlowTable.Invariant.Removal.{IsValid}
use secure_connect_connector.FlowTable.Invariant.Changes.{IsValid-same, update_rules-IsValid}
use secure_connect_connector.HashMap.{get}
use secure_connect_connector.Base.{
  Bool, IsDistinct, List, Option, Option-cases, [], and_then, ap, arith, elem, false, if◌then◌else◌,
  inl, inr, is_some, nat_key, none, option_map, refl, some, string_key, ℕ, ◌==◌, ◌∙◌, ◌∷◌, ◌≡◌,
}

-- A flow after all rules of a heartbeat: by the bundle of its gateway, or as it was without one.
unfoldable pub after_bundles : List PolicyBundle → FlowKey → AdmittedFlow → Option AdmittedFlow
after_bundles bundles key flow = elim (find_bundle flow.gateway_id bundles) [
  | none ↦ some flow
  | some bundle ↦ after_rules flow.gateway_id (rules bundle) key flow
]

find_bundle-none :
    (id : String) (bundles : List PolicyBundle)
    → elem id (gateway_ids bundles) ≡ false
    → find_bundle id bundles ≡ none
unfolding find_bundle elem
find_bundle-none id [] h = refl
find_bundle-none id (bundle ∷ bundles) h = ground (arith, find_bundle-none id bundles)

after_bundles-cons :
    (bundle : PolicyBundle) (bundles : List PolicyBundle) (key : FlowKey) (flow : AdmittedFlow)
    → elem bundle.gateway_id (gateway_ids bundles) ≡ false
    → and_then (after_rules bundle.gateway_id (rules bundle) key flow) (after_bundles bundles key)
      ≡ after_bundles (bundle ∷ bundles) key flow
unfolding after_bundles after_rules find_bundle
after_bundles-cons bundle bundles key flow h =
    ground (arith, find_bundle-none bundle.gateway_id bundles)

get-update_each :
    (table : FlowTable) (bundles : List PolicyBundle) (now : ℕ) (k : FlowKey)
    → IsValid table
    → IsDistinct (gateway_ids bundles)
    → get k (update_each table bundles now).0.flows
      ≡ and_then (get k table.flows) (after_bundles bundles k)
unfolding update_each
get-update_each table [] now k valid d = unfold after_bundles find_bundle in ground arith
get-update_each table (bundle ∷ bundles) now k valid d =
    let updated = (update_rules table bundle.gateway_id (rules bundle) now).0 in
    let one = get-update_rules table bundle.gateway_id (rules bundle) now k valid.distinct in
    let next =
      get-update_each updated bundles now k
        (update_rules-IsValid table bundle.gateway_id (rules bundle) now valid) d.1 in
    elim (Option-cases (get k table.flows)) [
      | inl e ↦ next ∙ rw (one, e) refl
      | inr (flow, e) ↦ next ∙ rw (one, e) (after_bundles-cons bundle bundles k flow d.0)
    ]

end_flows_rules :
    (table : FlowTable) (drop_it : FlowKey → AdmittedFlow → Bool) (now : ℕ)
    (ended : List RuleEndedFlow)
    → (end_flows table drop_it now ended).0.gateway_rules ≡ table.gateway_rules
unfolding end_flows
end_flows_rules table drop_it now [] = refl
end_flows_rules table drop_it now (flow ∷ flows) =
    ap (λ (t : FlowTable). t.gateway_rules) (remove_flows_where-SameRest table drop_it)

current_rules-update_rules :
    (table : FlowTable) (id : String) (rs : List PortRule) (now : ℕ) (gateway_id : String)
    → current_rules (update_rules table id rs now).0 gateway_id
      ≡ (if id == gateway_id then some rs else current_rules table gateway_id)
unfolding current_rules update_rules
current_rules-update_rules table id rs now gateway_id =
    ap (get gateway_id) (end_flows_rules _ (unserved id rs) now _)
    ∙ get-insert id gateway_id rs table.gateway_rules

rules_in : List PolicyBundle → String → Option (List PortRule)
rules_in bundles gateway_id = option_map rules (find_bundle gateway_id bundles)

current_rules-update_each :
    (table : FlowTable) (bundles : List PolicyBundle) (now : ℕ) (gateway_id : String)
    → IsDistinct (gateway_ids bundles)
    → current_rules (update_each table bundles now).0 gateway_id ≡ (
        if is_some (find_bundle gateway_id bundles)
        then rules_in bundles gateway_id
        else current_rules table gateway_id)
unfolding update_each rules_in find_bundle
current_rules-update_each table [] now gateway_id d = refl
current_rules-update_each table (bundle ∷ bundles) now gateway_id d =
    let updated = (update_rules table bundle.gateway_id (rules bundle) now).0 in
    ground (
      arith,
      current_rules-update_each updated bundles now gateway_id d.1,
      current_rules-update_rules table bundle.gateway_id (rules bundle) now gateway_id,
      find_bundle-none bundle.gateway_id bundles d.0,
    )

-- After the rules of a heartbeat whose bundles name no gateway twice are applied to a well-formed
-- table: a flow of a gateway without a bundle is as it was, a flow of a gateway with one has that
-- bundle's rules, and is gone where they no longer serve it; no flow is new; and the rules that the
-- table holds for a gateway are those of its bundle, or none without one.
pub reconcile_endpoint_changes_lem :
    (table : FlowTable) (new_bundles : List PolicyBundle) (now : ℕ) (k : FlowKey)
    (gateway_id : String)
    → IsValid table
    → IsDistinct (gateway_ids new_bundles)
    → (get k (reconcile_endpoint_changes table new_bundles now).0.flows
        ≡ and_then (get k table.flows) (after_bundles new_bundles k))
      × (current_rules (reconcile_endpoint_changes table new_bundles now).0 gateway_id
          ≡ option_map rules (find_bundle gateway_id new_bundles))
unfolding reconcile_endpoint_changes
reconcile_endpoint_changes_lem table new_bundles now k gateway_id valid d =
    let keep = λ (id : String). is_some (find_bundle id new_bundles) in
    let retained = retain_gateway_rules table keep in
    let own : current_rules retained gateway_id
        ≡ (if keep gateway_id then current_rules table gateway_id else none) =
      unfold current_rules retain_gateway_rules in
      get-retain_keys keep gateway_id table.gateway_rules in
    (
      unfold retain_gateway_rules in
          get-update_each _ new_bundles now k (IsValid-same table _ refl refl refl valid) d,
      current_rules-update_each retained new_bundles now gateway_id d
          ∙ unfold rules_in in ground (arith, own),
    )

update_each-IsValid :
    (table : FlowTable) (bundles : List PolicyBundle) (now : ℕ)
    → IsValid table
    → IsValid (update_each table bundles now).0
unfolding update_each
update_each-IsValid table [] now valid = valid
update_each-IsValid table (bundle ∷ bundles) now valid =
    update_each-IsValid (update_rules table bundle.gateway_id (rules bundle) now).0 bundles now
      (update_rules-IsValid table bundle.gateway_id (rules bundle) now valid)

pub reconcile_endpoint_changes-IsValid :
    (table : FlowTable) (new_bundles : List PolicyBundle) (now : ℕ)
    → IsValid table
    → IsValid (reconcile_endpoint_changes table new_bundles now).0
unfolding reconcile_endpoint_changes retain_gateway_rules
reconcile_endpoint_changes-IsValid table new_bundles now valid =
    update_each-IsValid _ new_bundles now (IsValid-same table _ refl refl refl valid)
