-- ===== src/Cycle/Revoked.antt =====
-- src/main.rs: a heartbeat ends the flows of the devices that its policy no longer entitles.
use secure_connect_connector.Package.{
  Connector, Libraries, Surroundings, follow_nodes, follow_rules, put_in_force,
  queue_gateway_end_reports, reconcile_entitlements,
}
use secure_connect_connector.GatewayEnd.{report_ids}
use secure_connect_connector.Revocation.Teardown.{reconcile_dropped_entitlements_ended}
use secure_connect_connector.Revocation.{still_entitled}
use secure_connect_connector.Policy.{Applied, PolicyState, applied, expired, state_of, unparseable}
use secure_connect_connector.Cycle.Invariant.{
  IsSound, apply_response-IsSound, ask-IsSound, follow_nodes-IsSound,
  reconcile_entitlements-IsSound,
}
use secure_connect_connector.Cycle.Trust.{IsBeaten, IsInForce, take_answered}
use secure_connect_connector.Cycle.{
  apply_response, ask, bundles_in_force, finish, run_heartbeat, take_answer,
}
use Prim.Native.String.{String}
use mathlib.Core.List.{Memᴰ}
use secure_connect_connector.AgentDirectory.{
  Answer, agent_key, answered, list_failed, lists_none, none_answered, refused,
}
use secure_connect_connector.Dto.{
  ConnectorHeartbeatResponse, Entitlement, PolicyBundle, PortRule, rules,
}
use secure_connect_connector.Endpoints.{reconcile_endpoint_changes, update_each}
use secure_connect_connector.FlowTable.Types.{AdmittedFlow, FlowKey, FlowTable, flow_key}
use secure_connect_connector.FlowTable.RuleChanges.{retain_gateway_rules, update_rules}
use secure_connect_connector.FlowTable.RuleChanges.Effects.{after_rules, get-update_rules}
use secure_connect_connector.FlowTable.Invariant.Removal.{IsValid}
use secure_connect_connector.FlowTable.Invariant.Changes.{IsValid-same, update_rules-IsValid}
use secure_connect_connector.HashMap.{HashMap, get}
use secure_connect_connector.Base.{
  List, Option-cases, [], ap, arith, inl, inr, none, option_map, refl, some, string_key, subst, sym,
  true, ℕ, ◌∙◌, ◌∷◌, ◌≡◌,
}

-- A flow is one of an earlier table's, but for its rules.
abbrev pub IsOf : HashMap FlowKey AdmittedFlow → FlowKey → AdmittedFlow → Type 0
IsOf flows k flow =
    (before : AdmittedFlow) × (get k flows ≡ some before)
    × (before.gateway_id ≡ flow.gateway_id)
    × (before.device_public_key ≡ flow.device_public_key)

update_rules-IsOf :
    (table : FlowTable) (id : String) (rs : List PortRule) (now : ℕ) (k : FlowKey)
    (flow : AdmittedFlow)
    → IsValid table
    → get k (update_rules table id rs now).0.flows ≡ some flow
    → IsOf table.flows k flow
update_rules-IsOf table id rs now k flow valid h =
    let one = get-update_rules table id rs now k valid.distinct in
    elim (Option-cases (get k table.flows)) [
      | inl e ↦
          let none_left : get k (update_rules table id rs now).0.flows ≡ none = one ∙ rw e refl in
          cc (none_left, h)
      | inr (before, e) ↦
          let left : after_rules id rs k before ≡ some flow = sym (one ∙ rw e refl) ∙ h in
          (
            before,
            e,
            unfold after_rules in ground (arith, left),
            unfold after_rules in ground (arith, left),
          )
    ]

update_each-IsOf :
    (table : FlowTable) (bundles : List PolicyBundle) (now : ℕ) (k : FlowKey) (flow : AdmittedFlow)
    → IsValid table
    → get k (update_each table bundles now).0.flows ≡ some flow
    → IsOf table.flows k flow
unfolding update_each
update_each-IsOf table [] now k flow valid h = (flow, h, refl, refl)
update_each-IsOf table (bundle ∷ bundles) now k flow valid h =
    let updated = (update_rules table bundle.gateway_id (rules bundle) now).0 in
    let (middle, e, g, d) =
      update_each-IsOf updated bundles now k flow
        (update_rules-IsValid table bundle.gateway_id (rules bundle) now valid) h in
    let (before, e', g', d') =
      update_rules-IsOf table bundle.gateway_id (rules bundle) now k middle valid e in
    (before, e', g' ∙ g, d' ∙ d)

reconcile_endpoint_changes-IsOf :
    (table : FlowTable) (bundles : List PolicyBundle) (now : ℕ) (k : FlowKey) (flow : AdmittedFlow)
    → IsValid table
    → get k (reconcile_endpoint_changes table bundles now).0.flows ≡ some flow
    → IsOf table.flows k flow
unfolding reconcile_endpoint_changes retain_gateway_rules
reconcile_endpoint_changes-IsOf table bundles now k flow valid h =
    update_each-IsOf _ bundles now k flow (IsValid-same table _ refl refl refl valid) h

module _ (libraries : Libraries) where
  -- The old bundles entitled a device to a gateway.
  pub record WasEntitled (old : List PolicyBundle) (gateway_id device_public_key : String)
      : Type 0 where
    pub bundle : PolicyBundle
    pub entitlement : Entitlement
    pub listed : Memᴰ bundle old
    pub gateway : bundle.gateway_id ≡ gateway_id
    pub entry : Memᴰ entitlement bundle.entitlement_list
    pub device : entitlement.device_public_key ≡ some device_public_key

  reconcile_entitlements_ended :
      (around : Surroundings libraries.serde.Bytes) (c : Connector libraries)
      (old new_bundles : List PolicyBundle) (k : FlowKey) (flow : AdmittedFlow)
      → IsSound libraries c
      → WasEntitled old flow.gateway_id flow.device_public_key
      → get k (reconcile_entitlements libraries around c (some old) new_bundles).flow_table.flows
        ≡ some flow
      → still_entitled new_bundles flow.gateway_id flow.device_public_key ≡ true
  unfolding reconcile_entitlements queue_gateway_end_reports
  reconcile_entitlements_ended around c old new_bundles k flow s was h =
      (reconcile_dropped_entitlements_ended around.new_report_id new_bundles around.now_ms
        c.flow_table old was.bundle was.entitlement k flow s.table was.listed was.gateway was.entry
        was.device h).1

  put_in_force_ended :
      (around : Surroundings libraries.serde.Bytes) (c : Connector libraries)
      (old : List PolicyBundle) (response : ConnectorHeartbeatResponse) (k : FlowKey)
      (flow : AdmittedFlow)
      → IsSound libraries c
      → WasEntitled old flow.gateway_id flow.device_public_key
      → get k (put_in_force libraries around c (some old) response).0.flow_table.flows ≡ some flow
      → still_entitled response.policy_bundles flow.gateway_id flow.device_public_key ≡ true
  unfolding put_in_force follow_rules
  put_in_force_ended around c old response k flow s was h =
      let bundles = response.policy_bundles in
      let dialled = (follow_nodes libraries c (some old) response).0 in
      let sound = follow_nodes-IsSound libraries c (some old) response s in
      let reconciled = reconcile_entitlements libraries around dialled (some old) bundles in
      let next = reconcile_entitlements-IsSound libraries around dialled (some old) bundles sound in
      let (before, e, g, d) =
        reconcile_endpoint_changes-IsOf reconciled.flow_table bundles around.instant k flow
          next.table h in
      rw (← g, ← d)
        (reconcile_entitlements_ended around dialled old bundles k before sound (rw (g, d) was) e)

  finish_ended :
      (around : Surroundings libraries.serde.Bytes) (c : Connector libraries)
      (old : List PolicyBundle) (response : ConnectorHeartbeatResponse) (result : Applied)
      (k : FlowKey) (flow : AdmittedFlow)
      → IsSound libraries c
      → WasEntitled old flow.gateway_id flow.device_public_key
      → IsBeaten libraries (finish libraries around c (some old) response result).2
      → get k (finish libraries around c (some old) response result).0.flow_table.flows ≡ some flow
      → still_entitled response.policy_bundles flow.gateway_id flow.device_public_key ≡ true
  unfolding finish
  finish_ended around c old response applied k flow s was b h =
      put_in_force_ended around c old response k flow s was h
  finish_ended around c old response unparseable k flow s was b h = absurd b
  finish_ended around c old response expired k flow s was b h = absurd b

  abbrev Ends : Surroundings libraries.serde.Bytes → Connector libraries → AdmittedFlow → Type 0
  Ends around after flow =
      (response : ConnectorHeartbeatResponse) × IsInForce libraries.parsers.parse_from_rfc3339
        after.policy_store response around.utc_now
      × (still_entitled response.policy_bundles flow.gateway_id flow.device_public_key ≡ true)

  take_answer_ended :
      (around : Surroundings libraries.serde.Bytes) (c : Connector libraries)
      (old : List PolicyBundle) (ids : List String) (answer : Answer ConnectorHeartbeatResponse)
      (k : FlowKey) (flow : AdmittedFlow)
      → IsSound libraries c
      → WasEntitled old flow.gateway_id flow.device_public_key
      → IsBeaten libraries (take_answer libraries around c (some old) ids answer).2
      → get k (take_answer libraries around c (some old) ids answer).0.flow_table.flows ≡ some flow
      → Ends around (take_answer libraries around c (some old) ids answer).0 flow
  take_answer_ended around c old ids (answered response) k flow s was b h =
      let (taken, result) = apply_response libraries around c ids response in
      (
        response,
        take_answered libraries around c (some old) ids response b,
        finish_ended around taken old response result k flow
            (apply_response-IsSound libraries around c ids response s) was b h,
      )
  take_answer_ended around c old ids (refused r) k flow s was b h = absurd b
  take_answer_ended around c old ids (list_failed e) k flow s was b h = absurd b
  take_answer_ended around c old ids lists_none k flow s was b h = absurd b
  take_answer_ended around c old ids (none_answered failures) k flow s was b h = absurd b

  -- After a heartbeat that succeeds on a sound connector, a flow that is still there, and whose
  -- device the policy in force before entitled to the flow's gateway, is one whose device the policy
  -- in force after it entitles to that gateway: a device that lost its entitlement has no flow left.
  pub run_heartbeat_ended :
      (key : String) (around : Surroundings libraries.serde.Bytes) (c : Connector libraries)
      (state : PolicyState) (k : FlowKey) (flow : AdmittedFlow)
      → IsSound libraries c
      → c.policy_store.state ≡ some state
      → WasEntitled state.policy_bundles flow.gateway_id flow.device_public_key
      → IsBeaten libraries (run_heartbeat libraries key around c).2
      → get k (run_heartbeat libraries key around c).0.flow_table.flows ≡ some flow
      → (after : PolicyState) × ((run_heartbeat libraries key around c).0.policy_store.state
          ≡ some after)
        × (still_entitled after.policy_bundles flow.gateway_id flow.device_public_key ≡ true)
  unfolding run_heartbeat
  run_heartbeat_ended key around c state k flow s in_force was b h =
      let (asked, sent, answer) = ask libraries key around c in
      let old : bundles_in_force libraries c ≡ some state.policy_bundles =
        ap (λ st. option_map (λ (x : PolicyState). x.policy_bundles) st) in_force in
      let (response, now_in_force, entitled) =
        take_answer_ended around asked state.policy_bundles (report_ids sent) answer k flow
          (ask-IsSound libraries key around c s) was
          (subst
            (λ o.
              IsBeaten libraries (take_answer libraries around asked o (report_ids sent) answer).2)
            old b)
          (subst
            (λ o.
              get k
                (take_answer libraries around asked o (report_ids sent) answer).0.flow_table.flows
              ≡ some flow)
            old h) in
      (
        state_of response,
        subst
            (λ o.
              (take_answer libraries around asked o (report_ids sent) answer).0.policy_store.state
              ≡ some (state_of response))
            (sym old) now_in_force.state,
        unfold state_of in entitled,
      )
