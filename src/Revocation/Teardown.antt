-- ===== src/Revocation/Teardown.antt =====
-- Exactly the flows of dropped entitlements are torn down.
use secure_connect_connector.Revocation.Steps.{
  drop_bundles-IsStep, drop_device-IsStep, drop_entitlements-IsStep, get-evicted,
}
use mathlib.Core.List.{Memᴰ}
use secure_connect_connector.FlowTable.Invariant.Removal.{IsValid}
use secure_connect_connector.FlowTable.Types.{AdmittedFlow, FlowKey, FlowTable, flow_key}
use secure_connect_connector.Dto.{Entitlement, PolicyBundle}
use secure_connect_connector.HashMap.{get}
use secure_connect_connector.Base.{
  Bool-cases, List, Option, Option-cases, String, [], ap, arith, inl, inr, none, some, string_key,
  subst, sym, true, ℕ, ◌∙◌, ◌∷◌, ◌≡◌,
}
use secure_connect_connector.Revocation.{
  Reconciled, drop_bundles, drop_device, drop_entitlements, reconcile_dropped_entitlements,
  still_entitled,
}

module _ (new_report_id : ℕ → String) (new_bundles : List PolicyBundle) (now_ms : ℕ) where
  drop_device_ends :
      (s : Reconciled) (u : String) (device : Option String) (key : FlowKey) (flow : AdmittedFlow)
      → IsValid s.flow_table
      → device ≡ some flow.device_public_key
      → get key
          (drop_device new_report_id new_bundles now_ms s flow.gateway_id u device).flow_table.flows
        ≡ some flow
      → still_entitled new_bundles flow.gateway_id flow.device_public_key ≡ true
  unfolding drop_device
  drop_device_ends s u none key flow v d e = absurd (ground (arith, d))
  drop_device_ends s u (some k) key flow v d e =
      elim (Bool-cases (still_entitled new_bundles flow.gateway_id flow.device_public_key)) [
        | inl h ↦ h
        | inr h ↦
            let same : k ≡ flow.device_public_key = ground (arith, d) in
            elim (Option-cases (get key s.flow_table.flows)) [
              | inl f ↦ absurd (
                  ground (
                    arith,
                    get-evicted new_report_id new_bundles now_ms s flow.gateway_id u k key v,
                    e,
                    f,
                    h,
                    same,
                  ))
              | inr (held, f) ↦ absurd (
                  ground (
                    arith,
                    get-evicted new_report_id new_bundles now_ms s flow.gateway_id u k key v,
                    e,
                    f,
                    h,
                    same,
                  ))
            ]
      ]

  drop_entitlements_ends :
      (s : Reconciled) (list : List Entitlement) (entitlement : Entitlement) (key : FlowKey)
      (flow : AdmittedFlow)
      → IsValid s.flow_table
      → Memᴰ entitlement list
      → entitlement.device_public_key ≡ some flow.device_public_key
      → get key
          (drop_entitlements new_report_id new_bundles now_ms s flow.gateway_id
            list).flow_table.flows
        ≡ some flow
      → still_entitled new_bundles flow.gateway_id flow.device_public_key ≡ true
  unfolding drop_entitlements
  drop_entitlements_ends s [] entitlement key flow v m d e = elim m [ ]
  drop_entitlements_ends s (x ∷ xs) entitlement key flow v (Memᴰ.head same) d e =
      let first =
        drop_device-IsStep new_report_id new_bundles now_ms s flow.gateway_id x.user_id
          x.device_public_key v in
      let rest =
        drop_entitlements-IsStep new_report_id new_bundles now_ms
          (drop_device new_report_id new_bundles now_ms s flow.gateway_id x.user_id
            x.device_public_key)
          flow.gateway_id xs first.valid in
      drop_device_ends s x.user_id x.device_public_key key flow v
        (ap (λ (y : Entitlement). y.device_public_key) (sym same) ∙ d) (rest.removes key flow e)
  drop_entitlements_ends s (x ∷ xs) entitlement key flow v (Memᴰ.tail m) d e =
      drop_entitlements_ends
        (drop_device new_report_id new_bundles now_ms s flow.gateway_id x.user_id
          x.device_public_key)
        xs entitlement key flow
        (drop_device-IsStep new_report_id new_bundles now_ms s flow.gateway_id x.user_id
          x.device_public_key v).valid
        m d e

  drop_bundles_ends :
      (s : Reconciled) (old : List PolicyBundle) (bundle : PolicyBundle) (entitlement : Entitlement)
      (key : FlowKey) (flow : AdmittedFlow)
      → IsValid s.flow_table
      → Memᴰ bundle old
      → bundle.gateway_id ≡ flow.gateway_id
      → Memᴰ entitlement bundle.entitlement_list
      → entitlement.device_public_key ≡ some flow.device_public_key
      → get key (drop_bundles new_report_id new_bundles now_ms s old).flow_table.flows ≡ some flow
      → still_entitled new_bundles flow.gateway_id flow.device_public_key ≡ true
  unfolding drop_bundles
  drop_bundles_ends s [] bundle entitlement key flow v m g l d e = elim m [ ]
  drop_bundles_ends s (b ∷ bs) bundle entitlement key flow v (Memᴰ.head same) g l d e =
      let first =
        drop_entitlements-IsStep new_report_id new_bundles now_ms s b.gateway_id b.entitlement_list
          v in
      let rest =
        drop_bundles-IsStep new_report_id new_bundles now_ms
          (drop_entitlements new_report_id new_bundles now_ms s b.gateway_id b.entitlement_list) bs
          first.valid in
      let gateway : b.gateway_id ≡ flow.gateway_id =
        ap (λ (y : PolicyBundle). y.gateway_id) (sym same) ∙ g in
      drop_entitlements_ends s b.entitlement_list entitlement key flow v
        (subst (λ (y : PolicyBundle). Memᴰ entitlement y.entitlement_list) same l) d
        (subst
          (λ h.
            get key
              (drop_entitlements new_report_id new_bundles now_ms s h
                b.entitlement_list).flow_table.flows
            ≡ some flow)
          gateway (rest.removes key flow e))
  drop_bundles_ends s (b ∷ bs) bundle entitlement key flow v (Memᴰ.tail m) g l d e =
      drop_bundles_ends
        (drop_entitlements new_report_id new_bundles now_ms s b.gateway_id b.entitlement_list) bs
        bundle entitlement key flow
        (drop_entitlements-IsStep new_report_id new_bundles now_ms s b.gateway_id b.entitlement_list
          v).valid
        m g l d e

  pub reconcile_dropped_entitlements-IsValid :
      (table : FlowTable) (old : List PolicyBundle)
      → IsValid table
      → IsValid
          (reconcile_dropped_entitlements new_report_id new_bundles now_ms table old).flow_table
  unfolding reconcile_dropped_entitlements
  reconcile_dropped_entitlements-IsValid table old v =
      (drop_bundles-IsStep new_report_id new_bundles now_ms
        (record { flow_table = table; reports = [] }) old v).valid

  -- After a heartbeat's entitlements are reconciled in a well-formed table, a flow that is left,
  -- and whose device the old policy entitled to the flow's gateway, was there before, and the new
  -- policy still entitles it.
  pub reconcile_dropped_entitlements_ended :
      (table : FlowTable) (old : List PolicyBundle) (bundle : PolicyBundle)
      (entitlement : Entitlement) (key : FlowKey) (flow : AdmittedFlow)
      → IsValid table
      → Memᴰ bundle old
      → bundle.gateway_id ≡ flow.gateway_id
      → Memᴰ entitlement bundle.entitlement_list
      → entitlement.device_public_key ≡ some flow.device_public_key
      → get key
          (reconcile_dropped_entitlements new_report_id new_bundles now_ms table
            old).flow_table.flows
        ≡ some flow
      → (get key table.flows ≡ some flow)
        × (still_entitled new_bundles flow.gateway_id flow.device_public_key ≡ true)
  unfolding reconcile_dropped_entitlements
  reconcile_dropped_entitlements_ended table old bundle entitlement key flow v m g l d e =
      let start : Reconciled = record { flow_table = table; reports = [] } in
      (
        (drop_bundles-IsStep new_report_id new_bundles now_ms start old v).removes key flow e,
        drop_bundles_ends start old bundle entitlement key flow v m g l d e,
      )

  -- In a well-formed table, a flow whose device the new policy entitles to the flow's gateway is
  -- left as it was when a heartbeat's entitlements are reconciled, whatever the old policy was.
  pub reconcile_dropped_entitlements_kept :
      (table : FlowTable) (old : List PolicyBundle) (key : FlowKey) (flow : AdmittedFlow)
      → IsValid table
      → get key table.flows ≡ some flow
      → still_entitled new_bundles flow.gateway_id flow.device_public_key ≡ true
      → get key
          (reconcile_dropped_entitlements new_report_id new_bundles now_ms table
            old).flow_table.flows
        ≡ some flow
  unfolding reconcile_dropped_entitlements
  reconcile_dropped_entitlements_kept table old key flow v e entitled =
      (drop_bundles-IsStep new_report_id new_bundles now_ms
          (record { flow_table = table; reports = [] }) old v).keeps
        key flow e entitled
