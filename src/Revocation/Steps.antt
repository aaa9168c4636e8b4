-- ===== src/Revocation/Steps.antt =====
-- src/main.rs: each step of a reconciliation only removes flows, and none that is still entitled.
use secure_connect_connector.FlowTable.Flows.Effects.{get-evict_gateway_device, unless}
use secure_connect_connector.FlowTable.Invariant.Changes.{evict_gateway_device-IsValid}
use secure_connect_connector.FlowTable.Invariant.Removal.{IsValid}
use secure_connect_connector.FlowTable.Types.{AdmittedFlow, FlowKey, flow_key}
use secure_connect_connector.Dto.{Entitlement, PolicyBundle}
use secure_connect_connector.HashMap.{get}
use secure_connect_connector.Base.{
  Bool-cases, List, Option, Option-cases, String, [], and_then, arith, inl, inr, none, some,
  string_key, true, ℕ, ◌&&◌, ◌==◌, ◌∷◌, ◌≡◌,
}
use secure_connect_connector.Revocation.{
  Reconciled, drop_bundles, drop_device, drop_entitlements, evict_and_report, still_entitled,
}

module _ (new_report_id : ℕ → String) (new_bundles : List PolicyBundle) (now_ms : ℕ) where
  pub evict-IsValid :
      (s : Reconciled) (g u k : String)
      → IsValid s.flow_table
      → IsValid (evict_and_report new_report_id new_bundles now_ms s g u k).flow_table
  unfolding evict_and_report
  evict-IsValid s g u k v = evict_gateway_device-IsValid s.flow_table g k v

  pub get-evicted :
      (s : Reconciled) (g u k : String) (key : FlowKey)
      → IsValid s.flow_table
      → get key (evict_and_report new_report_id new_bundles now_ms s g u k).flow_table.flows
        ≡ and_then
            (get key s.flow_table.flows)
            (unless (λ flow. flow.gateway_id == g && flow.device_public_key == k))
  unfolding evict_and_report
  get-evicted s g u k key v = get-evict_gateway_device s.flow_table g k key v.distinct

  -- A step between two states: the table stays well-formed, flows are only removed, and those that are
  -- still entitled stay.
  pub record IsStep (s after : Reconciled) : Type 0 where
    pub valid : IsValid after.flow_table
    pub removes :
        (key : FlowKey) (flow : AdmittedFlow)
        → get key after.flow_table.flows ≡ some flow
        → get key s.flow_table.flows ≡ some flow
    pub keeps :
        (key : FlowKey) (flow : AdmittedFlow)
        → get key s.flow_table.flows ≡ some flow
        → still_entitled new_bundles flow.gateway_id flow.device_public_key ≡ true
        → get key after.flow_table.flows ≡ some flow

  pub drop_device-IsStep :
      (s : Reconciled) (g u : String) (device : Option String)
      → IsValid s.flow_table
      → IsStep s (drop_device new_report_id new_bundles now_ms s g u device)
  unfolding drop_device
  drop_device-IsStep s g u none v = record { valid = v; removes = λ _ _ e. e; keeps = λ _ _ e _. e }
  drop_device-IsStep s g u (some k) v = elim (Bool-cases (still_entitled new_bundles g k)) [
    | inl h ↦ rw (h, drop_device) (record { valid = v; removes = λ _ _ e. e; keeps = λ _ _ e _. e })
    | inr h ↦
        rw (h, drop_device)
          (record {
            valid = evict-IsValid s g u k v;
            removes = λ key flow e. removed s g u k key flow v e;
            keeps =
                λ key flow e entitled. ground (arith, get-evicted s g u k key v, e, entitled, h);
          })
  ]
    where
      removed :
          (s : Reconciled) (g u k : String) (key : FlowKey) (flow : AdmittedFlow)
          → IsValid s.flow_table
          → get key (evict_and_report new_report_id new_bundles now_ms s g u k).flow_table.flows
            ≡ some flow
          → get key s.flow_table.flows ≡ some flow
      removed s g u k key flow v e = elim (Option-cases (get key s.flow_table.flows)) [
        | inl f ↦ absurd (ground (arith, get-evicted s g u k key v, e, f))
        | inr (held, f) ↦ ground (arith, get-evicted s g u k key v, e, f)
      ]

  then-IsStep : (s t u : Reconciled) → IsStep s t → IsStep t u → IsStep s u
  then-IsStep s t u a b = record {
    valid = b.valid;
    removes = λ key flow e. a.removes key flow (b.removes key flow e);
    keeps = λ key flow e entitled. b.keeps key flow (a.keeps key flow e entitled) entitled;
  }

  pub drop_entitlements-IsStep :
      (s : Reconciled) (g : String) (list : List Entitlement)
      → IsValid s.flow_table
      → IsStep s (drop_entitlements new_report_id new_bundles now_ms s g list)
  unfolding drop_entitlements
  drop_entitlements-IsStep s g [] v = record {
    valid = v;
    removes = λ _ _ e. e;
    keeps = λ _ _ e _. e;
  }
  drop_entitlements-IsStep s g (x ∷ xs) v =
      let first = drop_device-IsStep s g x.user_id x.device_public_key v in
      then-IsStep s _ _ first (
        drop_entitlements-IsStep
          (drop_device new_report_id new_bundles now_ms s g x.user_id x.device_public_key) g xs
          first.valid)

  pub drop_bundles-IsStep :
      (s : Reconciled) (old : List PolicyBundle)
      → IsValid s.flow_table
      → IsStep s (drop_bundles new_report_id new_bundles now_ms s old)
  unfolding drop_bundles
  drop_bundles-IsStep s [] v = record { valid = v; removes = λ _ _ e. e; keeps = λ _ _ e _. e }
  drop_bundles-IsStep s (b ∷ bs) v =
      let first = drop_entitlements-IsStep s b.gateway_id b.entitlement_list v in
      then-IsStep s _ _ first (
        drop_bundles-IsStep
          (drop_entitlements new_report_id new_bundles now_ms s b.gateway_id b.entitlement_list) bs
          first.valid)
