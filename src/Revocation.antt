-- ===== src/Revocation.antt =====
-- src/main.rs: the flows that a heartbeat's entitlement lists end, and the reports of them. The random
-- ids of the reports are a function of how many there are before.
pub mod Steps
pub mod Teardown
use secure_connect_connector.FlowTable.Flows.{evict_gateway_device}
use secure_connect_connector.Access.{find_bundle, find_entitlement}
use secure_connect_connector.GatewayEnd.{GatewayEndReport}
use secure_connect_connector.FlowTable.Types.{FlowTable}
use secure_connect_connector.Dto.{Entitlement, PolicyBundle}
use secure_connect_connector.Base.{
  Bool, List, Option, String, [], false, if◌then◌else◌, is_some, length, nat_key, none, some, ℕ,
  ◌++◌, ◌==◌, ◌∷◌,
}

-- The table and the reports so far.
pub record Reconciled : Type 0 where
  pub flow_table : FlowTable
  pub reports : List GatewayEndReport

-- Whether the first new bundle of a gateway still lists a device.
unfoldable pub still_entitled : List PolicyBundle → String → String → Bool
unfolding find_bundle find_entitlement
still_entitled new_bundles gateway_id device_public_key =
    elim (find_bundle gateway_id new_bundles) [
      | none ↦ false
      | some bundle ↦ is_some (find_entitlement device_public_key bundle.entitlement_list)
    ]

module _ (new_report_id : ℕ → String) (new_bundles : List PolicyBundle) (now_ms : ℕ) where
  -- The eviction of a device and, where it ended a flow, its report.
  unfoldable pub evict_and_report : Reconciled → String → String → String → Reconciled
  unfolding evict_gateway_device
  evict_and_report state gateway_id user_id device_public_key =
      let (table, evicted) = evict_gateway_device state.flow_table gateway_id device_public_key in
      record {
        flow_table = table;
        reports =
            if evicted == 0
            then state.reports
            else state.reports
              ++ record {
                report_id = new_report_id (length state.reports);
                gateway_id = gateway_id;
                user_id = user_id;
                device_public_key = device_public_key;
                ended_at = now_ms;
                flows_ended = evicted;
              }
                ∷ [];
      }

  -- One entitlement of an old bundle, of its device.
  unfoldable pub drop_device : Reconciled → String → String → Option String → Reconciled
  unfolding still_entitled evict_and_report
  drop_device state gateway_id user_id none = state
  drop_device state gateway_id user_id (some device_public_key) =
      if still_entitled new_bundles gateway_id device_public_key
      then state
      else evict_and_report state gateway_id user_id device_public_key

  unfoldable pub drop_entitlements : Reconciled → String → List Entitlement → Reconciled
  unfolding drop_device
  drop_entitlements state gateway_id [] = state
  drop_entitlements state gateway_id (entitlement ∷ entitlements) =
      drop_entitlements
        (drop_device state gateway_id entitlement.user_id entitlement.device_public_key) gateway_id
        entitlements

  unfoldable pub drop_bundles : Reconciled → List PolicyBundle → Reconciled
  unfolding drop_entitlements
  drop_bundles state [] = state
  drop_bundles state (bundle ∷ bundles) =
      drop_bundles (drop_entitlements state bundle.gateway_id bundle.entitlement_list) bundles

  -- `reconcile_dropped_entitlements`
  unfoldable pub reconcile_dropped_entitlements : FlowTable → List PolicyBundle → Reconciled
  unfolding drop_bundles
  reconcile_dropped_entitlements table old_bundles =
      drop_bundles (record { flow_table = table; reports = [] }) old_bundles
