-- ===== src/Tests/Reports.antt =====
-- The theorems on reports, tunnels and port rules, at concrete inputs.
use Prim.Native.String.{String}
use mathlib.Core.List.Perm as Perm
use secure_connect_connector.Access.{find_bundle}
use secure_connect_connector.GatewayEnd.{
  GatewayEndQueue, GatewayEndReport, is_served, load, max_reports_per_heartbeat, not_renamed,
  pending, renamed, torn_write,
}
use secure_connect_connector.GatewayEnd.Delivery.{deliver, deliver_exact}
use secure_connect_connector.GatewayEnd.Durability.{
  Operation, Refines, acknowledges, enqueues, run, run-load-Refines, sends, spec_run,
}
use secure_connect_connector.TunnelManager.{seen_ids, sync_nodes}
use secure_connect_connector.TunnelManager.Sync.{refreshed}
use secure_connect_connector.TunnelManager.Nodes.{sync_nodes_reported}
use secure_connect_connector.Dialling.{dial_new_nodes}
use secure_connect_connector.Dialling.Evictions.{get-dial_new_nodes}
use secure_connect_connector.Endpoints.{
  collect_endpoint_hosts, entitlement_list_sha256, reconcile_endpoint_changes, unresolved_hosts_in,
}
use secure_connect_connector.Endpoints.Reported.{
  entitlement_list_sha256_perm, unresolved_hosts_in_lem,
}
use secure_connect_connector.Endpoints.Changes.{after_bundles, reconcile_endpoint_changes_lem}
use secure_connect_connector.DnsCache.{resolve}
use secure_connect_connector.Dto.{Entitlement, rules}
use secure_connect_connector.FlowTable.RuleChanges.{current_rules}
use secure_connect_connector.FlowTable.Types.{flow_key}
use secure_connect_connector.HashMap.{contains_key, get}
use secure_connect_connector.Tests.Fleet.{
  bundle, entitled, no_file, no_tunnels, node, serde, wireguard,
}
use secure_connect_connector.Tests.Data.{no_names, two_flows, two_flows-IsValid, web_key}
use secure_connect_connector.Base.{
  IsDistinct, List, String-discrete, [], and_then, drop, elem, filter_list, if◌then◌else◌, is_some,
  none, not, option_map, refl, string_key, take, true, ℕ, ◌&&◌, ◌∷◌, ◌≡◌,
}

abbrev pub report : GatewayEndReport
report = record {
  report_id = "r1";
  gateway_id = "g1";
  user_id = "u1";
  device_public_key = "k1";
  ended_at = 6000;
  flows_ended = 1;
}

abbrev pub queue : GatewayEndQueue (List GatewayEndReport)
queue = record { disk = no_file; reports = report ∷ record report { report_id = "r2" } ∷ [] }

deliver_exact_example :
    ((pending serde renamed queue 7000).1
      ≡ take max_reports_per_heartbeat (filter_list (is_served 7000) queue.reports))
    × ((deliver serde renamed renamed 7000 queue).reports
        ≡ drop max_reports_per_heartbeat (filter_list (is_served 7000) queue.reports))
    × ((pending serde renamed queue 7000).0.reports ≡ filter_list (is_served 7000) queue.reports)
unfolding elem String-discrete
deliver_exact_example = deliver_exact serde renamed renamed 7000 queue (refl, (refl, tt))

abbrev operations : List (Operation (List GatewayEndReport))
operations =
    enqueues renamed (report ∷ [])
    ∷ sends not_renamed 7000
    ∷ acknowledges (torn_write none) ("r1" ∷ [])
    ∷ []

run-load-Refines_example :
    Refines serde
      (run serde (load serde true no_file) operations)
      (spec_run (record { current = []; stored = [] }) operations)
unfolding load
run-load-Refines_example = run-load-Refines serde (λ reports. refl) no_file operations

sync_nodes_reported_example :
    (index : ℕ) × (get "n1" (sync_nodes wireguard no_tunnels (node ∷ [])).0.tunnels
      ≡ refreshed wireguard index (get "n1" no_tunnels.tunnels) node "pk")
unfolding elem seen_ids
sync_nodes_reported_example =
    sync_nodes_reported wireguard no_tunnels [] [] node "pk" refl refl refl

get-dial_new_nodes_example :
    get web_key (dial_new_nodes wireguard no_tunnels (node ∷ []) two_flows).1.flows ≡ (
      if contains_key "n1" no_tunnels.tunnels && not (elem "n1" (seen_ids wireguard (node ∷ [])))
      then none
      else get web_key two_flows.flows)
get-dial_new_nodes_example =
    get-dial_new_nodes wireguard no_tunnels (node ∷ []) two_flows web_key two_flows-IsValid

unresolved_hosts_in_lem_example :
    ((host : String)
      → elem host (unresolved_hosts_in (bundle ∷ []) no_names) ≡ (
          elem host (collect_endpoint_hosts (bundle ∷ []))
          && not (is_some (resolve no_names host))))
    × IsDistinct (unresolved_hosts_in (bundle ∷ []) no_names)
unresolved_hosts_in_lem_example = unresolved_hosts_in_lem (bundle ∷ []) no_names

abbrev unpaired : Entitlement
unpaired = record { user_id = "u2"; device_public_key = none }

entitlement_list_sha256_perm_example :
    entitlement_list_sha256 (λ _. "sha") (unpaired ∷ entitled ∷ [])
    ≡ entitlement_list_sha256 (λ _. "sha") (entitled ∷ unpaired ∷ [])
entitlement_list_sha256_perm_example =
    entitlement_list_sha256_perm (λ _. "sha") (Perm.swap entitled unpaired [])

reconcile_endpoint_changes_lem_example :
    (get web_key (reconcile_endpoint_changes two_flows (bundle ∷ []) 7).0.flows
      ≡ and_then (get web_key two_flows.flows) (after_bundles (bundle ∷ []) web_key))
    × (current_rules (reconcile_endpoint_changes two_flows (bundle ∷ []) 7).0 "g1"
        ≡ option_map rules (find_bundle "g1" (bundle ∷ [])))
unfolding elem
reconcile_endpoint_changes_lem_example =
    reconcile_endpoint_changes_lem two_flows (bundle ∷ []) 7 web_key "g1" two_flows-IsValid
      (refl, tt)
