-- ===== src/Endpoints.antt =====
-- src/main.rs: what a heartbeat does with the gateways' port rules: the hosts to resolve, the hosts
-- that are not resolved, the rules of the admitted flows, and the audit entries of the bundles.
pub mod Reported
pub mod Changes
use Prim.Native.String.{String}
use secure_connect_connector.Access.{find_bundle}
use secure_connect_connector.Audit.{
  AuditEvent, entitlement_list_received, flows_ended_by_rule_change, policy_bundle_applied,
}
use secure_connect_connector.DnsCache.{DnsCache, resolve}
use secure_connect_connector.Dto.{Entitlement, PolicyBundle, PortRule, RuleTransport, rules}
use secure_connect_connector.FlowTable.Types.{FlowTable, RuleEndedFlow}
use secure_connect_connector.FlowTable.RuleChanges.{retain_gateway_rules, update_rules}
use secure_connect_connector.Sorting.{dedup, sort}
use secure_connect_connector.Sorting.Orders.{pair_order, string_order}
use secure_connect_connector.Base.{
  Bool, Key, List, Option, String-discrete, [], and_then, false, filter_list, if◌then◌else◌,
  is_some, length, map, nat_key, none, not, some, string_key, true, ℕ, ℕ_discrete, ◌&&◌, ◌++◌, ◌==◌,
  ◌∷◌,
}

hosts_of : List PortRule → List String
hosts_of rs = map (λ (rule : PortRule). rule.internal_host) rs

unfoldable pub collect_endpoint_hosts : List PolicyBundle → List String
unfolding hosts_of rules
collect_endpoint_hosts [] = []
collect_endpoint_hosts (bundle ∷ bundles) =
    hosts_of (rules bundle) ++ collect_endpoint_hosts bundles

unfoldable pub unresolved_hosts_in : List PolicyBundle → DnsCache → List String
unfolding collect_endpoint_hosts sort dedup filter_list
unresolved_hosts_in bundles dns_cache =
    filter_list (λ host. not (is_some (resolve dns_cache host)))
      (dedup (sort (collect_endpoint_hosts bundles)))

unfoldable pub RuleTransport-discrete : Discrete RuleTransport
unfolding String-discrete
RuleTransport-discrete = hlevel String-discrete

unfoldable pub PortRule-discrete : Discrete PortRule
unfolding RuleTransport-discrete String-discrete ℕ_discrete
PortRule-discrete = hlevel (RuleTransport-discrete, String-discrete, ℕ_discrete)

instance abbrev pub port_rule_key : Key PortRule
port_rule_key = record { discrete = PortRule-discrete }

unfoldable pub same_rules : List PortRule → List PortRule → Bool
same_rules [] [] = true
same_rules [] (s ∷ ss) = false
same_rules (r ∷ rs) [] = false
same_rules (r ∷ rs) (s ∷ ss) = r == s && same_rules rs ss

-- `configuration(old) == configuration(bundle)`
unfoldable pub same_configuration : PolicyBundle → PolicyBundle → Bool
unfolding same_rules
same_configuration old bundle =
    old.location == bundle.location
    && old.hostname == bundle.hostname
    && same_rules (rules old) (rules bundle)

abbrev unchanged_from : Option PolicyBundle → PolicyBundle → Bool
unchanged_from none bundle = false
unchanged_from (some old) bundle = same_configuration old bundle

-- Whether a bundle is configured as the first old bundle of its gateway.
unfoldable pub is_unchanged : Option (List PolicyBundle) → PolicyBundle → Bool
unfolding find_bundle same_configuration
is_unchanged old_bundles bundle =
    unchanged_from (and_then old_bundles (λ old. find_bundle bundle.gateway_id old)) bundle

-- The users and devices of an entitlement list, in their order's order, to a digest: the JSON
-- encoding, SHA-256 and the hex encoding.
unfoldable pub entitlement_list_sha256 :
    (List (String × Option String) → String) → List Entitlement → String
unfolding sort
entitlement_list_sha256 digest entitlements =
    digest (sort (map (λ (e : Entitlement). (e.user_id, e.device_public_key)) entitlements))

module _ (digest : List (String × Option String) → String) where
  abbrev pub received_event : PolicyBundle → AuditEvent
  received_event bundle =
      entitlement_list_received bundle.gateway_id (length bundle.entitlement_list)
        (entitlement_list_sha256 digest bundle.entitlement_list)

  unfoldable pub bundle_audit_events :
      Option (List PolicyBundle) → List PolicyBundle → List AuditEvent
  unfolding is_unchanged entitlement_list_sha256
  bundle_audit_events old_bundles [] = []
  bundle_audit_events old_bundles (bundle ∷ bundles) =
      let received = received_event bundle ∷ bundle_audit_events old_bundles bundles in
      if is_unchanged old_bundles bundle
      then received
      else policy_bundle_applied bundle.gateway_id bundle.location bundle.hostname (rules bundle)
        ∷ received

-- The entry for the flows that the rules of one gateway ended, if any.
abbrev pub ended_events : String → List RuleEndedFlow → List AuditEvent
ended_events gateway_id [] = []
ended_events gateway_id (flow ∷ flows) =
    flows_ended_by_rule_change gateway_id (length (flow ∷ flows)) (
      map
        (λ (ended : RuleEndedFlow). record {
          flow_id = ended.flow_id;
          device_public_key = ended.device_public_key;
        })
        (flow ∷ flows))
    ∷ []

-- The loop of `reconcile_endpoint_changes`.
unfoldable pub update_each : FlowTable → List PolicyBundle → ℕ → FlowTable × List AuditEvent
unfolding update_rules
update_each table [] now = (table, [])
update_each table (bundle ∷ bundles) now =
    let (updated, ended) = update_rules table bundle.gateway_id (rules bundle) now in
    let (last, events) = update_each updated bundles now in
    (last, ended_events bundle.gateway_id ended ++ events)

unfoldable pub reconcile_endpoint_changes :
    FlowTable → List PolicyBundle → ℕ → FlowTable × List AuditEvent
unfolding retain_gateway_rules update_each find_bundle
reconcile_endpoint_changes table new_bundles now =
    update_each
      (retain_gateway_rules table (λ gateway_id. is_some (find_bundle gateway_id new_bundles)))
      new_bundles now
