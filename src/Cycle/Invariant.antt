-- ===== src/Cycle/Invariant.antt =====
-- src/main.rs: what every heartbeat keeps, whatever its answer.
use secure_connect_connector.Package.{
  Connector, Libraries, Surroundings, follow_nodes, follow_rules, put_in_force,
  queue_gateway_end_reports, reconcile_entitlements,
}
use secure_connect_connector.GatewayEnd.{pending, report_ids}
use Prim.Native.String.{String}
use secure_connect_connector.AdmissionPoller.Pollers.{IsUniform, sync-IsUniform}
use secure_connect_connector.AgentDirectory.{
  Answer, agent_key, answered, list_failed, lists_none, none_answered, refused,
}
use secure_connect_connector.AgentDirectory.Trust.{heartbeat-IsDistinct}
use secure_connect_connector.Cycle.{
  apply_response, ask, bundles_in_force, finish, request_of, run_heartbeat, take_answer,
}
use secure_connect_connector.Dialling.Evictions.{dial_new_nodes-IsValid}
use secure_connect_connector.Dto.{ConnectorHeartbeatResponse, PolicyBundle}
use secure_connect_connector.Endpoints.Changes.{reconcile_endpoint_changes-IsValid}
use secure_connect_connector.FlowTable.Invariant.Removal.{IsValid}
use secure_connect_connector.Policy.{Applied, applied, expired, unparseable}
use secure_connect_connector.Revocation.Teardown.{reconcile_dropped_entitlements-IsValid}
use secure_connect_connector.Base.{IsDistinct, List, Option, [], none, some, string_key, ◌∷◌}

module _ (libraries : Libraries) where
  -- The flow table's indexes agree with its flows, every poller runs under the current connector id,
  -- and no Agent is listed twice.
  pub record IsSound (c : Connector libraries) : Type 0 where
    pub table : IsValid c.flow_table
    pub pollers : IsUniform c.admission_pollers
    pub listed : IsDistinct c.directory.state.last_listed

  pub reconcile_entitlements-IsSound :
      (around : Surroundings libraries.serde.Bytes) (c : Connector libraries)
      (old : Option (List PolicyBundle)) (bundles : List PolicyBundle)
      → IsSound c
      → IsSound (reconcile_entitlements libraries around c old bundles)
  unfolding reconcile_entitlements queue_gateway_end_reports
  reconcile_entitlements-IsSound around c none bundles s = s
  reconcile_entitlements-IsSound around c (some old) bundles s = record {
    table =
        reconcile_dropped_entitlements-IsValid around.new_report_id bundles around.now_ms
          c.flow_table old s.table;
    pollers = s.pollers;
    listed = s.listed;
  }

  pub follow_nodes-IsSound :
      (c : Connector libraries) (old : Option (List PolicyBundle))
      (response : ConnectorHeartbeatResponse)
      → IsSound c
      → IsSound (follow_nodes libraries c old response).0
  unfolding follow_nodes
  follow_nodes-IsSound c old response s = record {
    table =
        dial_new_nodes-IsValid libraries.wireguard c.tunnel_manager response.node_list c.flow_table
          s.table;
    pollers = sync-IsUniform c.admission_pollers response.connector_id response.node_list s.pollers;
    listed = s.listed;
  }

  follow_rules-IsSound :
      (around : Surroundings libraries.serde.Bytes) (c : Connector libraries)
      (bundles : List PolicyBundle)
      → IsSound c
      → IsSound (follow_rules libraries around c bundles)
  unfolding follow_rules
  follow_rules-IsSound around c bundles s = record {
    table = reconcile_endpoint_changes-IsValid c.flow_table bundles around.instant s.table;
    pollers = s.pollers;
    listed = s.listed;
  }

  put_in_force-IsSound :
      (around : Surroundings libraries.serde.Bytes) (c : Connector libraries)
      (old : Option (List PolicyBundle)) (response : ConnectorHeartbeatResponse)
      → IsSound c
      → IsSound (put_in_force libraries around c old response).0
  unfolding put_in_force
  put_in_force-IsSound around c old response s =
      let dialled = (follow_nodes libraries c old response).0 in
      let bundles = response.policy_bundles in
      follow_rules-IsSound around (reconcile_entitlements libraries around dialled old bundles)
        bundles
        (reconcile_entitlements-IsSound around dialled old bundles
          (follow_nodes-IsSound c old response s))

  finish-IsSound :
      (around : Surroundings libraries.serde.Bytes) (c : Connector libraries)
      (old : Option (List PolicyBundle)) (response : ConnectorHeartbeatResponse) (result : Applied)
      → IsSound c
      → IsSound (finish libraries around c old response result).0
  unfolding finish
  finish-IsSound around c old response applied s = put_in_force-IsSound around c old response s
  finish-IsSound around c old response unparseable s = s
  finish-IsSound around c old response expired s = s

  pub apply_response-IsSound :
      (around : Surroundings libraries.serde.Bytes) (c : Connector libraries) (ids : List String)
      (response : ConnectorHeartbeatResponse)
      → IsSound c
      → IsSound (apply_response libraries around c ids response).0
  unfolding apply_response
  apply_response-IsSound around c ids response s = record {
    table = s.table;
    pollers = s.pollers;
    listed = s.listed;
  }

  take_answer-IsSound :
      (around : Surroundings libraries.serde.Bytes) (c : Connector libraries)
      (old : Option (List PolicyBundle)) (ids : List String)
      (answer : Answer ConnectorHeartbeatResponse)
      → IsSound c
      → IsSound (take_answer libraries around c old ids answer).0
  take_answer-IsSound around c old ids (answered response) s =
      let (taken, result) = apply_response libraries around c ids response in
      finish-IsSound around taken old response result
        (apply_response-IsSound around c ids response s)
  take_answer-IsSound around c old ids (refused r) s = s
  take_answer-IsSound around c old ids (list_failed e) s = s
  take_answer-IsSound around c old ids lists_none s = s
  take_answer-IsSound around c old ids (none_answered failures) s = s

  pub ask-IsSound :
      (key : String) (around : Surroundings libraries.serde.Bytes) (c : Connector libraries)
      → IsSound c
      → IsSound (ask libraries key around c).0
  unfolding ask
  ask-IsSound key around c s = record {
    table = s.table;
    pollers = s.pollers;
    listed =
        heartbeat-IsDistinct libraries.crypto libraries.parsers around.network c.directory
          (request_of libraries key c
            (pending libraries.serde around.pending_saving c.gateway_end_queue around.now_ms).1)
          s.listed;
  }

  run_heartbeat-IsSound :
      (key : String) (around : Surroundings libraries.serde.Bytes) (c : Connector libraries)
      → IsSound c
      → IsSound (run_heartbeat libraries key around c).0
  unfolding run_heartbeat
  run_heartbeat-IsSound key around c s =
      let (asked, sent, answer) = ask libraries key around c in
      take_answer-IsSound around asked (bundles_in_force libraries c) (report_ids sent) answer
        (ask-IsSound key around c s)

  unfoldable pub run_heartbeats :
      String → List (Surroundings libraries.serde.Bytes) → Connector libraries → Connector libraries
  unfolding run_heartbeat
  run_heartbeats key [] c = c
  run_heartbeats key (around ∷ later) c =
      run_heartbeats key later (run_heartbeat libraries key around c).0

  -- Over any heartbeats, answered, refused, rejected or failed in any order, the flow table's indexes
  -- agree with its flows, every poller runs under the current connector id, and no Agent is listed
  -- twice, if all of that held before.
  pub run_heartbeats-IsSound :
      (key : String) (surroundings : List (Surroundings libraries.serde.Bytes))
      (c : Connector libraries)
      → IsSound c
      → IsSound (run_heartbeats key surroundings c)
  unfolding run_heartbeats
  run_heartbeats-IsSound key [] c s = s
  run_heartbeats-IsSound key (around ∷ later) c s =
      run_heartbeats-IsSound key later (run_heartbeat libraries key around c).0
        (run_heartbeat-IsSound key around c s)
