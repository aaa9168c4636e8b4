-- ===== src/Policy.antt =====
-- src/policy.rs: the policy that is applied, which an expired or unreadable heartbeat leaves as it
-- was. Instants are numbers; `chrono`'s reading of an RFC 3339 text is a parameter.
use secure_connect_connector.Dto.{ConnectorHeartbeatResponse, HeartbeatNode, PolicyBundle}
use secure_connect_connector.Base.{List, Option, String, if◌then◌else◌, leb, none, some, ℕ}

pub record PolicyState : Type 0 where
  pub connector_id : String
  pub generated_at : String
  pub expires_at : String
  pub policy_bundles : List PolicyBundle
  pub node_list : List HeartbeatNode

pub record PolicyStore : Type 0 where
  pub state : Option PolicyState

unfoldable pub new : PolicyStore
new = record { state = none }

-- `apply_at` fails where the expiry is unreadable or has passed.
pub data Applied : Type 0 where
  applied unparseable expired : Applied

unfoldable pub state_of : ConnectorHeartbeatResponse → PolicyState
state_of response = record {
  connector_id = response.connector_id;
  generated_at = response.generated_at;
  expires_at = response.expires_at;
  policy_bundles = response.policy_bundles;
  node_list = response.node_list;
}

module _ (parse_from_rfc3339 : String → Option ℕ) where
  -- `apply_at`
  unfoldable pub apply_at : PolicyStore → ConnectorHeartbeatResponse → ℕ → PolicyStore × Applied
  unfolding state_of
  apply_at store response now = elim (parse_from_rfc3339 response.expires_at) [
    | none ↦ (store, unparseable)
    | some expires_at ↦
        if leb expires_at now
        then (store, expired)
        else (record { state = some (state_of response) }, applied)
  ]

-- `current`
abbrev pub current : PolicyStore → Option PolicyState
current store = store.state
