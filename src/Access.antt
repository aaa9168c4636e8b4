-- ===== src/Access.antt =====
-- src/access.rs: whether a device may reach a gateway, by the applied policy.
pub mod Decisions
use secure_connect_connector.Dto.{Entitlement, PolicyBundle, PortRule, rules}
use secure_connect_connector.Audit.{
  AuditEvent, AuditLog, access_allowed, access_refused, record_event,
}
use secure_connect_connector.Policy.{PolicyState, PolicyStore, current}
use secure_connect_connector.Base.{
  Bool, List, Option, String, [], false, if◌then◌else◌, leb, none, option_map, some, string_key, ℕ,
  ◌==◌, ◌∷◌,
}

pub data RefusalReason : Type 0 where
  no_policy_applied policy_expired unknown_gateway not_entitled : RefusalReason

pub data AccessDecision : Type 0 where
  allowed : (user_id : String) (rules : List PortRule) → AccessDecision
  refused : RefusalReason → AccessDecision

unfoldable pub as_audit_str : RefusalReason → String
as_audit_str no_policy_applied = "no_policy_applied"
as_audit_str policy_expired = "policy_expired"
as_audit_str unknown_gateway = "unknown_gateway"
as_audit_str not_entitled = "not_entitled"

unfoldable pub as_wire_str : RefusalReason → String
as_wire_str no_policy_applied = "not_entitled"
as_wire_str not_entitled = "not_entitled"
as_wire_str policy_expired = "expired_entitlement"
as_wire_str unknown_gateway = "unknown_gateway"

-- The first bundle of a gateway.
unfoldable pub find_bundle : String → List PolicyBundle → Option PolicyBundle
find_bundle gateway_id [] = none
find_bundle gateway_id (bundle ∷ bundles) =
    if bundle.gateway_id == gateway_id then some bundle else find_bundle gateway_id bundles

abbrev pub is_key : Option String → String → Bool
is_key none device_public_key = false
is_key (some key) device_public_key = key == device_public_key

-- The first entitlement of a device.
unfoldable pub find_entitlement : String → List Entitlement → Option Entitlement
find_entitlement device_public_key [] = none
find_entitlement device_public_key (entitlement ∷ entitlements) =
    if is_key entitlement.device_public_key device_public_key
    then some entitlement
    else find_entitlement device_public_key entitlements

-- The match on the entitlement of `decide_access_at`.
unfoldable pub decide_by_entitlement : PolicyBundle → Option Entitlement → AccessDecision
unfolding rules
decide_by_entitlement bundle none = refused not_entitled
decide_by_entitlement bundle (some entitlement) = allowed entitlement.user_id (rules bundle)

-- The part of `decide_access_at` for a policy that has not expired.
unfoldable pub decide_by_bundle : Option PolicyBundle → String → AccessDecision
unfolding find_entitlement decide_by_entitlement
decide_by_bundle none device_public_key = refused unknown_gateway
decide_by_bundle (some bundle) device_public_key =
    decide_by_entitlement bundle (find_entitlement device_public_key bundle.entitlement_list)

-- The event of a decision.
unfoldable pub access_event : String → String → AccessDecision → AuditEvent
unfolding as_audit_str
access_event gateway_id device_public_key (allowed user_id rules) =
    access_allowed gateway_id user_id device_public_key
access_event gateway_id device_public_key (refused reason) =
    access_refused gateway_id device_public_key (as_audit_str reason)

module _ (parse_from_rfc3339 : String → Option ℕ) where
  -- The part of `decide_access_at` for a policy that was applied. An expiry that does not parse,
  -- where the source panics, has no decision.
  unfoldable pub decide_by_state : PolicyState → String → String → ℕ → Option AccessDecision
  unfolding find_bundle decide_by_bundle
  decide_by_state state gateway_id device_public_key now =
      elim (parse_from_rfc3339 state.expires_at) [
        | none ↦ none
        | some expires_at ↦ some (
            if leb expires_at now
            then refused policy_expired
            else decide_by_bundle (find_bundle gateway_id state.policy_bundles) device_public_key)
      ]

  -- `decide_access_at`, with no result where the source panics.
  unfoldable pub decide_access_at : PolicyStore → String → String → ℕ → Option AccessDecision
  unfolding decide_by_state
  decide_access_at store gateway_id device_public_key now = elim (current store) [
    | none ↦ some (refused no_policy_applied)
    | some state ↦ decide_by_state state gateway_id device_public_key now
  ]

  -- `decide_access_and_audit`
  unfoldable pub decide_access_and_audit :
      PolicyStore → AuditLog → String → String → ℕ → Option (AuditLog × AccessDecision)
  unfolding decide_access_at access_event
  decide_access_and_audit store audit_log gateway_id device_public_key now =
      option_map
        (λ decision.
          (record_event audit_log (access_event gateway_id device_public_key decision), decision))
        (decide_access_at store gateway_id device_public_key now)
