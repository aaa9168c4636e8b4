-- ===== src/Cycle/Trust.antt =====
-- src/main.rs: on what a heartbeat changes the policy, and that without it nothing else changes.
use secure_connect_connector.Package.{
  Connector, Libraries, Surroundings, follow_nodes, follow_rules, put_in_force,
  queue_gateway_end_reports, reconcile_entitlements,
}
use secure_connect_connector.AgentDirectory.Trust.{IsFrom, heartbeat-IsFrom}
use secure_connect_connector.GatewayEnd.{report_ids}
use Prim.Native.String.{String}
use secure_connect_connector.AgentDirectory.{
  Agent, Answer, agent_key, answered, list_failed, lists_none, none_answered, refused,
}
use secure_connect_connector.Cycle.{
  Beat, apply_response, ask, beaten, bundles_in_force, finish, heartbeat_failed, package_rejected,
  request_of, run_heartbeat, take_answer,
}
use secure_connect_connector.Dto.{ConnectorHeartbeatResponse, PolicyBundle}
use secure_connect_connector.Policy.{
  Applied, PolicyStore, applied, apply_at, expired, state_of, unparseable,
}
use secure_connect_connector.Base.{
  Bool-cases, List, Option, Option-cases, arith, inl, inr, leb, none, refl, some, string_key, subst,
  sym, ℕ, ◌<◌, ◌≡◌, ◌≢◌, ◌⊎◌,
}

-- The package is in force, and was still valid when it was applied.
pub record IsInForce (parse_from_rfc3339 : String → Option ℕ) (store : PolicyStore)
    (response : ConnectorHeartbeatResponse) (now : ℕ) : Type 0 where
  pub expires_at : ℕ
  pub state : store.state ≡ some (state_of response)
  pub expiry : parse_from_rfc3339 response.expires_at ≡ some expires_at
  pub valid : now < expires_at

apply_at-IsInForce :
    (parse : String → Option ℕ) (store : PolicyStore) (response : ConnectorHeartbeatResponse)
    (now : ℕ)
    → (apply_at parse store response now).1 ≡ applied
    → IsInForce parse (apply_at parse store response now).0 response now
unfolding apply_at
apply_at-IsInForce parse store response now h = elim (Option-cases (parse response.expires_at)) [
  | inl e ↦ cc (rw (e, apply_at) at h)
  | inr (expires_at, e) ↦ elim (Bool-cases (leb expires_at now)) [
    | inl late ↦ cc (rw (e, late, apply_at) at h)
    | inr early ↦ record {
      expires_at = expires_at;
      state = rw (e, early, apply_at) refl;
      expiry = e;
      valid = ground arith;
    }
  ]
]

apply_at_rejected :
    (parse : String → Option ℕ) (store : PolicyStore) (response : ConnectorHeartbeatResponse)
    (now : ℕ)
    → (apply_at parse store response now).1 ≢ applied
    → (apply_at parse store response now).0 ≡ store
unfolding apply_at
apply_at_rejected parse store response now h = elim (Option-cases (parse response.expires_at)) [
  | inl e ↦ rw (e, apply_at) refl
  | inr (expires_at, e) ↦ elim (Bool-cases (leb expires_at now)) [
    | inl late ↦ rw (e, late, apply_at) refl
    | inr early ↦ absurd (h (rw (e, early, apply_at) refl))
  ]
]

module _ (libraries : Libraries) where
  abbrev pub IsBeaten : Beat libraries → Type 0
  IsBeaten (beaten ip) = Unit
  IsBeaten (heartbeat_failed error) = ⊥
  IsBeaten (package_rejected result) = ⊥

  -- All but what asking changes is the same: the directory, the reports and the audit log.
  pub record IsUntouched (c after : Connector libraries) : Type 0 where
    pub policy_store : after.policy_store ≡ c.policy_store
    pub tunnel_manager : after.tunnel_manager ≡ c.tunnel_manager
    pub flow_table : after.flow_table ≡ c.flow_table
    pub dns_cache : after.dns_cache ≡ c.dns_cache
    pub admission_pollers : after.admission_pollers ≡ c.admission_pollers

  IsUntouched-refl : (c : Connector libraries) → IsUntouched c c
  IsUntouched-refl c = record {
    policy_store = refl;
    tunnel_manager = refl;
    flow_table = refl;
    dns_cache = refl;
    admission_pollers = refl;
  }

  put_in_force_store :
      (around : Surroundings libraries.serde.Bytes) (c : Connector libraries)
      (old : Option (List PolicyBundle)) (response : ConnectorHeartbeatResponse)
      → (put_in_force libraries around c old response).0.policy_store ≡ c.policy_store
  unfolding put_in_force follow_rules follow_nodes reconcile_entitlements queue_gateway_end_reports
  put_in_force_store around c none response = refl
  put_in_force_store around c (some old) response = refl

  -- What a heartbeat's end says of the application of the package.
  finish-cases :
      (around : Surroundings libraries.serde.Bytes) (c : Connector libraries)
      (old : Option (List PolicyBundle)) (response : ConnectorHeartbeatResponse) (result : Applied)
      → ((result ≡ applied)
          × ((finish libraries around c old response result).0.policy_store ≡ c.policy_store)
          × IsBeaten (finish libraries around c old response result).2)
        ⊎ ((result ≢ applied)
            × ((finish libraries around c old response result).0 ≡ c)
            × (¬ IsBeaten (finish libraries around c old response result).2))
  unfolding finish
  finish-cases around c old response applied =
      inl (refl, put_in_force_store around c old response, tt)
  finish-cases around c old response unparseable = inr (λ e. cc e, refl, λ b. b)
  finish-cases around c old response expired = inr (λ e. cc e, refl, λ b. b)

  pub take_answered :
      (around : Surroundings libraries.serde.Bytes) (c : Connector libraries)
      (old : Option (List PolicyBundle)) (ids : List String) (response : ConnectorHeartbeatResponse)
      → IsBeaten (take_answer libraries around c old ids (answered response)).2
      → IsInForce libraries.parsers.parse_from_rfc3339
          (take_answer libraries around c old ids (answered response)).0.policy_store
          response
          around.utc_now
  take_answered around c old ids response b =
      let (taken, result) = apply_response libraries around c ids response in
      elim (finish-cases around taken old response result) [
        | inl (is_applied, same, ended) ↦
            subst
              (λ store.
                IsInForce libraries.parsers.parse_from_rfc3339 store response around.utc_now)
              (sym same)
              (unfold apply_response in
                apply_at-IsInForce libraries.parsers.parse_from_rfc3339 c.policy_store response
                  around.utc_now is_applied)
        | inr (not_applied, same, undone) ↦ absurd (undone b)
      ]

  take_answer_beaten :
      (around : Surroundings libraries.serde.Bytes) (c : Connector libraries)
      (old : Option (List PolicyBundle)) (ids : List String)
      (answer : Answer ConnectorHeartbeatResponse)
      → IsBeaten (take_answer libraries around c old ids answer).2
      → (response : ConnectorHeartbeatResponse) × (answer ≡ answered response)
        × IsInForce libraries.parsers.parse_from_rfc3339
            (take_answer libraries around c old ids answer).0.policy_store
            response
            around.utc_now
  take_answer_beaten around c old ids (answered response) b =
      (response, refl, take_answered around c old ids response b)
  take_answer_beaten around c old ids (refused r) b = absurd b
  take_answer_beaten around c old ids (list_failed e) b = absurd b
  take_answer_beaten around c old ids lists_none b = absurd b
  take_answer_beaten around c old ids (none_answered failures) b = absurd b

  -- Where a heartbeat succeeds, the policy in force after it is that of a response which came from
  -- the first candidate Agent that answered, was verified under the key Registry permits for that
  -- Agent, for this Connector's own public key, and had not expired when it was applied.
  pub run_heartbeat-IsInForce :
      (key : String) (around : Surroundings libraries.serde.Bytes) (c : Connector libraries)
      → IsBeaten (run_heartbeat libraries key around c).2
      → (response : ConnectorHeartbeatResponse) × (agent : Agent) × IsFrom libraries.crypto
          libraries.parsers around.network c.directory
          (request_of libraries key c (ask libraries key around c).1)
          response
          agent
        × IsInForce libraries.parsers.parse_from_rfc3339
            (run_heartbeat libraries key around c).0.policy_store
            response
            around.utc_now
  unfolding run_heartbeat
  run_heartbeat-IsInForce key around c b =
      let (asked, sent, answer) = ask libraries key around c in
      let (response, e, in_force) =
        take_answer_beaten around asked (bundles_in_force libraries c) (report_ids sent) answer b in
      let (agent, from, remembered) =
        heartbeat-IsFrom libraries.crypto libraries.parsers around.network c.directory
          (request_of libraries key c sent) response (unfold ask in e) in
      (response, agent, from, in_force)

  take_answer-IsUntouched :
      (around : Surroundings libraries.serde.Bytes) (c : Connector libraries)
      (old : Option (List PolicyBundle)) (ids : List String)
      (answer : Answer ConnectorHeartbeatResponse)
      → ¬ IsBeaten (take_answer libraries around c old ids answer).2
      → IsUntouched c (take_answer libraries around c old ids answer).0
  take_answer-IsUntouched around c old ids (answered response) b =
      let (taken, result) = apply_response libraries around c ids response in
      elim (finish-cases around taken old response result) [
        | inl (is_applied, same, ended) ↦ absurd (b ended)
        | inr (not_applied, same, undone) ↦
            subst (λ after. IsUntouched c after) (sym same)
              (unfold apply_response in
                record {
                  policy_store =
                      apply_at_rejected libraries.parsers.parse_from_rfc3339 c.policy_store response
                        around.utc_now not_applied;
                  tunnel_manager = refl;
                  flow_table = refl;
                  dns_cache = refl;
                  admission_pollers = refl;
                })
      ]
  take_answer-IsUntouched around c old ids (refused r) b = IsUntouched-refl c
  take_answer-IsUntouched around c old ids (list_failed e) b = IsUntouched-refl c
  take_answer-IsUntouched around c old ids lists_none b = IsUntouched-refl c
  take_answer-IsUntouched around c old ids (none_answered failures) b = IsUntouched-refl c

  -- A heartbeat that does not succeed, whether no Agent answers, one refuses, or the package is
  -- expired or its expiry unreadable, leaves the policy, the tunnels, the admitted flows, the resolved
  -- hosts and the pollers as they were.
  pub run_heartbeat-IsUntouched :
      (key : String) (around : Surroundings libraries.serde.Bytes) (c : Connector libraries)
      → ¬ IsBeaten (run_heartbeat libraries key around c).2
      → IsUntouched c (run_heartbeat libraries key around c).0
  unfolding run_heartbeat ask
  run_heartbeat-IsUntouched key around c b =
      let (asked, sent, answer) = ask libraries key around c in
      let u =
        take_answer-IsUntouched around asked (bundles_in_force libraries c) (report_ids sent) answer
          b in
      record {
        policy_store = u.policy_store;
        tunnel_manager = u.tunnel_manager;
        flow_table = u.flow_table;
        dns_cache = u.dns_cache;
        admission_pollers = u.admission_pollers;
      }
