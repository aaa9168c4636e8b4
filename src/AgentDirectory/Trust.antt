-- ===== src/AgentDirectory/Trust.antt =====
-- src/agent_directory.rs: a heartbeat and a deregistration over the whole directory, down to the
-- signatures.
use secure_connect_connector.AgentDirectory.Operational.{IsDistinct-fetch_operational_agents}
use Prim.Native.String.{String}
use secure_connect_connector.AgentDirectory.{
  Agent, AgentDirectory, Answer, DirectoryState, Network, agent_key, answered, ask_for_heartbeat,
  ask_to_deregister, candidates, deregister, deregister_through, failure_of, fall_back, heartbeat,
  heartbeat_through, listed_now, listing, order_listed, sticky_first,
}
use secure_connect_connector.AgentDirectory.Candidates.{
  IsDistinct-listed_by, elem-sticky_first, listed_by,
}
use secure_connect_connector.AgentDirectory.Failover.{
  DoesAnswer, IsAnswer, IsAnswerer, ask_for_heartbeat_answered, ask_for_heartbeat_listed,
  ask_to_deregister_answered, deregister_listed-eq, heartbeat_loop-IsAnswer,
}
use secure_connect_connector.Heartbeat.{
  ConnectorDeregisterRequest, ConnectorDeregisterResponse, ConnectorHeartbeatRequest, Failure,
  Outcome, Parsers, failed, get_agent_permitted_key, ok, rejected,
}
use secure_connect_connector.Heartbeat.Trust.{>>=-ok, IsTrusted, fetch_and_verify_iff}
use secure_connect_connector.Heartbeat.Deregistration.{IsConfirmed, deregister_and_verify_iff}
use secure_connect_connector.Dto.{ConnectorHeartbeatResponse}
use secure_connect_connector.Crypto.{Library}
use secure_connect_connector.Base.{
  IsDistinct, List, [], elem, refl, some, subst, sym, true, ℕ, ◌∙◌, ◌∷◌, ◌≡◌,
}

order_listed-listing :
    (state : DirectoryState) (listed : List Agent) (agent : Agent)
    → elem agent listed ≡ true
    → order_listed state listed ≡ listing (sticky_first state.last_answered listed)
unfolding order_listed elem
order_listed-listing state [] agent h = cc h
order_listed-listing state (other ∷ listed) agent h = refl

fall_back-eq :
    (state : DirectoryState) (listed : List Agent) (agent : Agent) (e : Failure)
    → elem agent listed ≡ true
    → fall_back state listed e ≡ order_listed state listed
unfolding elem
fall_back-eq state [] agent e h = cc h
fall_back-eq state (other ∷ listed) agent e h = refl

candidates_listing :
    (state : DirectoryState) (fetched : Outcome (List Agent)) (agent : Agent)
    → elem agent (listed_by state fetched) ≡ true
    → (candidates state fetched).1
      ≡ listing (sticky_first state.last_answered (listed_by state fetched))
unfolding candidates listed_by
candidates_listing state (ok listed) agent h =
    order_listed-listing (record state { last_listed = listed }) listed agent h
candidates_listing state (rejected r) agent h =
    fall_back-eq state state.last_listed agent (failure_of r) h
    ∙ order_listed-listing state state.last_listed agent h
candidates_listing state (failed e) agent h =
    fall_back-eq state state.last_listed agent e h
    ∙ order_listed-listing state state.last_listed agent h

module _ {ℓ} {A : Type ℓ} (attempt : Agent → Outcome A) where
  ask_for_heartbeat-IsAnswer :
      (state : DirectoryState) (fetched : Outcome (List Agent)) (agent : Agent)
      → elem agent (listed_by state fetched) ≡ true
      → DoesAnswer (attempt agent)
      → IsAnswer (ask_for_heartbeat attempt state fetched).1
  unfolding ask_for_heartbeat
  ask_for_heartbeat-IsAnswer state fetched agent h d =
      rw (candidates_listing state fetched agent h) (
        heartbeat_loop-IsAnswer attempt (candidates state fetched).0
          (sticky_first state.last_answered (listed_by state fetched)) [] agent
          (elem-sticky_first state.last_answered (listed_by state fetched) agent ∙ h) d)

  ask_to_deregister-IsAnswer :
      (state : DirectoryState) (fetched : Outcome (List Agent)) (agent : Agent)
      → elem agent (listed_by state fetched) ≡ true
      → DoesAnswer (attempt agent)
      → IsAnswer (ask_to_deregister attempt state fetched).1
  unfolding ask_to_deregister ask_for_heartbeat
  ask_to_deregister-IsAnswer state fetched agent h d =
      subst (λ (a : Answer A). IsAnswer a)
        (sym
          (deregister_listed-eq attempt (candidates state fetched).0 (candidates state fetched).1))
        (ask_for_heartbeat-IsAnswer state fetched agent h d)

module _ (library : Library) (parsers : Parsers) (network : Network)
    (directory : AgentDirectory) where
  -- The list that this call goes by: the one it fetches, or the last that could be fetched.
  abbrev pub agents_at_hand : List Agent
  agents_at_hand = listed_by directory.state (listed_now library parsers network directory)

  -- A heartbeat reaches any Agent on the list at hand that answers, whatever the other Agents on it
  -- do: it returns some Agent's response or refusal, and neither fails for want of a list nor ends
  -- with no Agent having answered.
  pub heartbeat-IsAnswer :
      (request : ConnectorHeartbeatRequest) (agent : Agent)
      → elem agent agents_at_hand ≡ true
      → DoesAnswer (heartbeat_through library parsers network directory request agent)
      → IsAnswer (heartbeat library parsers network directory request).1
  unfolding heartbeat
  heartbeat-IsAnswer request agent h d =
      ask_for_heartbeat-IsAnswer (heartbeat_through library parsers network directory request)
        directory.state (listed_now library parsers network directory) agent h d

  -- Which Agent a response comes from, and what it was verified against.
  pub record IsFrom (request : ConnectorHeartbeatRequest) (response : ConnectorHeartbeatResponse)
      (agent : Agent) : Type 0 where
    pub first :
        IsAnswerer
          (heartbeat_through library parsers network directory request)
          (candidates directory.state (listed_now library parsers network directory)).1
          agent
          response
    pub public_key : String
    pub permitted :
        get_agent_permitted_key library parsers network.registry directory.registry_base_url
          agent.ip_address
        ≡ ok public_key
    pub trusted :
        IsTrusted library parsers network.heartbeat_at agent.base_url public_key request response

  -- A response that a heartbeat returns is that of the first candidate which answered, and is
  -- trusted on a signature that verifies under the key Registry permits for that very Agent; that
  -- Agent is remembered as the last that answered, with the list at hand.
  pub heartbeat-IsFrom :
      (request : ConnectorHeartbeatRequest) (response : ConnectorHeartbeatResponse)
      → (heartbeat library parsers network directory request).1 ≡ answered response
      → (agent : Agent) × IsFrom request response agent
        × ((heartbeat library parsers network directory request).0.state
            ≡ record { last_listed = agents_at_hand; last_answered = some agent })
  unfolding heartbeat heartbeat_through
  heartbeat-IsFrom request response h =
      let through = heartbeat_through library parsers network directory request in
      let fetched = listed_now library parsers network directory in
      let (agent, first, remembered) =
        ask_for_heartbeat_answered through directory.state fetched response h in
      let (key, permitted, verified) =
        >>=-ok
          (get_agent_permitted_key library parsers network.registry directory.registry_base_url
            agent.ip_address)
          _ first.2.answers in
      (
        agent,
        record {
          first = first;
          public_key = key;
          permitted = permitted;
          trusted =
              (fetch_and_verify_iff library parsers network.heartbeat_at agent.base_url key request
                  response).0
                verified;
        },
        remembered,
      )

  pub record IsConfirmedBy (now : ℕ) (request : ConnectorDeregisterRequest)
      (response : ConnectorDeregisterResponse) (agent : Agent) : Type 0 where
    pub first :
        IsAnswerer
          (deregister_through library parsers network directory now request)
          (candidates directory.state (listed_now library parsers network directory)).1
          agent
          response
    pub public_key : String
    pub permitted :
        get_agent_permitted_key library parsers network.registry directory.registry_base_url
          agent.ip_address
        ≡ ok public_key
    pub confirmed :
        IsConfirmed library parsers network.deregister_at now agent.base_url public_key request
          response

  -- A deregistration that is returned as confirmed is that of the first candidate which answered, and
  -- is confirmed under the key Registry permits for that very Agent: signed, for this Connector's own
  -- key, with the status DEREGISTERED and not expired.
  pub deregister-IsConfirmedBy :
      (now : ℕ) (request : ConnectorDeregisterRequest) (response : ConnectorDeregisterResponse)
      → (deregister library parsers network directory now request).1 ≡ answered response
      → (agent : Agent) × IsConfirmedBy now request response agent
  unfolding deregister deregister_through
  deregister-IsConfirmedBy now request response h =
      let through = deregister_through library parsers network directory now request in
      let fetched = listed_now library parsers network directory in
      let (agent, first) = ask_to_deregister_answered through directory.state fetched response h in
      let (key, permitted, verified) =
        >>=-ok
          (get_agent_permitted_key library parsers network.registry directory.registry_base_url
            agent.ip_address)
          _ first.2.answers in
      (
        agent,
        record {
          first = first;
          public_key = key;
          permitted = permitted;
          confirmed =
              (deregister_and_verify_iff library parsers network.deregister_at now agent.base_url
                  key request response).0
                verified;
        },
      )

  -- A deregistration, too, reaches any Agent on the list at hand that answers.
  pub deregister-IsAnswer :
      (now : ℕ) (request : ConnectorDeregisterRequest) (agent : Agent)
      → elem agent agents_at_hand ≡ true
      → DoesAnswer (deregister_through library parsers network directory now request agent)
      → IsAnswer (deregister library parsers network directory now request).1
  unfolding deregister
  deregister-IsAnswer now request agent h d =
      ask_to_deregister-IsAnswer (deregister_through library parsers network directory now request)
        directory.state (listed_now library parsers network directory) agent h d

  pub heartbeat-IsDistinct :
      (request : ConnectorHeartbeatRequest)
      → IsDistinct directory.state.last_listed
      → IsDistinct (heartbeat library parsers network directory request).0.state.last_listed
  unfolding heartbeat
  heartbeat-IsDistinct request d =
      let list = listed_now library parsers network directory in
      rw
        (ask_for_heartbeat_listed (heartbeat_through library parsers network directory request)
          directory.state list)
        (IsDistinct-listed_by directory.state list d (
          IsDistinct-fetch_operational_agents directory.parse_agents_json directory.base_url_for
            network.agents_json))
