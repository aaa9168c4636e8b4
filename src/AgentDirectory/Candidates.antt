-- ===== src/AgentDirectory/Candidates.antt =====
-- src/agent_directory.rs: which Agents are candidates, and their order.
use secure_connect_connector.AgentDirectory.Operational.{IsDistinct-fetch_operational_agents}
use secure_connect_connector.Heartbeat.{Failure, HttpResponse, Outcome, failed, ok, rejected}
use Prim.Native.String.{String}
use secure_connect_connector.AgentDirectory.{
  Agent, AgentsJsonEntry, DirectoryState, agent_key, candidates, fall_back,
  fetch_operational_agents, listing, order_listed, remove_first, sticky_first,
}
use secure_connect_connector.Base.{
  IsDistinct, List, Option, [], arith, elem, false, none, refl, some, subst, true, ℕ, ◌==◌, ◌||◌,
  ◌∷◌, ◌≡◌,
}

elem-remove_first :
    (agent other : Agent) (agents : List Agent)
    → elem agent agents ≡ true
    → (agent == other || elem other (remove_first agent agents)) ≡ elem other agents
unfolding remove_first elem
elem-remove_first agent other [] h = cc h
elem-remove_first agent other (listed ∷ rest) h = ground (arith, elem-remove_first agent other rest)

elem-remove_first-false :
    (agent other : Agent) (agents : List Agent)
    → elem other agents ≡ false
    → elem other (remove_first agent agents) ≡ false
unfolding remove_first elem
elem-remove_first-false agent other [] h = h
elem-remove_first-false agent other (listed ∷ rest) h =
    ground (arith, elem-remove_first-false agent other rest)

IsDistinct-remove_first :
    (agent : Agent) (agents : List Agent)
    → IsDistinct agents
    → IsDistinct (remove_first agent agents) × (elem agent (remove_first agent agents) ≡ false)
unfolding remove_first elem
IsDistinct-remove_first agent [] d = (tt, refl)
IsDistinct-remove_first agent (listed ∷ rest) d =
    ground
      (arith, IsDistinct-remove_first agent rest d.1, elem-remove_first-false agent listed rest)

pub elem-sticky_first :
    (last : Option Agent) (listed : List Agent) (agent : Agent)
    → elem agent (sticky_first last listed) ≡ elem agent listed
unfolding sticky_first elem
elem-sticky_first none listed agent = refl
elem-sticky_first (some sticky) listed agent = ground (arith, elem-remove_first sticky agent listed)

IsDistinct-sticky_first :
    (last : Option Agent) (listed : List Agent)
    → IsDistinct listed
    → IsDistinct (sticky_first last listed)
unfolding sticky_first
IsDistinct-sticky_first none listed d = d
IsDistinct-sticky_first (some sticky) listed d =
    ground (arith, IsDistinct-remove_first sticky listed d)

-- The candidates are the Agents listed, each once, the last that answered first if it is listed.
pub record IsOrder (state : DirectoryState) (agents : List Agent) : Type 0 where
  pub same : (agent : Agent) → elem agent agents ≡ elem agent state.last_listed
  pub distinct : IsDistinct agents
  pub sticky :
      (agent : Agent)
      → state.last_answered ≡ some agent
      → elem agent state.last_listed ≡ true
      → (rest : List Agent) × (agents ≡ agent ∷ rest)

order_listed-IsOrder :
    (state : DirectoryState) (agents : List Agent)
    → IsDistinct state.last_listed
    → order_listed state state.last_listed ≡ listing agents
    → IsOrder state agents
unfolding order_listed sticky_first
order_listed-IsOrder state agents d h =
    let e : sticky_first state.last_answered state.last_listed ≡ agents = ground arith in
    subst (λ xs. IsOrder state xs) e
      (record {
        same = elem-sticky_first state.last_answered state.last_listed;
        distinct = IsDistinct-sticky_first state.last_answered state.last_listed d;
        sticky = λ agent last listed.
            (remove_first agent state.last_listed, rw (last, sticky_first) (rw listed));
      })

fall_back-listing :
    (state : DirectoryState) (listed agents : List Agent) (e : Failure)
    → fall_back state listed e ≡ listing agents
    → order_listed state listed ≡ listing agents
fall_back-listing state [] agents e h = cc h
fall_back-listing state (agent ∷ rest) agents e h = h

-- The list that candidates are taken from: what is fetched, or else what was fetched last.
unfoldable pub listed_by : DirectoryState → Outcome (List Agent) → List Agent
listed_by state (ok listed) = listed
listed_by state (rejected r) = state.last_listed
listed_by state (failed e) = state.last_listed

candidates-IsOrder' :
    (state : DirectoryState) (fetched : Outcome (List Agent)) (agents : List Agent)
    → IsDistinct (listed_by state fetched)
    → (candidates state fetched).1 ≡ listing agents
    → IsOrder (candidates state fetched).0 agents
unfolding candidates listed_by
candidates-IsOrder' state (ok listed) agents d h = order_listed-IsOrder _ agents d h
candidates-IsOrder' state (rejected r) agents d h =
    order_listed-IsOrder state agents d (fall_back-listing state state.last_listed agents _ h)
candidates-IsOrder' state (failed e) agents d h =
    order_listed-IsOrder state agents d (fall_back-listing state state.last_listed agents _ h)

pub candidates_state :
    (state : DirectoryState) (fetched : Outcome (List Agent))
    → (candidates state fetched).0 ≡ record state { last_listed = listed_by state fetched }
unfolding candidates listed_by
candidates_state state (ok listed) = refl
candidates_state state (rejected r) = refl
candidates_state state (failed e) = refl

pub IsDistinct-listed_by :
    (state : DirectoryState) (fetched : Outcome (List Agent))
    → IsDistinct state.last_listed
    → ((agents : List Agent) → fetched ≡ ok agents → IsDistinct agents)
    → IsDistinct (listed_by state fetched)
unfolding listed_by
IsDistinct-listed_by state (ok listed) d h = h listed refl
IsDistinct-listed_by state (rejected r) d h = d
IsDistinct-listed_by state (failed e) d h = d

-- The candidates of a heartbeat, where there are any, are the Agents of the list that was fetched,
-- or of the last that could be where this one cannot, each once, and the Agent that last answered
-- stands first while that list has it.
pub candidates-IsOrder :
    (parse : List ℕ → Option (List AgentsJsonEntry)) (base_url_for : String → String)
    (fetched : Option HttpResponse) (state : DirectoryState) (agents : List Agent)
    → IsDistinct state.last_listed
    → (candidates state (fetch_operational_agents parse base_url_for fetched)).1 ≡ listing agents
    → IsOrder
        (record state {
          last_listed = listed_by state (fetch_operational_agents parse base_url_for fetched);
        })
        agents
candidates-IsOrder parse base_url_for fetched state agents d h =
    let list = fetch_operational_agents parse base_url_for fetched in
    subst (λ st. IsOrder st agents) (candidates_state state list)
      (candidates-IsOrder' state list agents
        (IsDistinct-listed_by state list d
          (IsDistinct-fetch_operational_agents parse base_url_for fetched))
        h)
