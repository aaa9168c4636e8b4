-- ===== src/AgentDirectory/Failover.antt =====
-- src/agent_directory.rs: whose answer a heartbeat and a deregistration return, and that an Agent
-- which answers is reached.
use secure_connect_connector.AgentDirectory.Candidates.{candidates_state, listed_by}
use Prim.Native.String.{String}
use secure_connect_connector.AgentDirectory.{
  Agent, Answer, DirectoryState, Listing, agent_key, answered, ask_for_heartbeat, ask_to_deregister,
  candidates, deregister_listed, deregister_loop, empty_list, heartbeat_listed, heartbeat_loop,
  list_failed, listing, lists_none, no_list, none_answered, refused,
}
use secure_connect_connector.Heartbeat.{AgentRejected, Failure, Outcome, failed, ok, rejected}
use secure_connect_connector.Base.{
  List, [], ap, arith, elem, inl, inr, refl, some, sym, true, ◌++◌, ◌∙◌, ◌∷◌, ◌≡◌, ◌⊎◌,
}

-- An Agent's answer, a refusal among them, and no error of the search for one.
abbrev pub IsAnswer {ℓ} : {A : Type ℓ} → Answer A → Type 0
IsAnswer (answered response) = Unit
IsAnswer (refused r) = Unit
IsAnswer (list_failed e) = ⊥
IsAnswer lists_none = ⊥
IsAnswer (none_answered failures) = ⊥

abbrev pub DoesAnswer {ℓ} : {A : Type ℓ} → Outcome A → Type 0
DoesAnswer (ok response) = Unit
DoesAnswer (rejected r) = Unit
DoesAnswer (failed e) = ⊥

Outcome-cases {ℓ} :
    {A : Type ℓ} (m : Outcome A)
    → ((a : A) × (m ≡ ok a))
      ⊎ ((r : AgentRejected) × (m ≡ rejected r))
      ⊎ ((e : Failure) × (m ≡ failed e))
Outcome-cases (ok a) = inl (a, refl)
Outcome-cases (rejected r) = inr (inl (r, refl))
Outcome-cases (failed e) = inr (inr (e, refl))

module _ {ℓ} {A : Type ℓ} (attempt : Agent → Outcome A) where
  abbrev pub AllFail : List Agent → Type ℓ
  AllFail [] = Unit
  AllFail (agent ∷ agents) = ((e : Failure) × (attempt agent ≡ failed e)) × AllFail agents

  -- An Agent of a list whose attempt has some outcome, after Agents that did not answer.
  pub record IsFirst (agents : List Agent) (agent : Agent) (outcome : Outcome A) : Type ℓ where
    pub before : List Agent
    pub after : List Agent
    pub splits : agents ≡ before ++ agent ∷ after
    pub silent : AllFail before
    pub answers : attempt agent ≡ outcome

  IsFirst-cons :
      (other agent : Agent) (agents : List Agent) (outcome : Outcome A) (e : Failure)
      → attempt other ≡ failed e
      → IsFirst agents agent outcome
      → IsFirst (other ∷ agents) agent outcome
  IsFirst-cons other agent agents outcome e failure f = record {
    before = other ∷ f.before;
    after = f.after;
    splits = ap (λ xs. other ∷ xs) f.splits;
    silent = ((e, failure), f.silent);
    answers = f.answers;
  }

  heartbeat_loop_answered :
      (state : DirectoryState) (agents : List Agent) (failures : List (String × Failure))
      (response : A)
      → (heartbeat_loop attempt state agents failures).1 ≡ answered response
      → (agent : Agent) × IsFirst agents agent (ok response)
        × ((heartbeat_loop attempt state agents failures).0
            ≡ record state { last_answered = some agent })
  unfolding heartbeat_loop
  heartbeat_loop_answered state [] failures response h = cc h
  heartbeat_loop_answered state (agent ∷ agents) failures response h =
      elim (Outcome-cases (attempt agent)) [
        | inl (r, e) ↦
            let h' : answered r ≡ answered response = rw (e, heartbeat_loop) at h in
            let same : r ≡ response = cc h' in
            (
              agent,
              record {
                before = [];
                after = agents;
                splits = refl;
                silent = tt;
                answers = e ∙ ap ok same;
              },
              rw (e, heartbeat_loop) refl,
            )
        | inr (inl (r, e)) ↦ cc (rw (e, heartbeat_loop) at h)
        | inr (inr (f, e)) ↦
            let more = failures ++ (agent.ip_address, f) ∷ [] in
            let h' : (heartbeat_loop attempt state agents more).1 ≡ answered response =
              rw (e, heartbeat_loop) at h in
            let (other, first, last) = heartbeat_loop_answered state agents more response h' in
            (
              other,
              IsFirst-cons agent other agents (ok response) f e first,
              rw (e, heartbeat_loop) last,
            )
      ]

  pub heartbeat_loop-IsAnswer :
      (state : DirectoryState) (agents : List Agent) (failures : List (String × Failure))
      (agent : Agent)
      → elem agent agents ≡ true
      → DoesAnswer (attempt agent)
      → IsAnswer (heartbeat_loop attempt state agents failures).1
  unfolding heartbeat_loop elem
  heartbeat_loop-IsAnswer state [] failures agent h d = cc h
  heartbeat_loop-IsAnswer state (other ∷ agents) failures agent h d =
      elim (Outcome-cases (attempt other)) [
        | inl (r, e) ↦ rw (e, heartbeat_loop, IsAnswer) tt
        | inr (inl (r, e)) ↦ rw (e, heartbeat_loop, IsAnswer) tt
        | inr (inr (f, e)) ↦
            rw (e, heartbeat_loop)
              (heartbeat_loop-IsAnswer state agents (failures ++ (other.ip_address, f) ∷ []) agent
                (ground (arith, h, d, e)) d)
      ]

  -- Both loops ask the same Agents and give the same answer.
  deregister_loop-eq :
      (state : DirectoryState) (agents : List Agent) (failures : List (String × Failure))
      → deregister_loop attempt agents failures ≡ (heartbeat_loop attempt state agents failures).1
  unfolding deregister_loop heartbeat_loop
  deregister_loop-eq state [] failures = refl
  deregister_loop-eq state (agent ∷ agents) failures = elim (Outcome-cases (attempt agent)) [
    | inl (r, e) ↦ rw (e, deregister_loop, heartbeat_loop) refl
    | inr (inl (r, e)) ↦ rw (e, deregister_loop, heartbeat_loop) refl
    | inr (inr (f, e)) ↦
        rw (e, deregister_loop, heartbeat_loop)
          (deregister_loop-eq state agents (failures ++ (agent.ip_address, f) ∷ []))
  ]

  pub deregister_listed-eq :
      (state : DirectoryState) (listed : Listing)
      → deregister_listed attempt listed ≡ (heartbeat_listed attempt state listed).1
  deregister_listed-eq state (listing agents) = deregister_loop-eq state agents []
  deregister_listed-eq state (no_list e) = refl
  deregister_listed-eq state empty_list = refl

  -- Who answered: the first of the candidates that did.
  abbrev pub IsAnswerer : Listing → Agent → A → Type ℓ
  IsAnswerer listed agent response =
      (agents : List Agent) × (listed ≡ listing agents) × IsFirst agents agent (ok response)

  heartbeat_listed_answered :
      (state : DirectoryState) (listed : Listing) (response : A)
      → (heartbeat_listed attempt state listed).1 ≡ answered response
      → (agent : Agent) × IsAnswerer listed agent response
        × ((heartbeat_listed attempt state listed).0 ≡ record state { last_answered = some agent })
  heartbeat_listed_answered state (listing agents) response h =
      let (agent, first, remembered) = heartbeat_loop_answered state agents [] response h in
      (agent, (agents, refl, first), remembered)
  heartbeat_listed_answered state (no_list e) response h = cc h
  heartbeat_listed_answered state empty_list response h = cc h

  pub ask_for_heartbeat_answered :
      (state : DirectoryState) (fetched : Outcome (List Agent)) (response : A)
      → (ask_for_heartbeat attempt state fetched).1 ≡ answered response
      → (agent : Agent) × IsAnswerer (candidates state fetched).1 agent response
        × ((ask_for_heartbeat attempt state fetched).0
            ≡ record { last_listed = listed_by state fetched; last_answered = some agent })
  unfolding ask_for_heartbeat
  ask_for_heartbeat_answered state fetched response h =
      let (agent, first, remembered) =
        heartbeat_listed_answered (candidates state fetched).0 (candidates state fetched).1 response
          h in
      (
        agent,
        first,
        remembered
            ∙ ap (λ (st : DirectoryState). record st { last_answered = some agent })
                (candidates_state state fetched),
      )

  pub ask_to_deregister_answered :
      (state : DirectoryState) (fetched : Outcome (List Agent)) (response : A)
      → (ask_to_deregister attempt state fetched).1 ≡ answered response
      → (agent : Agent) × IsAnswerer (candidates state fetched).1 agent response
  unfolding ask_to_deregister
  ask_to_deregister_answered state fetched response h =
      let (agent, first, remembered) =
        heartbeat_listed_answered (candidates state fetched).0 (candidates state fetched).1 response
          (sym (deregister_listed-eq (candidates state fetched).0 (candidates state fetched).1)
            ∙ h) in
      (agent, first)

  heartbeat_loop_listed :
      (state : DirectoryState) (agents : List Agent) (failures : List (String × Failure))
      → (heartbeat_loop attempt state agents failures).0.last_listed ≡ state.last_listed
  unfolding heartbeat_loop
  heartbeat_loop_listed state [] failures = refl
  heartbeat_loop_listed state (agent ∷ agents) failures = elim (Outcome-cases (attempt agent)) [
    | inl (r, e) ↦ rw (e, heartbeat_loop) refl
    | inr (inl (r, e)) ↦ rw (e, heartbeat_loop) refl
    | inr (inr (f, e)) ↦
        rw (e, heartbeat_loop)
          (heartbeat_loop_listed state agents (failures ++ (agent.ip_address, f) ∷ []))
  ]

  heartbeat_listed_listed :
      (state : DirectoryState) (listed : Listing)
      → (heartbeat_listed attempt state listed).0.last_listed ≡ state.last_listed
  heartbeat_listed_listed state (listing agents) = heartbeat_loop_listed state agents []
  heartbeat_listed_listed state (no_list e) = refl
  heartbeat_listed_listed state empty_list = refl

  -- Whatever the Agents answer, the list at hand is remembered.
  pub ask_for_heartbeat_listed :
      (state : DirectoryState) (fetched : Outcome (List Agent))
      → (ask_for_heartbeat attempt state fetched).0.last_listed ≡ listed_by state fetched
  unfolding ask_for_heartbeat
  ask_for_heartbeat_listed state fetched =
      heartbeat_listed_listed (candidates state fetched).0 (candidates state fetched).1
      ∙ ap (λ (st : DirectoryState). st.last_listed) (candidates_state state fetched)
