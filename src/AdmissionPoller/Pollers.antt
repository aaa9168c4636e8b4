-- ===== src/AdmissionPoller/Pollers.antt =====
-- src/admission_poller.rs: one poller for each node of the last heartbeat, under its connector id.
use secure_connect_connector.Dto.{HeartbeatNode}
use secure_connect_connector.Text.{is_empty, trim}
use secure_connect_connector.HashMap.Laws.{get-insert, get-retain_keys}
use secure_connect_connector.HashMap.{HashMap, HashSet, contains_key, get, insert, retain}
use secure_connect_connector.Base.{
  Bool, Bool-cases, List, Option, Option-cases, String, [], arith, false, if◌then◌else◌, inl, inr,
  nat_key, none, refl, some, string_key, ◌==◌, ◌∷◌, ◌≡◌,
}

-- A running poller is known by its node and by the connector id that it was started with.
pub record AdmissionPollers : Type 0 where
  pub connector_id : Option String
  pub tasks : HashMap String String

unfoldable pub new : AdmissionPollers
new = record { connector_id = none; tasks = [] }

-- `trim().is_empty()`
unfoldable pub is_blank : String → Bool
unfolding trim
is_blank s = is_empty (trim s)

unfoldable pub stop_all : AdmissionPollers → AdmissionPollers
stop_all pollers = record pollers { tasks = [] }

unfoldable pub node_ids : List HeartbeatNode → HashSet String
node_ids [] = []
node_ids (node ∷ nodes) = insert node.node_id tt (node_ids nodes)

-- The last loop of `sync`.
unfoldable pub start_pollers :
    String → List HeartbeatNode → HashMap String String → HashMap String String
start_pollers connector_id [] tasks = tasks
start_pollers connector_id (node ∷ nodes) tasks =
    start_pollers connector_id nodes
      (if contains_key node.node_id tasks then tasks else insert node.node_id connector_id tasks)

abbrev is_current : Option String → String → Bool
is_current none connector_id = false
is_current (some current) connector_id = current == connector_id

-- `sync` for an id that is not blank, from the pollers that run under it.
unfoldable pub sync_tasks : AdmissionPollers → String → List HeartbeatNode → AdmissionPollers
unfolding node_ids start_pollers
sync_tasks pollers connector_id nodes =
    let seen = node_ids nodes in
    record pollers {
      tasks =
          start_pollers connector_id nodes
            (retain (λ node_id _. contains_key node_id seen) pollers.tasks);
    }

-- `sync`
unfoldable pub sync : AdmissionPollers → String → List HeartbeatNode → AdmissionPollers
unfolding is_blank stop_all sync_tasks
sync pollers connector_id nodes =
    if is_blank connector_id
    then record (stop_all pollers) { connector_id = none }
    else sync_tasks
        (if is_current pollers.connector_id connector_id
          then pollers
          else record (stop_all pollers) { connector_id = some connector_id })
        connector_id nodes

-- The nodes of a list.
abbrev pub listed : String → List HeartbeatNode → Bool
listed node_id nodes = contains_key node_id (node_ids nodes)

-- Every running poller was started under the current connector id.
abbrev pub IsUniform : AdmissionPollers → Type 0
IsUniform pollers =
    (node_id : String) (id : String)
    → get node_id pollers.tasks ≡ some id
    → pollers.connector_id ≡ some id

get-start_pollers :
    (id : String) (nodes : List HeartbeatNode) (tasks : HashMap String String) (n : String)
    → get n (start_pollers id nodes tasks) ≡ elim (get n tasks) [
      | some held ↦ some held
      | none ↦ if listed n nodes then some id else none
    ]
unfolding start_pollers node_ids get
get-start_pollers id [] tasks n = elim (Option-cases (get n tasks)) [
  | inl e ↦ rw e refl
  | inr (held, e) ↦ rw e refl
]
get-start_pollers id (node ∷ nodes) tasks n =
    let more = if contains_key node.node_id tasks then tasks else insert node.node_id id tasks in
    elim (Option-cases (get n tasks)) [
      | inl e ↦ ground (
        arith,
        e,
        get-start_pollers id nodes more n,
        get-insert node.node_id n id tasks,
        get-insert node.node_id n tt (node_ids nodes),
      )
      | inr (held, e) ↦ ground (
        arith,
        e,
        get-start_pollers id nodes more n,
        get-insert node.node_id n id tasks,
        get-insert node.node_id n tt (node_ids nodes),
      )
    ]

get-sync_tasks :
    (pollers : AdmissionPollers) (id : String) (nodes : List HeartbeatNode) (n : String)
    → ((held : String) → get n pollers.tasks ≡ some held → held ≡ id)
    → get n (sync_tasks pollers id nodes).tasks ≡ (if listed n nodes then some id else none)
unfolding sync_tasks
get-sync_tasks pollers id nodes n same = elim (Option-cases (get n pollers.tasks)) [
  | inl e ↦ ground (
    arith,
    e,
    get-start_pollers id nodes (retain (λ k _. contains_key k (node_ids nodes)) pollers.tasks) n,
    get-retain_keys (λ k. contains_key k (node_ids nodes)) n pollers.tasks,
  )
  | inr (held, e) ↦ ground (
    arith,
    e,
    same held e,
    get-start_pollers id nodes (retain (λ k _. contains_key k (node_ids nodes)) pollers.tasks) n,
    get-retain_keys (λ k. contains_key k (node_ids nodes)) n pollers.tasks,
  )
]

-- Where every running poller is under the current connector id, after a `sync` with an id that is
-- not blank exactly the nodes of the list have a poller, each started under that id; with a blank
-- one, none has.
pub get-sync :
    (pollers : AdmissionPollers) (id : String) (nodes : List HeartbeatNode) (n : String)
    → IsUniform pollers
    → get n (sync pollers id nodes).tasks
      ≡ (if is_blank id then none else if listed n nodes then some id else none)
unfolding sync stop_all get
get-sync pollers id nodes n uniform = elim (Bool-cases (is_blank id)) [
  | inl blank ↦ rw (blank, sync) refl
  | inr named ↦
      rw (named, sync)
        (elim (Bool-cases (is_current pollers.connector_id id)) [
          | inl same ↦
              rw (same, sync)
                (get-sync_tasks pollers id nodes n (λ held e. ground (arith, uniform n held e)))
          | inr other ↦
              rw (other, sync)
                (get-sync_tasks (record { connector_id = some id; tasks = [] }) id nodes n
                  (λ held e. ground arith))
        ])
]

sync-connector_id :
    (pollers : AdmissionPollers) (id : String) (nodes : List HeartbeatNode)
    → (sync pollers id nodes).connector_id ≡ (if is_blank id then none else some id)
unfolding sync stop_all sync_tasks
sync-connector_id pollers id nodes = ground arith

pub sync-IsUniform :
    (pollers : AdmissionPollers) (id : String) (nodes : List HeartbeatNode)
    → IsUniform pollers
    → IsUniform (sync pollers id nodes)
sync-IsUniform pollers id nodes uniform n held e =
    ground (arith, get-sync pollers id nodes n uniform, sync-connector_id pollers id nodes)

unfoldable pub syncs : AdmissionPollers → List (String × List HeartbeatNode) → AdmissionPollers
unfolding sync
syncs pollers [] = pollers
syncs pollers ((id, nodes) ∷ later) = syncs (sync pollers id nodes) later

-- Over any heartbeats, every running poller is under the connector id that is current.
pub syncs-IsUniform :
    (pollers : AdmissionPollers) (heartbeats : List (String × List HeartbeatNode))
    → IsUniform pollers
    → IsUniform (syncs pollers heartbeats)
unfolding syncs
syncs-IsUniform pollers [] uniform = uniform
syncs-IsUniform pollers ((id, nodes) ∷ later) uniform =
    syncs-IsUniform (sync pollers id nodes) later (sync-IsUniform pollers id nodes uniform)
