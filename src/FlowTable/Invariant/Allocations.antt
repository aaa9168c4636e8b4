-- ===== src/FlowTable/Invariant/Allocations.antt =====
-- The index from a reply to its flow, against the source ports that the flows hold.
use secure_connect_connector.Base.{
  Option, Option-cases, [], and_then, arith, inl, inr, nat_key, none, some, ◌≡◌,
}
use secure_connect_connector.HashMap.{HashMap, get, insert, map_values, remove}
use secure_connect_connector.HashMap.Laws.{get-insert, get-map_values, get-remove}
use secure_connect_connector.FlowTable.Types.{
  AdmittedFlow, AllocationKey, FlowKey, allocation_key, flow_key,
}

-- What a reply on the flow carries, where the flow has a source port.
unfoldable pub claimed : FlowKey → AdmittedFlow → Option AllocationKey
claimed key flow = elim key.dialled [
  | none ↦ none
  | some dialled ↦ elim flow.allocation [
    | none ↦ none
    | some held ↦ some (dialled.transport, held.target.0, held.target.1, held.port)
  ]
]

abbrev pub claims : HashMap FlowKey AdmittedFlow → FlowKey → Option AllocationKey
claims flows key = and_then (get key flows) (claimed key)

-- A reply is indexed to a flow exactly when that flow holds what the reply carries.
pub record IsIndexed (flows : HashMap FlowKey AdmittedFlow) (index : HashMap AllocationKey FlowKey)
    : Type 0 where
  pub held :
      (key : FlowKey) (reply : AllocationKey)
      → claims flows key ≡ some reply
      → get reply index ≡ some key
  pub backed :
      (key : FlowKey) (reply : AllocationKey)
      → get reply index ≡ some key
      → claims flows key ≡ some reply

module _ {flows : HashMap FlowKey AdmittedFlow} {index : HashMap AllocationKey FlowKey}
    (valid : IsIndexed flows index) where
  pub remove-IsIndexed :
      (key : FlowKey) (reply : AllocationKey)
      → claims flows key ≡ some reply
      → IsIndexed (remove key flows) (remove reply index)
  remove-IsIndexed key reply claim = record {
    held = λ k r c. ground (
      arith,
      get-remove key k flows,
      get-remove reply r index,
      valid.held k r,
      valid.held key reply,
    );
    backed =
        λ k r c. ground (arith, get-remove key k flows, get-remove reply r index, valid.backed k r);
  }

  pub remove_unclaimed-IsIndexed :
      (key : FlowKey) → claims flows key ≡ none → IsIndexed (remove key flows) index
  remove_unclaimed-IsIndexed key claim = record {
    held = λ k r c. ground (arith, get-remove key k flows, valid.held k r);
    backed = λ k r c. ground (arith, get-remove key k flows, valid.backed k r);
  }

  -- A flow with no source port may replace a flow with none.
  pub insert_unclaimed-IsIndexed :
      (key : FlowKey) (flow : AdmittedFlow)
      → claims flows key ≡ none
      → claimed key flow ≡ none
      → IsIndexed (insert key flow flows) index
  insert_unclaimed-IsIndexed key flow before after = record {
    held = λ k r c. ground (arith, get-insert key k flow flows, valid.held k r);
    backed = λ k r c. ground (arith, get-insert key k flow flows, valid.backed k r);
  }

  pub insert-IsIndexed :
      (key : FlowKey) (flow : AdmittedFlow) (reply : AllocationKey)
      → claims flows key ≡ none
      → claimed key flow ≡ some reply
      → get reply index ≡ none
      → IsIndexed (insert key flow flows) (insert reply key index)
  insert-IsIndexed key flow reply before after free = record {
    held = λ k r c.
        ground (arith, get-insert key k flow flows, get-insert reply r key index, valid.held k r);
    backed = λ k r c.
        ground (arith, get-insert key k flow flows, get-insert reply r key index, valid.backed k r);
  }

  pub map_values-IsIndexed :
      (f : AdmittedFlow → AdmittedFlow)
      → ((key : FlowKey) (flow : AdmittedFlow) → claimed key (f flow) ≡ claimed key flow)
      → IsIndexed (map_values f flows) index
  map_values-IsIndexed f same = record {
    held = λ k r c. elim (Option-cases (get k flows)) [
      | inl e ↦ ground (arith, get-map_values f k flows)
      | inr (flow, e) ↦ ground (arith, get-map_values f k flows, same k flow, valid.held k r)
    ];
    backed = λ k r c. elim (Option-cases (get k flows)) [
      | inl e ↦ ground (arith, get-map_values f k flows, valid.backed k r)
      | inr (flow, e) ↦ ground (arith, get-map_values f k flows, same k flow, valid.backed k r)
    ];
  }

  -- No two flows hold the same source port toward the same place.
  pub claims_injective :
      (a b : FlowKey) (reply : AllocationKey)
      → claims flows a ≡ some reply
      → claims flows b ≡ some reply
      → a ≡ b
  claims_injective a b reply p q = cc (valid.held a reply p, valid.held b reply q)

pub new-IsIndexed : IsIndexed [] []
unfolding get
new-IsIndexed = record { held = λ k r c. ground arith; backed = λ k r c. ground arith }
