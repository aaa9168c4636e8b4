-- ===== src/FlowTable/Flows/Gone.antt =====
-- src/flow_table.rs: a flow that was released stays out of the table while its release is remembered.
use secure_connect_connector.FlowTable.Pending.{take_pending}
use secure_connect_connector.FlowTable.Invariant.Histories.{step, step-IsValid, takes}
use secure_connect_connector.Dto.{PortRule}
use secure_connect_connector.FlowTable.Invariant.Changes.{admit_flow-IsValid, release-IsValid}
use secure_connect_connector.FlowTable.Invariant.Removal.{IsValid}
use secure_connect_connector.FlowTable.Flows.{admit_flow, index_flow, new_flow, release}
use secure_connect_connector.FlowTable.Types.{
  AdmittedFlow, Dialled, FlowKey, FlowTable, flow_key, legacy_key, released_flow_memory,
}
use secure_connect_connector.Net.{duration_since}
use secure_connect_connector.HashMap.Laws.{
  IsUnique, get-insert, get-retain, insert-IsUnique, retain-IsUnique,
}
use secure_connect_connector.HashMap.{get, insert, retain}
use secure_connect_connector.Base.{
  Bool, Bool-cases, List, Option, Option-cases, String, ap, arith, inl, inr, leb, none, refl, some,
  string_key, subst, sym, ℕ, ◌+◌, ◌==◌, ◌∙◌, ◌≡◌, ◌≢◌, ◌≤◌, ◌⊎◌,
}
use secure_connect_connector.FlowTable.Flows.Effects.{
  get-admit_flow, get-release, remove_flow-SameRest, remove_flows_where-SameRest,
}

-- A flow that was released at an instant or since: the table has no flow of its id, and remembers
-- the release.
pub record IsGone (flow_id : String) (since : ℕ) (t : FlowTable) : Type 0 where
  pub valid : IsValid t
  pub recent : IsUnique t.recently_released
  pub absent :
      (key : FlowKey) (flow : AdmittedFlow) → get key t.flows ≡ some flow → flow.flow_id ≢ flow_id
  pub released_at : ℕ
  pub after : since ≤ released_at
  pub remembered : get flow_id t.recently_released ≡ some released_at

release-recent :
    (t : FlowTable) (i : String) (now : ℕ)
    → (release t i now).recently_released
      ≡ insert i now
          (retain (λ _ at. leb (duration_since now at) released_flow_memory) t.recently_released)
unfolding release
release-recent t i now =
    rw
      (ap (λ (x : FlowTable). x.recently_released)
        (remove_flows_where-SameRest t (λ _ flow. flow.flow_id == i)))
      refl

pub release-absent :
    (t : FlowTable) (i : String) (now : ℕ)
    → IsUnique t.flows
    → (key : FlowKey) (flow : AdmittedFlow) → get key (release t i now).flows ≡ some flow
    → (flow.flow_id ≢ i) × (get key t.flows ≡ some flow)
release-absent t i now u key flow e = elim (Option-cases (get key t.flows)) [
  | inl f ↦ absurd (ground (arith, get-release t i now key u))
  | inr (held, f) ↦
      (λ same. ground (arith, get-release t i now key u), ground (arith, get-release t i now key u))
]

admit_flow-recent :
    (t : FlowTable) (n : String) (port : ℕ) (d : Option Dialled) (gateway other key : String)
    (opened : List PortRule)
    → (admit_flow t n port d gateway other key opened).recently_released ≡ t.recently_released
unfolding admit_flow index_flow
admit_flow-recent t n port none gateway other key opened =
    ap (λ (x : FlowTable). x.recently_released) (remove_flow-SameRest t (legacy_key n port))
admit_flow-recent t n port (some d) gateway other key opened =
    ap (λ (x : FlowTable). x.recently_released)
      (remove_flow-SameRest t (record { node_id = n; port = port; dialled = some d }))

admitted_other :
    (t : FlowTable) (n : String) (port : ℕ) (d : Option Dialled) (gateway other key : String)
    (opened : List PortRule) (at : FlowKey) (flow : AdmittedFlow)
    → get at (admit_flow t n port d gateway other key opened).flows ≡ some flow
    → (flow.flow_id ≡ other) ⊎ (get at t.flows ≡ some flow)
unfolding new_flow
admitted_other t n port d gateway other key opened at flow e =
    elim (Bool-cases (◌==◌ {K = FlowKey} (record { node_id = n; port = port; dialled = d }) at)) [
      | inl h ↦ inl (ground (arith, get-admit_flow t n port d gateway other key opened at))
      | inr h ↦ inr (ground (arith, get-admit_flow t n port d gateway other key opened at))
    ]

pub take_pending-rest :
    (t : FlowTable) (n : String) (port : ℕ) (d : Option Dialled) (at : ℕ)
    → ((take_pending t n port d at).0.flows ≡ t.flows)
      × ((take_pending t n port d at).0.recently_released ≡ t.recently_released)
unfolding take_pending
take_pending-rest t n port d at = (ground arith, ground arith)

-- A release makes its flow gone.
pub release-IsGone :
    (t : FlowTable) (i : String) (now : ℕ)
    → IsValid t
    → IsUnique t.recently_released
    → IsGone i now (release t i now)
release-IsGone t i now v r =
    let kept =
      retain (λ (_ : String) at. leb (duration_since now at) released_flow_memory)
        t.recently_released in
    record {
      valid = release-IsValid t i now v;
      recent =
          subst IsUnique (sym (release-recent t i now))
            (insert-IsUnique i now kept (retain-IsUnique _ _ r));
      absent = λ key flow e. (release-absent t i now v.distinct key flow e).0;
      released_at = now;
      after = omega arith;
      remembered = rw (release-recent t i now) (ground (arith, get-insert i i now kept));
    }

module _ (i : String) (since : ℕ) where
  -- A change elsewhere in the table.
  pub same-IsGone :
      (t u : FlowTable)
      → IsValid u
      → t.flows ≡ u.flows
      → t.recently_released ≡ u.recently_released
      → IsGone i since t
      → IsGone i since u
  same-IsGone t u v flows recent g = record {
    valid = v;
    recent = subst IsUnique recent g.recent;
    absent = λ key flow e. g.absent key flow (ap (get key) flows ∙ e);
    released_at = g.released_at;
    after = g.after;
    remembered = subst (λ m. get i m ≡ some g.released_at) recent g.remembered;
  }

  taken :
      (t : FlowTable) (n : String) (port : ℕ) (d : Option Dialled) (at : ℕ)
      → IsValid t
      → IsValid (take_pending t n port d at).0
  unfolding step
  taken t n port d at v = step-IsValid t (takes n port d at) v

  pub take_pending-IsGone :
      (t : FlowTable) (n : String) (port : ℕ) (d : Option Dialled) (at : ℕ)
      → IsGone i since t
      → IsGone i since (take_pending t n port d at).0
  take_pending-IsGone t n port d at g =
      same-IsGone t _ (taken t n port d at g.valid) (sym (take_pending-rest t n port d at).0)
        (sym (take_pending-rest t n port d at).1) g

  pub admit_flow-IsGone :
      (t : FlowTable) (n : String) (port : ℕ) (d : Option Dialled) (gateway other key : String)
      (opened : List PortRule)
      → other ≢ i
      → IsGone i since t
      → IsGone i since (admit_flow t n port d gateway other key opened)
  admit_flow-IsGone t n port d gateway other key opened ne g = record {
    valid = admit_flow-IsValid t n port d gateway other key opened g.valid;
    recent = subst IsUnique (sym (admit_flow-recent t n port d gateway other key opened)) g.recent;
    absent = λ at flow e. elim (admitted_other t n port d gateway other key opened at flow e) [
      | inl same ↦ λ h. ne (sym same ∙ h)
      | inr old ↦ g.absent at flow old
    ];
    released_at = g.released_at;
    after = g.after;
    remembered = rw (admit_flow-recent t n port d gateway other key opened) g.remembered;
  }

  pub later_release-IsGone :
      (t : FlowTable) (other : String) (now : ℕ)
      → since ≤ now
      → now ≤ since + released_flow_memory
      → IsGone i since t
      → IsGone i since (release t other now)
  later_release-IsGone t other now from until g =
      let fresh : String → ℕ → Bool = λ _ at. leb (duration_since now at) released_flow_memory in
      let kept = retain fresh t.recently_released in
      let gone : (at : ℕ)
          → since ≤ at
          → get i (insert other now kept) ≡ some at
          → IsGone i since (release t other now) =
        λ at after remembered. record {
          valid = release-IsValid t other now g.valid;
          recent =
              subst IsUnique (sym (release-recent t other now))
                (insert-IsUnique other now kept (retain-IsUnique _ _ g.recent));
          absent = λ key flow e.
              g.absent key flow (release-absent t other now g.valid.distinct key flow e).1;
          released_at = at;
          after = after;
          remembered = rw (release-recent t other now) remembered;
        } in
      elim (Bool-cases (other == i)) [
        | inl same ↦ gone now from (ground (arith, get-insert other i now kept))
        | inr different ↦ gone g.released_at g.after (
            ground (
              arith,
              get-insert other i now kept,
              get-retain fresh i t.recently_released g.recent,
              g.remembered,
              g.after,
            ))
      ]
