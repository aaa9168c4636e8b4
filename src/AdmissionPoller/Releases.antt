-- ===== src/AdmissionPoller/Releases.antt =====
-- A release that overtakes the admission of its own flow.
use secure_connect_connector.FlowTable.Flows.Gone.{
  IsGone, admit_flow-IsGone, later_release-IsGone, release-IsGone, same-IsGone, take_pending-IsGone,
}
use secure_connect_connector.FlowControl.{FlowReleaseRequest, dialled}
use secure_connect_connector.AdmissionPoller.Messages.{Effect, handle_message-Effect}
use secure_connect_connector.Crypto.{Library}
use secure_connect_connector.FlowTable.ControlPorts.{record_outbound_control_channel_port}
use secure_connect_connector.FlowTable.Invariant.Changes.{IsValid-same}
use secure_connect_connector.AdmissionPoller.{
  ConnectorPollResponse, ControlPlaneState, Moment, connect_registered, handle_message,
  handle_messages, handle_release,
}
use secure_connect_connector.FlowTable.Invariant.Removal.{IsValid}
use secure_connect_connector.FlowTable.Flows.{was_recently_released}
use secure_connect_connector.FlowTable.Types.{
  AdmittedFlow, FlowKey, FlowTable, flow_key, released_flow_memory,
}
use secure_connect_connector.HashMap.Laws.{IsUnique}
use secure_connect_connector.HashMap.{get}
use secure_connect_connector.Base.{
  List, Option, Option-cases, String, [], arith, inl, inr, none, refl, some, string_key, subst, sym,
  ℕ, ◌+◌, ◌∷◌, ◌≡◌, ◌≢◌, ◌≤◌,
}

module _ (i : String) (since : ℕ) where
  connect_registered-IsGone :
      (t : FlowTable) (n : String) (port : Option ℕ)
      → IsGone i since t
      → IsGone i since (connect_registered t n port)
  unfolding connect_registered record_outbound_control_channel_port
  connect_registered-IsGone t n none g = g
  connect_registered-IsGone t n (some port) g =
      same-IsGone i since t _ (IsValid-same t _ refl refl refl g.valid) refl refl g

  Effect-IsGone :
      (before after : FlowTable) (n : String) (moment : Moment)
      → since ≤ moment.instant
      → moment.instant ≤ since + released_flow_memory
      → Effect before n moment after
      → IsGone i since before
      → IsGone i since after
  unfolding was_recently_released
  Effect-IsGone before after n moment from until (Effect.nothing _ e) g =
      subst (IsGone i since) (sym e) (connect_registered-IsGone before n none g)
  Effect-IsGone before after n moment from until (Effect.registers _ e) g =
      subst (IsGone i since) (sym e) (connect_registered-IsGone before n moment.local_port g)
  Effect-IsGone before after n moment from until (Effect.releases_flow other _ e) g =
      subst (IsGone i since) (sym e)
        (later_release-IsGone i since before other moment.instant from until g)
  Effect-IsGone before after n moment from until (Effect.admits_flow request key opened _ fresh e)
        g =
      let ne : request.flow_id ≢ i = λ same. ground (arith, g.remembered, g.after) in
      subst (IsGone i since) (sym e) (
        connect_registered-IsGone _ n moment.local_port (
          take_pending-IsGone i since _ n request.port (dialled request) moment.reclaimed_at (
            admit_flow-IsGone i since before request.node_id request.port (dialled request)
              request.gateway_id request.flow_id key opened ne g)))

-- Each message is handled within `released_flow_memory` after an instant.
abbrev pub AreSoon : ℕ → List (String × ConnectorPollResponse × Moment) → Type 0
AreSoon since [] = Unit {0}
AreSoon since ((_, _, moment) ∷ later) =
    (since ≤ moment.instant) × (moment.instant ≤ since + released_flow_memory) × AreSoon since later

-- Once a flow is gone, no message that is handled within `released_flow_memory` admits it again,
-- its own late admission included, whatever messages there are of any nodes and in any order.
pub handle_messages-IsGone :
    (library : Library) (p : String → Option ℕ) (i : String) (since : ℕ)
    (s after : ControlPlaneState) (messages : List (String × ConnectorPollResponse × Moment))
    → AreSoon since messages
    → IsGone i since s.flow_table
    → handle_messages library p s messages ≡ some after
    → IsGone i since after.flow_table
unfolding handle_messages
handle_messages-IsGone library p i since s after [] soon g e =
    let same : s ≡ after = ground arith in
    subst (λ (x : ControlPlaneState). IsGone i since x.flow_table) same g
handle_messages-IsGone library p i since s after ((n, message, moment) ∷ later) soon g e =
    elim (Option-cases (handle_message library p s n message moment)) [
      | inl f ↦ absurd (ground arith)
      | inr (next, f) ↦
          handle_messages-IsGone library p i since next after later soon.2
            (Effect-IsGone i since s.flow_table next.flow_table n moment soon.0 soon.1
              (handle_message-Effect library p s n moment message next f) g)
            (ground arith)
    ]

-- After a release from a well-formed table, and after whatever messages of any nodes are handled
-- at instants from the release to `released_flow_memory` after it, the released flow's own late
-- admission included, the table has no flow of the released id.
pub handle_release_stays_out :
    (library : Library) (p : String → Option ℕ) (request : FlowReleaseRequest) (since : ℕ)
    (s after : ControlPlaneState) (messages : List (String × ConnectorPollResponse × Moment))
    → IsValid s.flow_table
    → IsUnique s.flow_table.recently_released
    → AreSoon since messages
    → handle_messages library p (handle_release s (some request) since) messages ≡ some after
    → (key : FlowKey) (flow : AdmittedFlow) → get key after.flow_table.flows ≡ some flow
    → flow.flow_id ≢ request.flow_id
unfolding handle_release
handle_release_stays_out library p request since s after messages v u soon e =
    (handle_messages-IsGone library p request.flow_id since _ after messages soon
      (release-IsGone s.flow_table request.flow_id since v u) e).absent
