-- ===== src/Cycle/Reports.antt =====
-- src/main.rs: what becomes of a gateway-end report that waits in the queue, over the heartbeats that
-- follow, each of which may queue more.
use secure_connect_connector.Heartbeat.{ConnectorHeartbeatRequest}
use Prim.Native.String.{String}
use mathlib.Core.List.{Memᴰ}
use secure_connect_connector.AgentDirectory.{answered, heartbeat}
use secure_connect_connector.Cycle.{ask, bundles_in_force, request_of, run_heartbeat}
use secure_connect_connector.Dto.{ConnectorHeartbeatResponse}
use secure_connect_connector.GatewayEnd.{
  GatewayEndReport, is_served, max_reports_per_heartbeat, report_ids, serving_window_ms,
}
use secure_connect_connector.GatewayEnd.Delivery.{not_in, pending_reports}
use secure_connect_connector.GatewayEnd.Waiting.{
  Waits, Waits-append, Waits-filter_list, sent_or_Waits,
}
use secure_connect_connector.Package.{Connector, Libraries, Surroundings}
use secure_connect_connector.Base.{
  Bool, Bool-cases, List, [], ap, arith, false, filter_list, if◌then◌else◌, inl, inr, string_key,
  subst, suc, sym, true, ℕ, ◌*◌, ◌++◌, ◌+◌, ◌-◌, ◌<◌, ◌∙◌, ◌∷◌, ◌≡◌, ◌≤◌, ◌⊎◌,
}
use secure_connect_connector.Cycle.Answers.{
  answered_by, answered_reports, is_answered, unanswered_reports,
}

module _ (libraries : Libraries) where
  -- The serving window of a report is over.
  abbrev pub IsLate : Surroundings libraries.serde.Bytes → GatewayEndReport → Type 0
  IsLate around r = r.ended_at + serving_window_ms ≤ around.now_ms

  module _ (key : String) (around : Surroundings libraries.serde.Bytes)
      (c : Connector libraries) where
    -- The reports that the heartbeat's request carries.
    abbrev pub carried : List GatewayEndReport
    carried = (ask libraries key around c).1

    -- The connector after the heartbeat, and whether it was answered.
    abbrev pub after_heartbeat : Connector libraries
    after_heartbeat = (run_heartbeat libraries key around c).0

    abbrev pub was_answered : Bool
    was_answered = is_answered libraries (run_heartbeat libraries key around c).2

    abbrev pub its_request : ConnectorHeartbeatRequest
    its_request = request_of libraries key c carried

    -- The heartbeat's request carries the report, and an Agent answers it.
    pub record IsCarried (r : GatewayEndReport) : Type 0 where
      pub response : ConnectorHeartbeatResponse
      pub carries : Memᴰ r its_request.ended_flows
      pub answers :
          (heartbeat libraries.crypto libraries.parsers around.network c.directory its_request).1
          ≡ answered response

    answered-IsCarried : (r : GatewayEndReport) → was_answered ≡ true → Memᴰ r carried → IsCarried r
    unfolding run_heartbeat ask
    answered-IsCarried r a m =
        let (asked, sent, answer) = ask libraries key around c in
        let (response, e) =
          answered_by libraries around asked (bundles_in_force libraries c) (report_ids sent) answer
            a in
        record { response = response; carries = m; answers = e }

    -- An answered heartbeat carries a report that waits, or 200 fewer are before it.
    answered-Waits :
        (r : GatewayEndReport) (most : ℕ)
        → was_answered ≡ true
        → is_served around.now_ms r ≡ true
        → Waits r most c.gateway_end_queue.reports
        → Memᴰ r carried
          ⊎ ((max_reports_per_heartbeat ≤ most)
              × Waits r
                  (most - max_reports_per_heartbeat)
                  after_heartbeat.gateway_end_queue.reports)
    unfolding run_heartbeat ask
    answered-Waits r most a served w =
        let queue = c.gateway_end_queue in
        let left = filter_list (is_served around.now_ms) queue.reports in
        let (asked, sent, answer) = ask libraries key around c in
        let (more, e) =
          answered_reports libraries around asked (bundles_in_force libraries c) sent answer a in
        let kept = pending_reports libraries.serde around.pending_saving queue around.now_ms in
        elim (sent_or_Waits r max_reports_per_heartbeat most left
          (Waits-filter_list r most (is_served around.now_ms) queue.reports served w)) [
            | inl now ↦ inl now
            | inr (enough, later) ↦ inr (
              enough,
              subst (Waits r (most - max_reports_per_heartbeat))
                  (sym (e ∙ ap (λ xs. filter_list (not_in (report_ids sent)) xs ++ more) kept))
                  (Waits-append r (most - max_reports_per_heartbeat) _ more later),
            )
          ]

    -- In one that is not answered it keeps its place.
    unanswered-Waits :
        (r : GatewayEndReport) (most : ℕ)
        → was_answered ≡ false
        → is_served around.now_ms r ≡ true
        → Waits r most c.gateway_end_queue.reports
        → Waits r most after_heartbeat.gateway_end_queue.reports
    unfolding run_heartbeat ask
    unanswered-Waits r most a served w =
        let queue = c.gateway_end_queue in
        let (asked, sent, answer) = ask libraries key around c in
        subst (Waits r most)
          (sym (
            unanswered_reports libraries around asked (bundles_in_force libraries c)
              (report_ids sent) answer a
            ∙ pending_reports libraries.serde around.pending_saving queue around.now_ms))
          (Waits-filter_list r most (is_served around.now_ms) queue.reports served w)

  -- How many of the heartbeats, one after the other, are answered.
  unfoldable pub answered_heartbeats :
      String → List (Surroundings libraries.serde.Bytes) → Connector libraries → ℕ
  answered_heartbeats key [] c = 0
  answered_heartbeats key (around ∷ later) c =
      let rest = answered_heartbeats key later (after_heartbeat key around c) in
      if was_answered key around c then suc rest else rest

  -- One of the heartbeats carries the report to an Agent that answers, or comes when the report's serving
  -- window is over.
  unfoldable pub IsDelivered :
      String
      → List (Surroundings libraries.serde.Bytes)
      → Connector libraries
      → GatewayEndReport
      → Type 0
  IsDelivered key [] c r = ⊥
  IsDelivered key (around ∷ later) c r =
      IsCarried key around c r
      ⊎ IsLate around r
      ⊎ IsDelivered key later (after_heartbeat key around c) r

  late :
      (around : Surroundings libraries.serde.Bytes) (r : GatewayEndReport)
      → is_served around.now_ms r ≡ false
      → IsLate around r
  unfolding is_served
  late around r e = ground (arith, e)

  -- Over any heartbeats, answered or not, each of which may queue more reports and fail to save the
  -- queue: a report that waits behind others, of which none has its id, is carried by the request
  -- of one of them to an Agent that answers, unless its serving window is over before, if the others
  -- before it are fewer than 200 times the heartbeats that are answered.
  pub run_heartbeats-IsDelivered :
      (key : String) (surroundings : List (Surroundings libraries.serde.Bytes))
      (c : Connector libraries) (r : GatewayEndReport) (most : ℕ)
      → Waits r most c.gateway_end_queue.reports
      → most < max_reports_per_heartbeat * answered_heartbeats key surroundings c
      → IsDelivered key surroundings c r
  unfolding answered_heartbeats IsDelivered
  run_heartbeats-IsDelivered key [] c r most w h = absurd (omega (arith, h))
  run_heartbeats-IsDelivered key (around ∷ later) c r most w h =
      let next = after_heartbeat key around c in
      elim (Bool-cases (is_served around.now_ms r)) [
        | inr e ↦ inr (inl (late around r e))
        | inl served ↦ elim (Bool-cases (was_answered key around c)) [
          | inr missed ↦ inr (
              inr (
                run_heartbeats-IsDelivered key later next r most
                  (unanswered-Waits key around c r most missed served w) (rw missed at h)))
          | inl done ↦ elim (answered-Waits key around c r most done served w) [
            | inl now ↦ inl (answered-IsCarried key around c r done now)
            | inr (enough, waits) ↦ inr (
                inr (
                  run_heartbeats-IsDelivered key later next r (most - max_reports_per_heartbeat)
                    waits (omega (arith, enough, rw done at h))))
          ]
        ]
      ]
