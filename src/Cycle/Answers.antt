-- ===== src/Cycle/Answers.antt =====
-- src/main.rs: what a heartbeat leaves of the queue of gateway-end reports, by its answer.
use Prim.Native.String.{String}
use secure_connect_connector.AgentDirectory.{
  Answer, answered, list_failed, lists_none, none_answered, refused,
}
use secure_connect_connector.Cycle.{
  Beat, apply_response, beaten, finish, heartbeat_failed, package_rejected, take_answer,
}
use secure_connect_connector.Dto.{ConnectorHeartbeatResponse, PolicyBundle}
use secure_connect_connector.GatewayEnd.{GatewayEndQueue, Saving, Serde, enqueue, report_ids}
use secure_connect_connector.GatewayEnd.Delivery.{acknowledge_reports, not_in}
use secure_connect_connector.GatewayEnd.Waiting.{Reports}
use secure_connect_connector.Package.{
  Connector, Libraries, Surroundings, follow_nodes, follow_rules, put_in_force,
  queue_gateway_end_reports, reconcile_entitlements,
}
use secure_connect_connector.Policy.{Applied, applied, expired, unparseable}
use secure_connect_connector.Base.{
  Bool, List, Option, [], ap, false, filter_list, none, refl, some, string_key, true, ◌++◌, ◌∙◌,
  ◌∷◌, ◌≡◌,
}

append-nil : (xs : Reports) → xs ≡ xs ++ []
append-nil [] = refl
append-nil (x ∷ xs) = ap (λ rs. x ∷ rs) (append-nil xs)

enqueue_reports :
    (serde : Serde) (saving : Saving serde.Bytes) (queue : GatewayEndQueue serde.Bytes)
    (more : Reports)
    → (enqueue serde saving queue more).0.reports ≡ queue.reports ++ more
unfolding enqueue
enqueue_reports serde saving queue [] = append-nil queue.reports
enqueue_reports serde saving queue (report ∷ more) = refl

module _ (libraries : Libraries) where
  -- The answer of an Agent was verified, whatever became of its package.
  abbrev pub is_answered : Beat libraries → Bool
  is_answered (beaten ip) = true
  is_answered (heartbeat_failed error) = false
  is_answered (package_rejected result) = true

  put_in_force_reports :
      (around : Surroundings libraries.serde.Bytes) (c : Connector libraries)
      (old : Option (List PolicyBundle)) (response : ConnectorHeartbeatResponse)
      → (more : Reports) × ((put_in_force libraries around c old
            response).0.gateway_end_queue.reports
          ≡ c.gateway_end_queue.reports ++ more)
  unfolding put_in_force follow_rules follow_nodes reconcile_entitlements queue_gateway_end_reports
  put_in_force_reports around c none response = ([], append-nil c.gateway_end_queue.reports)
  put_in_force_reports around c (some old) response =
      (_, enqueue_reports libraries.serde around.enqueue_saving c.gateway_end_queue _)

  finish_reports :
      (around : Surroundings libraries.serde.Bytes) (c : Connector libraries)
      (old : Option (List PolicyBundle)) (response : ConnectorHeartbeatResponse) (result : Applied)
      → (more : Reports) × ((finish libraries around c old response
            result).0.gateway_end_queue.reports
          ≡ c.gateway_end_queue.reports ++ more)
  unfolding finish
  finish_reports around c old response applied = put_in_force_reports around c old response
  finish_reports around c old response unparseable = ([], append-nil c.gateway_end_queue.reports)
  finish_reports around c old response expired = ([], append-nil c.gateway_end_queue.reports)

  finish-is_answered :
      (around : Surroundings libraries.serde.Bytes) (c : Connector libraries)
      (old : Option (List PolicyBundle)) (response : ConnectorHeartbeatResponse) (result : Applied)
      → is_answered (finish libraries around c old response result).2 ≡ true
  unfolding finish
  finish-is_answered around c old response applied = refl
  finish-is_answered around c old response unparseable = refl
  finish-is_answered around c old response expired = refl

  -- An answered heartbeat drops from the queue what it sent, and adds to its end.
  pub answered_reports :
      (around : Surroundings libraries.serde.Bytes) (c : Connector libraries)
      (old : Option (List PolicyBundle)) (sent : Reports)
      (answer : Answer ConnectorHeartbeatResponse)
      → is_answered (take_answer libraries around c old (report_ids sent) answer).2 ≡ true
      → (more : Reports) × ((take_answer libraries around c old
            (report_ids sent)
            answer).0.gateway_end_queue.reports
          ≡ filter_list (not_in (report_ids sent)) c.gateway_end_queue.reports ++ more)
  unfolding apply_response
  answered_reports around c old sent (answered response) a =
      let (after, result) = apply_response libraries around c (report_ids sent) response in
      let (more, e) = finish_reports around after old response result in
      (
        more,
        e
            ∙ ap (λ xs. xs ++ more)
                (acknowledge_reports libraries.serde around.acknowledge_saving c.gateway_end_queue
                  (report_ids sent)),
      )
  answered_reports around c old sent (refused r) a = absurd (cc a)
  answered_reports around c old sent (list_failed e) a = absurd (cc a)
  answered_reports around c old sent lists_none a = absurd (cc a)
  answered_reports around c old sent (none_answered failures) a = absurd (cc a)

  -- One that is not answered leaves them.
  pub unanswered_reports :
      (around : Surroundings libraries.serde.Bytes) (c : Connector libraries)
      (old : Option (List PolicyBundle)) (ids : List String)
      (answer : Answer ConnectorHeartbeatResponse)
      → is_answered (take_answer libraries around c old ids answer).2 ≡ false
      → (take_answer libraries around c old ids answer).0.gateway_end_queue.reports
        ≡ c.gateway_end_queue.reports
  unanswered_reports around c old ids (answered response) a =
      let (after, result) = apply_response libraries around c ids response in
      absurd (cc (a, finish-is_answered around after old response result))
  unanswered_reports around c old ids (refused r) a = refl
  unanswered_reports around c old ids (list_failed e) a = refl
  unanswered_reports around c old ids lists_none a = refl
  unanswered_reports around c old ids (none_answered failures) a = refl

  pub answered_by :
      (around : Surroundings libraries.serde.Bytes) (c : Connector libraries)
      (old : Option (List PolicyBundle)) (ids : List String)
      (answer : Answer ConnectorHeartbeatResponse)
      → is_answered (take_answer libraries around c old ids answer).2 ≡ true
      → (response : ConnectorHeartbeatResponse) × (answer ≡ answered response)
  answered_by around c old ids (answered response) a = (response, refl)
  answered_by around c old ids (refused r) a = absurd (cc a)
  answered_by around c old ids (list_failed e) a = absurd (cc a)
  answered_by around c old ids lists_none a = absurd (cc a)
  answered_by around c old ids (none_answered failures) a = absurd (cc a)
