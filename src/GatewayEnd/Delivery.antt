-- ===== src/GatewayEnd/Delivery.antt =====
-- src/gateway_end.rs: what becomes of the queued reports over the heartbeats that carry them.
use secure_connect_connector.GatewayEnd.{
  GatewayEndQueue, GatewayEndReport, Saving, Serde, acknowledge, is_served,
  max_reports_per_heartbeat, pending, report_ids,
}
use secure_connect_connector.Base.{
  Bool, IsDistinct, List, String, [], ap, arith, drop, elem, false, filter_list, length, not, refl,
  string_key, suc, sym, take, true, zero, ℕ, ◌-◌, ◌∙◌, ◌∷◌, ◌≡◌, ◌≤◌,
}

-- What an answered heartbeat does first to the queue: the reports go out, and what went out is
-- acknowledged. New reports are queued after it.
unfoldable pub deliver :
    (serde : Serde)
    → Saving serde.Bytes
    → Saving serde.Bytes
    → ℕ
    → GatewayEndQueue serde.Bytes
    → GatewayEndQueue serde.Bytes
unfolding pending acknowledge
deliver serde saving saving' now_ms queue =
    let (waiting, sent) = pending serde saving queue now_ms in
    (acknowledge serde saving' waiting (report_ids sent)).0

abbrev pub not_in : List String → GatewayEndReport → Bool
not_in ids report = not (elem report.report_id ids)

-- Each report's id is listed.
abbrev pub AllIn : List String → List GatewayEndReport → Type 0
AllIn ids [] = Unit
AllIn ids (report ∷ reports) = (elem report.report_id ids ≡ true) × AllIn ids reports

AllIn-cons :
    (id : String) (ids : List String) (reports : List GatewayEndReport)
    → AllIn ids reports
    → AllIn (id ∷ ids) reports
unfolding elem
AllIn-cons id ids [] h = tt
AllIn-cons id ids (report ∷ reports) h = ground (arith, AllIn-cons id ids reports)

pub AllIn-report_ids : (reports : List GatewayEndReport) → AllIn (report_ids reports) reports
unfolding elem
AllIn-report_ids [] = tt
AllIn-report_ids (report ∷ reports) =
    ground
      (arith, AllIn-cons report.report_id (report_ids reports) reports, AllIn-report_ids reports)

pub length-filter_list-le {ℓ} :
    {A : Type ℓ} (p : A → Bool) (xs : List A) → length (filter_list p xs) ≤ length xs
unfolding filter_list
length-filter_list-le p [] = omega arith
length-filter_list-le p (x ∷ xs) = ground (arith, length-filter_list-le p xs)

pub length-filter_list-take :
    (n : ℕ) (ids : List String) (reports : List GatewayEndReport)
    → AllIn ids (take n reports)
    → length (filter_list (not_in ids) reports) ≤ length reports - n
unfolding filter_list
length-filter_list-take zero ids reports h =
    omega (arith, length-filter_list-le (not_in ids) reports)
length-filter_list-take (suc n) ids [] h = omega arith
length-filter_list-take (suc n) ids (report ∷ reports) h =
    ground (arith, length-filter_list-take n ids reports)

not_in-nil : (reports : List GatewayEndReport) → filter_list (not_in []) reports ≡ reports
unfolding filter_list elem
not_in-nil [] = refl
not_in-nil (report ∷ reports) = ap (λ rs. report ∷ rs) (not_in-nil reports)

-- The queue after an acknowledgement, whatever its save does.
pub acknowledge_reports :
    (serde : Serde) (saving : Saving serde.Bytes) (queue : GatewayEndQueue serde.Bytes)
    (ids : List String)
    → (acknowledge serde saving queue ids).0.reports ≡ filter_list (not_in ids) queue.reports
unfolding acknowledge
acknowledge_reports serde saving queue [] = sym (not_in-nil queue.reports)
acknowledge_reports serde saving queue (id ∷ ids) = refl

pub pending_reports :
    (serde : Serde) (saving : Saving serde.Bytes) (queue : GatewayEndQueue serde.Bytes) (now_ms : ℕ)
    → (pending serde saving queue now_ms).0.reports ≡ filter_list (is_served now_ms) queue.reports
unfolding pending
pending_reports serde saving queue now_ms = ground arith

elem-report_ids-filter_list :
    (id : String) (p : GatewayEndReport → Bool) (reports : List GatewayEndReport)
    → elem id (report_ids reports) ≡ false
    → elem id (report_ids (filter_list p reports)) ≡ false
unfolding filter_list elem
elem-report_ids-filter_list id p [] h = refl
elem-report_ids-filter_list id p (report ∷ reports) h =
    ground (arith, elem-report_ids-filter_list id p reports)

IsDistinct-filter_list :
    (p : GatewayEndReport → Bool) (reports : List GatewayEndReport)
    → IsDistinct (report_ids reports)
    → IsDistinct (report_ids (filter_list p reports))
unfolding filter_list
IsDistinct-filter_list p [] d = tt
IsDistinct-filter_list p (report ∷ reports) d = ground (
  arith,
  elem-report_ids-filter_list report.report_id p reports,
  IsDistinct-filter_list p reports,
)

not_in-cons :
    (id : String) (ids : List String) (reports : List GatewayEndReport)
    → elem id (report_ids reports) ≡ false
    → filter_list (not_in (id ∷ ids)) reports ≡ filter_list (not_in ids) reports
unfolding filter_list elem
not_in-cons id ids [] h = refl
not_in-cons id ids (report ∷ reports) h = ground (arith, not_in-cons id ids reports)

not_in-take :
    (n : ℕ) (reports : List GatewayEndReport)
    → IsDistinct (report_ids reports)
    → filter_list (not_in (report_ids (take n reports))) reports ≡ drop n reports
unfolding filter_list elem
not_in-take zero reports d = not_in-nil reports
not_in-take (suc n) [] d = refl
not_in-take (suc n) (report ∷ reports) d = ground (
  arith,
  not_in-cons report.report_id (report_ids (take n reports)) reports,
  not_in-take n reports,
)

-- Where no two queued reports share an id, a heartbeat sends the oldest 200 of the reports that are
-- within the serving window, in their order, and if it is answered exactly those leave the queue: the
-- others within the window stay, in their order. If it is not answered, all of them stay.
pub deliver_exact :
    (serde : Serde) (saving saving' : Saving serde.Bytes) (now_ms : ℕ)
    (queue : GatewayEndQueue serde.Bytes)
    → IsDistinct (report_ids queue.reports)
    → let served = filter_list (is_served now_ms) queue.reports in
      ((pending serde saving queue now_ms).1 ≡ take max_reports_per_heartbeat served)
      × ((deliver serde saving saving' now_ms queue).reports
          ≡ drop max_reports_per_heartbeat served)
      × ((pending serde saving queue now_ms).0.reports ≡ served)
unfolding deliver
deliver_exact serde saving saving' now_ms queue d =
    let kept = filter_list (is_served now_ms) queue.reports in
    let sent = take max_reports_per_heartbeat kept in
    let left =
      acknowledge_reports serde saving' (pending serde saving queue now_ms).0 (report_ids sent) in
    let exact =
      not_in-take max_reports_per_heartbeat kept (IsDistinct-filter_list _ queue.reports d) in
    (
      refl,
      left ∙ rw (pending_reports serde saving queue now_ms) exact,
      pending_reports serde saving queue now_ms,
    )
