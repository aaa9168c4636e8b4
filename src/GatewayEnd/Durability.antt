-- ===== src/GatewayEnd/Durability.antt =====
-- src/gateway_end.rs: what a restart finds, as a refinement of two lists: the reports in memory and
-- those of the last save that succeeded.
use secure_connect_connector.GatewayEnd.{
  Disk, GatewayEndQueue, GatewayEndReport, Saving, Serde, acknowledge, enqueue, is_served, load,
  no_directory, not_renamed, pending, renamed, save, torn_write,
}
use secure_connect_connector.GatewayEnd.Delivery.{length-filter_list-le, not_in}
use secure_connect_connector.Base.{
  Bool, List, String, [], arith, false, filter_list, if◌then◌else◌, length, nat_key, refl, some,
  string_key, sym, true, ℕ, ◌++◌, ◌==◌, ◌∷◌, ◌≡◌,
}

pub data Operation (Bytes : Type 0) : Type 0 where
  sends : Saving Bytes → ℕ → Operation Bytes
  enqueues : Saving Bytes → List GatewayEndReport → Operation Bytes
  acknowledges : Saving Bytes → List String → Operation Bytes

unfoldable pub step :
    (serde : Serde)
    → GatewayEndQueue serde.Bytes
    → Operation serde.Bytes
    → GatewayEndQueue serde.Bytes
unfolding pending enqueue acknowledge
step serde queue (sends saving now_ms) = (pending serde saving queue now_ms).0
step serde queue (enqueues saving reports) = (enqueue serde saving queue reports).0
step serde queue (acknowledges saving ids) = (acknowledge serde saving queue ids).0

unfoldable pub run :
    (serde : Serde)
    → GatewayEndQueue serde.Bytes
    → List (Operation serde.Bytes)
    → GatewayEndQueue serde.Bytes
unfolding step
run serde queue [] = queue
run serde queue (operation ∷ operations) = run serde (step serde queue operation) operations

-- The specification's state.
pub record Durable : Type 0 where
  pub current : List GatewayEndReport
  pub stored : List GatewayEndReport

abbrev succeeds : {Bytes : Type 0} → Saving Bytes → Bool
succeeds renamed = true
succeeds no_directory = false
succeeds (torn_write part) = false
succeeds not_renamed = false

-- The reports change in memory; they are stored if their save succeeds.
abbrev put : {Bytes : Type 0} → Saving Bytes → Durable → List GatewayEndReport → Durable
put saving spec reports = record {
  current = reports;
  stored = if succeeds saving then reports else spec.stored;
}

-- What each operation is to do. A call that changes nothing need not save.
unfoldable pub spec_step : {Bytes : Type 0} → Durable → Operation Bytes → Durable
spec_step spec (sends saving now_ms) =
    let served = filter_list (is_served now_ms) spec.current in
    if length served == length spec.current then spec else put saving spec served
spec_step spec (enqueues saving []) = spec
spec_step spec (enqueues saving (report ∷ reports)) =
    put saving spec (spec.current ++ report ∷ reports)
spec_step spec (acknowledges saving []) = spec
spec_step spec (acknowledges saving (id ∷ ids)) =
    put saving spec (filter_list (not_in (id ∷ ids)) spec.current)

unfoldable pub spec_run : {Bytes : Type 0} → Durable → List (Operation Bytes) → Durable
unfolding spec_step
spec_run spec [] = spec
spec_run spec (operation ∷ operations) = spec_run (spec_step spec operation) operations

-- The queue holds the specification's reports, and a restart finds those stored.
abbrev pub Refines : (serde : Serde) → GatewayEndQueue serde.Bytes → Durable → Type 0
Refines serde queue spec =
    (queue.reports ≡ spec.current) × ((load serde true queue.disk).reports ≡ spec.stored)

-- Every list of reports is read back from what it is written as.
abbrev pub ReadsBack : Serde → Type 0
ReadsBack serde =
    (reports : List GatewayEndReport) → serde.from_slice (serde.to_vec reports) ≡ some reports

filter_list-eq_self {ℓ} :
    {A : Type ℓ} (p : A → Bool) (xs : List A)
    → length (filter_list p xs) ≡ length xs
    → filter_list p xs ≡ xs
unfolding filter_list
filter_list-eq_self p [] h = refl
filter_list-eq_self p (x ∷ xs) h =
    ground (arith, filter_list-eq_self p xs, length-filter_list-le p xs)

module _ (serde : Serde) (reads : ReadsBack serde) where
  save-Refines :
      (saving : Saving serde.Bytes) (queue : GatewayEndQueue serde.Bytes) (spec : Durable)
      (reports : List GatewayEndReport)
      → Refines serde queue spec
      → Refines serde (save serde saving queue reports).0 (put saving spec reports)
  unfolding save load
  save-Refines no_directory queue spec reports r = (refl, r.1)
  save-Refines (torn_write part) queue spec reports r = (refl, r.1)
  save-Refines not_renamed queue spec reports r = (refl, r.1)
  save-Refines renamed queue spec reports r = (refl, rw (reads reports))

  pending-Refines :
      (saving : Saving serde.Bytes) (now_ms : ℕ) (queue : GatewayEndQueue serde.Bytes)
      (spec : Durable)
      → Refines serde queue spec
      → Refines serde (pending serde saving queue now_ms).0 (spec_step spec (sends saving now_ms))
  unfolding pending spec_step
  pending-Refines saving now_ms queue spec r =
      let kept = filter_list (is_served now_ms) queue.reports in
      let s = save-Refines saving queue spec kept r in
      ground (
        arith,
        s,
        length-filter_list-le (is_served now_ms) queue.reports,
        filter_list-eq_self (is_served now_ms) queue.reports,
      )

  step-Refines :
      (operation : Operation serde.Bytes) (queue : GatewayEndQueue serde.Bytes) (spec : Durable)
      → Refines serde queue spec
      → Refines serde (step serde queue operation) (spec_step spec operation)
  unfolding step enqueue acknowledge spec_step
  step-Refines (sends saving now_ms) queue spec r = pending-Refines saving now_ms queue spec r
  step-Refines (enqueues saving []) queue spec r = r
  step-Refines (enqueues saving (report ∷ reports)) queue spec r =
      rw (sym (r.0)) (save-Refines saving queue spec (queue.reports ++ report ∷ reports) r)
  step-Refines (acknowledges saving []) queue spec r = r
  step-Refines (acknowledges saving (id ∷ ids)) queue spec r =
      rw (sym (r.0))
        (save-Refines saving queue spec (filter_list (not_in (id ∷ ids)) queue.reports) r)

  run-Refines' :
      (operations : List (Operation serde.Bytes)) (queue : GatewayEndQueue serde.Bytes)
      (spec : Durable)
      → Refines serde queue spec
      → Refines serde (run serde queue operations) (spec_run spec operations)
  unfolding run spec_run
  run-Refines' [] queue spec r = r
  run-Refines' (operation ∷ operations) queue spec r =
      run-Refines' operations (step serde queue operation) (spec_step spec operation)
        (step-Refines operation queue spec r)

  -- Where `serde_json` reads back what it writes: from a start that could read the disk, after any
  -- calls of `pending`, `enqueue` and `acknowledge` with any of their saves failing or torn at any
  -- point, the queue in memory and the queue that a restart would load are the two lists of the
  -- specification, in which every call changes the list in memory and a call whose save is complete
  -- stores that list.
  pub run-load-Refines :
      (disk : Disk serde.Bytes) (operations : List (Operation serde.Bytes))
      → let loaded = (load serde true disk).reports in
        Refines serde
          (run serde (load serde true disk) operations)
          (spec_run (record { current = loaded; stored = loaded }) operations)
  unfolding load
  run-load-Refines disk operations = run-Refines' operations (load serde true disk) _ (refl, refl)
