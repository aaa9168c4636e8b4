-- ===== src/GatewayEnd.antt =====
-- src/gateway_end.rs: the queue of gateway-end reports and the file that keeps it across a restart.
-- `serde_json` is a pair of functions, and what the file system does in one save is an argument.
-- Times are milliseconds since the epoch; a clock that is set back counts as no time passed, which
-- is below the window as the source's negative difference is.
pub mod Delivery
pub mod Waiting
pub mod Durability
use secure_connect_connector.Base.{
  Bool, List, Option, String, [], elem, filter_list, if◌then◌else◌, length, ltb, map, none, not,
  some, string_key, take, unwrap_or, ℕ, ◌*◌, ◌++◌, ◌-◌, ◌>>=◌, ◌∷◌,
}

pub record GatewayEndReport : Type 0 where
  pub report_id : String
  pub gateway_id : String
  pub user_id : String
  pub device_public_key : String
  pub ended_at : ℕ
  pub flows_ended : ℕ

abbrev pub serving_window_ms : ℕ
serving_window_ms = 24 * 60 * 60 * 1000

abbrev pub max_reports_per_heartbeat : ℕ
max_reports_per_heartbeat = 200

-- The queue's file and the temporary file beside it.
pub record Disk (Bytes : Type 0) : Type 0 where
  pub queue_file : Option Bytes
  pub tmp_file : Option Bytes

-- How far the file system gets in one save: a write that fails, or a crash in it, leaves some part
-- of the temporary file.
pub data Saving (Bytes : Type 0) : Type 0 where
  no_directory : Saving Bytes
  torn_write : Option Bytes → Saving Bytes
  not_renamed : Saving Bytes
  renamed : Saving Bytes

-- `serde_json::to_vec` and `serde_json::from_slice` at a list of reports.
pub record Serde : Type 1 where
  pub Bytes : Type 0
  pub to_vec : List GatewayEndReport → Bytes
  pub from_slice : Bytes → Option (List GatewayEndReport)

pub data SaveError : Type 0 where
  create_failed write_failed rename_failed : SaveError

pub data Saved : Type 0 where
  saved : Saved
  not_saved : SaveError → Saved

pub record GatewayEndQueue (Bytes : Type 0) : Type 0 where
  pub disk : Disk Bytes
  pub reports : List GatewayEndReport

unfoldable pub is_served : ℕ → GatewayEndReport → Bool
is_served now_ms report = ltb (now_ms - report.ended_at) serving_window_ms

abbrev pub report_ids : List GatewayEndReport → List String
report_ids reports = map (λ (report : GatewayEndReport). report.report_id) reports

module _ (serde : Serde) where
  unfoldable pub persist :
      Saving serde.Bytes → Disk serde.Bytes → List GatewayEndReport → Disk serde.Bytes × Saved
  persist no_directory disk reports = (disk, not_saved create_failed)
  persist (torn_write part) disk reports = (record disk { tmp_file = part }, not_saved write_failed)
  persist not_renamed disk reports =
      (record disk { tmp_file = some (serde.to_vec reports) }, not_saved rename_failed)
  persist renamed disk reports =
      (record { queue_file = some (serde.to_vec reports); tmp_file = none }, saved)

  -- `load`: a file that is missing, cannot be read or does not parse is an empty queue.
  unfoldable pub load : Bool → Disk serde.Bytes → GatewayEndQueue serde.Bytes
  load readable disk = record {
    disk = disk;
    reports =
        if readable then unwrap_or (disk.queue_file >>= λ bytes. serde.from_slice bytes) [] else [];
  }

  -- The queue with other reports, saved.
  unfoldable pub save :
      Saving serde.Bytes
      → GatewayEndQueue serde.Bytes
      → List GatewayEndReport
      → GatewayEndQueue serde.Bytes × Saved
  unfolding persist
  save saving queue reports =
      let (disk, result) = persist saving queue.disk reports in
      (record { disk = disk; reports = reports }, result)

  -- `pending` saves only where it dropped a report.
  unfoldable pub pending :
      Saving serde.Bytes
      → GatewayEndQueue serde.Bytes
      → ℕ
      → GatewayEndQueue serde.Bytes × List GatewayEndReport
  unfolding save is_served
  pending saving queue now_ms =
      let kept = filter_list (is_served now_ms) queue.reports in
      let dropped = length queue.reports - length kept in
      let queue' =
        if ltb 0 dropped then (save saving queue kept).0 else record queue { reports = kept } in
      (queue', take max_reports_per_heartbeat kept)

  unfoldable pub enqueue :
      (Saving serde.Bytes)
      → GatewayEndQueue serde.Bytes
      → List GatewayEndReport
      → GatewayEndQueue serde.Bytes × Saved
  unfolding save
  enqueue saving queue [] = (queue, saved)
  enqueue saving queue (report ∷ more) = save saving queue (queue.reports ++ report ∷ more)

  unfoldable pub acknowledge :
      Saving serde.Bytes
      → GatewayEndQueue serde.Bytes
      → List String
      → GatewayEndQueue serde.Bytes × Saved
  unfolding save elem
  acknowledge saving queue [] = (queue, saved)
  acknowledge saving queue (id ∷ ids) = save saving queue (
      filter_list (λ (report : GatewayEndReport). not (elem report.report_id (id ∷ ids)))
        queue.reports)
