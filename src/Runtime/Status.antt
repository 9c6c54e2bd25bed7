-- ===== src/Runtime/Status.antt =====
-- src/runtime/status.py: the counters that every thread updates under one lock. Each method is one
-- atomic step on the record; the wall clock's text is an argument.
pub mod Methods
pub mod Counts
pub mod Backoff
pub mod Pending
use sensorctl.Prelude.{
  ℕ, ◌+◌, ◌-◌, ◌*◌, ◌^◌, min, String, Bool, true, false, ◌&&◌, Option, none, some, List, [], ◌∷◌,
  leb, ltb, if◌then◌else◌, length, is_empty, ◌<>◌, Exception, key_error, type_name, or_raise,
}
use sensorctl.Prelude.Int.{ℤ, sub_ℕ}
use sensorctl.Prelude.Dict.{Dict, lookup, insert}
use sensorctl.Prelude.Exec.{Exec, pure, lift, ◌>>=◌, ◌>>◌}
use sensorctl.Model.{Sample}

pub record SensorStatus : Type 0 where
  pub successful_reads : ℕ
  pub failed_reads : ℕ
  pub missed_deadlines : ℕ
  pub dropped_samples : ℕ
  pub consecutive_failures : ℕ
  pub backoff_until_ms : ℕ
  pub last_read_at : Option String
  pub last_recorded_at : Option String
  pub last_error : Option String
  pub pending : Bool

abbrev pub fresh_status : SensorStatus
fresh_status = record {
  successful_reads = 0;
  failed_reads = 0;
  missed_deadlines = 0;
  dropped_samples = 0;
  consecutive_failures = 0;
  backoff_until_ms = 0;
  last_read_at = none;
  last_recorded_at = none;
  last_error = none;
  pending = false;
}

-- The dict that `shutdown` stores.
pub record ShutdownReport : Type 0 where
  pub complete : Bool
  pub alive_threads : List String
  pub errors : List String
  pub pending_tasks : ℕ
  pub uncommitted_samples : ℤ

pub record RuntimeStats : Type 0 where
  pub sensors : Dict SensorStatus
  pub started_at : String
  pub last_commit_at : Option String
  pub accepted_count : ℕ
  pub committed_count : ℕ
  pub shutdown_report : Option ShutdownReport

-- `{sensor_id: SensorStatus() for sensor_id in sensor_ids}`
unfoldable pub fresh_sensors : List String → Dict SensorStatus → Dict SensorStatus
fresh_sensors [] d = d
fresh_sensors (i ∷ ids) d = fresh_sensors ids (insert i fresh_status d)

unfoldable pub init : List String → String → RuntimeStats
unfolding fresh_sensors
init sensor_ids now = record {
  sensors = fresh_sensors sensor_ids [];
  started_at = now;
  last_commit_at = none;
  accepted_count = 0;
  committed_count = 0;
  shutdown_report = none;
}

unfoldable pub accepted : RuntimeStats → RuntimeStats
accepted s = record s { accepted_count = s.accepted_count + 1 }

-- `sum(s.pending for s in self._sensors.values())`
unfoldable pub pending_count : Dict SensorStatus → ℕ
pending_count [] = 0
pending_count ((_, s) ∷ d) = (if s.pending then 1 else 0) + pending_count d

unfoldable pub shutdown : List String → List String → RuntimeStats → RuntimeStats
shutdown alive errors s = record s {
  shutdown_report = some (record {
    complete = is_empty alive && is_empty errors;
    alive_threads = alive;
    errors = errors;
    pending_tasks = pending_count s.sensors;
    uncommitted_samples = sub_ℕ s.accepted_count s.committed_count;
  });
}

-- `self._sensors[sensor_id]`
abbrev find : String → Exec RuntimeStats SensorStatus
find sensor_id s = lift (or_raise (lookup sensor_id s.sensors) key_error sensor_id) s

-- The mutation of the entry that `find` gave.
abbrev pub store : String → SensorStatus → RuntimeStats → RuntimeStats
store sensor_id status s = record s { sensors = insert sensor_id status s.sensors }

abbrev put : String → SensorStatus → Exec RuntimeStats (Unit {0})
put sensor_id status s = pure tt (store sensor_id status s)

unfoldable pub dispatch : String → Exec RuntimeStats Bool
dispatch sensor_id = do
  status ← find sensor_id
  if status.pending
      then (put sensor_id (record status { missed_deadlines = status.missed_deadlines + 1 })
          >> pure false)
      else (put sensor_id (record status { pending = true }) >> pure true)

unfoldable pub can_run : String → ℕ → Exec RuntimeStats Bool
can_run sensor_id now_ms = do status ← find sensor_id; pure (leb status.backoff_until_ms now_ms)

unfoldable pub success : String → String → Exec RuntimeStats Bool
success sensor_id read_at = do
  status ← find sensor_id
  put sensor_id (record status {
    pending = false;
    successful_reads = status.successful_reads + 1;
    consecutive_failures = 0;
    backoff_until_ms = 0;
    last_read_at = some read_at;
    last_error = none;
  })
  pure (ltb 0 status.consecutive_failures)

-- The seconds to wait after the given number of failures in a row, which is at least 1.
unfoldable pub delay_seconds : ℕ → ℕ
delay_seconds failures = min 60 (2 ^ (failures - 1))

unfoldable pub failure : String → Exception → ℕ → Exec RuntimeStats (Unit {0})
failure sensor_id error now_ms = do
  status ← find sensor_id
  put sensor_id (record status {
    pending = false;
    failed_reads = status.failed_reads + 1;
    consecutive_failures = status.consecutive_failures + 1;
    backoff_until_ms = now_ms + delay_seconds (status.consecutive_failures + 1) * 1000;
    last_error = some (type_name error.kind <> (": " <> error.message));
  })

unfoldable pub dropped : String → Exec RuntimeStats (Unit {0})
dropped sensor_id = do
  status ← find sensor_id
  put sensor_id (record status { dropped_samples = status.dropped_samples + 1 })

unfoldable pub missed : String → ℕ → Exec RuntimeStats (Unit {0})
missed sensor_id count = do
  status ← find sensor_id
  put sensor_id (record status { missed_deadlines = status.missed_deadlines + count })

unfoldable pub record_samples : List Sample → Exec RuntimeStats (Unit {0})
record_samples [] = pure tt
record_samples (sample ∷ samples) =
    let rest = record_samples samples in
    do
      status ← find sample.sensor_id
      put sample.sensor_id (record status { last_recorded_at = some sample.time })
      rest

unfoldable pub committed : List Sample → String → Exec RuntimeStats (Unit {0})
unfolding record_samples
committed samples committed_at s = record_samples samples (record s {
  last_commit_at = some committed_at;
  committed_count = s.committed_count + length samples;
})
