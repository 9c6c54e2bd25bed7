-- ===== src/Storage/Migration/Kept.antt =====
-- What the conversion of
-- src/storage/migrations/versions/0002_local_millisecond_timestamps.py has to keep of each row, and the
-- references to rows that are not there.
use sensorctl.Prelude.{
  ℕ, suc, ◌*◌, ◌≤◌, ◌<◌, ◌≡◌, String, Bool, true, false, ◌||◌, ◌==◌, Option, none, some, List, [],
  ◌∷◌, ◌++◌, any, apart, map, if◌then◌else◌,
}
use sensorctl.Storage.Samples.{SampleRow, MeasurementRow}
use sensorctl.Storage.Sensors.{InstanceRow, FieldRow}
use sensorctl.Storage.Migration.Legacy.{
  LegacyInstance, LegacySample, LegacyRows, CurrentRows, instance_clash, field_clash,
  measurement_clash, field_key, measurement_key,
}

abbrev pub is_null : Option String → Bool
is_null none = true
is_null (some text) = false

-- The ids of no parent, in order: what `PRAGMA foreign_key_check` finds of one reference.
abbrev without_parent : List ℕ → List ℕ → List ℕ
without_parent parents [] = []
without_parent parents (id ∷ ids) =
    let rest = without_parent parents ids in
    if any (λ parent. parent == id) parents then rest else id ∷ rest

-- All of them, given the ids of the instances, fields and samples and the references to them.
abbrev violations : List ℕ → List ℕ → List ℕ → List ℕ → List ℕ → List ℕ → List ℕ → List ℕ
violations instances fields samples of_fields of_samples to_samples to_fields =
    without_parent instances of_fields
    ++ (without_parent instances of_samples
        ++ (without_parent samples to_samples ++ without_parent fields to_fields))

abbrev pub legacy_violations : LegacyRows → List ℕ
legacy_violations old =
    violations (map (λ (x : LegacyInstance). x.id) old.instances)
      (map (λ (x : FieldRow). x.id) old.fields) (map (λ (x : LegacySample). x.id) old.samples)
      (map (λ (x : FieldRow). x.sensor_instance_id) old.fields)
      (map (λ (x : LegacySample). x.sensor_instance_id) old.samples)
      (map (λ (x : MeasurementRow). x.sample_id) old.measurements)
      (map (λ (x : MeasurementRow). x.field_id) old.measurements)

abbrev pub current_violations : CurrentRows → List ℕ
current_violations rows =
    violations (map (λ (x : InstanceRow). x.id) rows.instances)
      (map (λ (x : FieldRow). x.id) rows.fields) (map (λ (x : SampleRow). x.id) rows.samples)
      (map (λ (x : FieldRow). x.sensor_instance_id) rows.fields)
      (map (λ (x : SampleRow). x.sensor_instance_id) rows.samples)
      (map (λ (x : MeasurementRow). x.sample_id) rows.measurements)
      (map (λ (x : MeasurementRow). x.field_id) rows.measurements)

-- The unique constraints hold of the legacy tables.
pub record HasKeys (old : LegacyRows) : Type 0 where
  pub instances :
      apart instance_clash []
        (map (λ (x : LegacyInstance). (x.id, x.logical_id, x.config_fingerprint)) old.instances)
      ≡ true
  pub fields : apart field_clash [] (map field_key old.fields) ≡ true
  pub samples : apart ◌==◌ [] (map (λ (x : LegacySample). x.id) old.samples) ≡ true
  pub measurements : apart measurement_clash [] (map measurement_key old.measurements) ≡ true

module _ (strftime : ℕ → Option String) where
  pub record InstanceKept (x : LegacyInstance) (row : InstanceRow) : Type 0 where
    pub id : row.id ≡ x.id
    pub logical_id : row.logical_id ≡ x.logical_id
    pub driver : row.driver ≡ x.driver
    pub bus_id : row.bus_id ≡ x.bus_id
    pub location : row.location ≡ x.location
    pub config_fingerprint : row.config_fingerprint ≡ x.config_fingerprint
    pub created_at : strftime x.created_at_ns ≡ some row.created_at

  -- The time on the monotonic clock in whole milliseconds.
  pub record SampleKept (x : LegacySample) (row : SampleRow) : Type 0 where
    pub id : row.id ≡ x.id
    pub sensor_instance_id : row.sensor_instance_id ≡ x.sensor_instance_id
    pub time : strftime x.wall_time_ns ≡ some row.time
    pub not_later : row.monotonic_ms * 1000000 ≤ x.monotonic_ns
    pub not_earlier : x.monotonic_ns < suc row.monotonic_ms * 1000000
    pub boot_id : row.boot_id ≡ x.boot_id

  abbrev pub untold_instance : LegacyInstance → Bool
  untold_instance x = is_null (strftime x.created_at_ns)

  abbrev pub untold_sample : LegacySample → Bool
  untold_sample x = is_null (strftime x.wall_time_ns)

  -- Some time of the legacy tables has no text.
  abbrev pub has_untold : LegacyRows → Bool
  has_untold old = any untold_instance old.instances || any untold_sample old.samples
