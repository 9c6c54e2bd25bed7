-- ===== src/Storage/Migration/Legacy.antt =====
-- The rows in `upgrade` of src/storage/migrations/versions/0002_local_millisecond_timestamps.py: each
-- `INSERT INTO ... SELECT` takes the rows of a legacy table in order. Times are natural numbers. SQLite's
-- strftime of a time in nanoseconds, in the local time zone, is a parameter: it gives NULL for a time out
-- of its range.
use sensorctl.Prelude.{
  ℕ, ◌/◌, String, Bool, ◌&&◌, ◌||◌, ◌==◌, Option, List, [], ◌∷◌, any, str_eq, Result, ok, forbid,
  or_raise, integrity_error, ◌>>=◌, ◌>>◌,
}
use sensorctl.Storage.Samples.{SampleRow, MeasurementRow}
use sensorctl.Storage.Sensors.{InstanceRow, FieldRow}

pub record LegacyInstance : Type 0 where
  pub id : ℕ
  pub logical_id : String
  pub driver : String
  pub bus_id : String
  pub location : String
  pub config_fingerprint : String
  pub created_at_ns : ℕ

pub record LegacySample : Type 0 where
  pub id : ℕ
  pub sensor_instance_id : ℕ
  pub wall_time_ns : ℕ
  pub monotonic_ns : ℕ
  pub boot_id : String

pub record LegacyRows : Type 0 where
  pub instances : List LegacyInstance
  pub fields : List FieldRow
  pub samples : List LegacySample
  pub measurements : List MeasurementRow

pub record CurrentRows : Type 0 where
  pub instances : List InstanceRow
  pub fields : List FieldRow
  pub samples : List SampleRow
  pub measurements : List MeasurementRow

-- The columns that the unique constraints of a table speak of, and when two rows violate one.
abbrev pub NamedKey : Type 0
NamedKey = ℕ × String × String

abbrev pub instance_clash : NamedKey → NamedKey → Bool
instance_clash (i, id, fingerprint) (j, other, old) =
    (i == j) || (str_eq id other && str_eq fingerprint old)

abbrev pub FieldKey : Type 0
FieldKey = ℕ × ℕ × String

abbrev pub field_clash : FieldKey → FieldKey → Bool
field_clash (i, instance_id, name) (j, other, old) =
    (i == j) || ((instance_id == other) && str_eq name old)

abbrev pub measurement_clash : ℕ × ℕ → ℕ × ℕ → Bool
measurement_clash (sample_id, field_id) (other, old) = (sample_id == other) && (field_id == old)

abbrev pub instance_key : InstanceRow → NamedKey
instance_key r = (r.id, r.logical_id, r.config_fingerprint)

abbrev pub field_key : FieldRow → FieldKey
field_key r = (r.id, r.sensor_instance_id, r.name)

abbrev pub sample_key : SampleRow → ℕ
sample_key r = r.id

abbrev pub measurement_key : MeasurementRow → ℕ × ℕ
measurement_key r = (r.sample_id, r.field_id)

-- `INSERT INTO ... SELECT ... FROM table`: the rows that come in. `keys` are those of the rows before,
-- the latest first.
module _ {A B K : Type 0} (clash : K → K → Bool) (key : B → K) (convert : A → Result B) where
  unfoldable pub insert_rows : List K → List A → Result (List B)
  insert_rows keys [] = ok []
  insert_rows keys (x ∷ xs) = convert x >>= λ row.
      forbid (any (clash (key row)) keys) integrity_error "UNIQUE constraint failed"
      >> (insert_rows (key row ∷ keys) xs >>= λ rows. ok (row ∷ rows))

module _ (strftime : ℕ → Option String) where
  abbrev pub convert_instance : LegacyInstance → Result InstanceRow
  convert_instance x =
      or_raise (strftime x.created_at_ns) integrity_error
        "NOT NULL constraint failed: sensor_instance.created_at"
      >>= λ created_at. ok (record {
        id = x.id;
        logical_id = x.logical_id;
        driver = x.driver;
        bus_id = x.bus_id;
        location = x.location;
        config_fingerprint = x.config_fingerprint;
        created_at = created_at;
      })

  abbrev pub convert_sample : LegacySample → Result SampleRow
  convert_sample x =
      or_raise (strftime x.wall_time_ns) integrity_error "NOT NULL constraint failed: sample.time"
      >>= λ time. ok (record {
        id = x.id;
        sensor_instance_id = x.sensor_instance_id;
        time = time;
        monotonic_ms = x.monotonic_ns / 1000000;
        boot_id = x.boot_id;
      })

  unfoldable pub convert_rows : LegacyRows → Result CurrentRows
  convert_rows old = do
    instances ← insert_rows instance_clash instance_key convert_instance [] old.instances
    fields ← insert_rows field_clash field_key ok [] old.fields
    samples ← insert_rows ◌==◌ sample_key convert_sample [] old.samples
    measurements ← insert_rows measurement_clash measurement_key ok [] old.measurements
    ok (record {
      instances = instances;
      fields = fields;
      samples = samples;
      measurements = measurements;
    })
