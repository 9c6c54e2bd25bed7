-- ===== src/Storage/Samples.antt =====
-- src/storage/repositories/samples.py and `write_samples` of src/storage/database.py, on the two tables
-- of samples. Before each statement the database may refuse it with an exception, and so the commit:
-- what it refuses is a parameter. The rows that foreign keys refer to are never removed.
pub mod Rows
pub mod Written
use sensorctl.Prelude.{
  ℕ, suc, ◌+◌, String, Bool, true, false, ◌&&◌, Option, none, some, List, [], ◌∷◌, ◌++◌, any, ◌==◌,
  if◌then◌else◌, Exception, Result, ok, err, raise, or_raise, key_error, integrity_error,
  ◌>>=◌ as ◌>>>=◌,
}
use sensorctl.Prelude.Dict.{Dict, lookup}
use sensorctl.Prelude.Exec.{Exec, pure, lift, ◌>>=◌, ◌>>◌}
use sensorctl.Model.{Float, Sample, StoredSensor}

pub record SampleRow : Type 0 where
  pub id : ℕ
  pub sensor_instance_id : ℕ
  pub time : String
  pub monotonic_ms : ℕ
  pub boot_id : String

pub record MeasurementRow : Type 0 where
  pub sample_id : ℕ
  pub field_id : ℕ
  pub value : Float

-- `last_id` is the largest id that a sample has had.
pub record Tables : Type 0 where
  pub samples : List SampleRow
  pub measurements : List MeasurementRow
  pub last_id : ℕ

-- `[(sensor.fields[name], value) for name, value in sample.values.items()]`
unfoldable pub field_values : Dict ℕ → Dict Float → Result (List (ℕ × Float))
field_values fields [] = ok []
field_values fields ((name, value) ∷ values) =
    or_raise (lookup name fields) key_error name >>>= λ field_id.
    field_values fields values >>>= λ rest. ok ((field_id, value) ∷ rest)

-- The row has the key already.
abbrev pub has_key : ℕ → ℕ → List MeasurementRow → Bool
has_key sample_id field_id =
    any (λ (m : MeasurementRow). (m.sample_id == sample_id) && (m.field_id == field_id))

abbrev pub sample_row : ℕ → StoredSensor → Sample → SampleRow
sample_row id sensor sample = record {
  id = id;
  sensor_instance_id = sensor.instance_id;
  time = sample.time;
  monotonic_ms = sample.monotonic_ms;
  boot_id = sample.boot_id;
}

abbrev pub measurement_row : ℕ → ℕ × Float → MeasurementRow
measurement_row sample_id p = record { sample_id = sample_id; field_id = p.0; value = p.1 }

module _ (refuses : Tables → Option Exception) where
  -- A statement that the database may refuse.
  abbrev pub or_refuse {ℓ} : {A : Type ℓ} → Option Exception → Exec Tables A → Exec Tables A
  or_refuse none m t = m t
  or_refuse (some e) m t = (err e, t)

  abbrev pub execute {ℓ} : {A : Type ℓ} → Exec Tables A → Exec Tables A
  execute m t = or_refuse (refuses t) m t

  unfoldable pub insert_sample : StoredSensor → Sample → Exec Tables ℕ
  insert_sample sensor sample = execute λ t. pure (suc t.last_id) (record t {
    samples = t.samples ++ sample_row (suc t.last_id) sensor sample ∷ [];
    last_id = suc t.last_id;
  })

  unfoldable pub insert_measurement : ℕ → ℕ × Float → Exec Tables (Unit {0})
  insert_measurement sample_id p = execute λ t.
      if has_key sample_id p.0 t.measurements
      then (raise integrity_error "UNIQUE constraint failed", t)
      else pure tt (record t { measurements = t.measurements ++ measurement_row sample_id p ∷ [] })

  unfoldable pub insert_measurements : ℕ → List (ℕ × Float) → Exec Tables (Unit {0})
  insert_measurements sample_id [] = pure tt
  insert_measurements sample_id (p ∷ ps) =
      let rest = insert_measurements sample_id ps in insert_measurement sample_id p >> rest

  unfoldable pub write_sample : Dict StoredSensor → Sample → Exec Tables (Unit {0})
  write_sample stored sample = do
    sensor ← lift (or_raise (lookup sample.sensor_id stored) key_error sample.sensor_id)
    sample_id ← insert_sample sensor sample
    rows ← lift (field_values sensor.fields sample.values)
    insert_measurements sample_id rows

  -- `write_samples` of the repository.
  unfoldable pub write_rows : Dict StoredSensor → List Sample → Exec Tables (Unit {0})
  write_rows stored [] = pure tt
  write_rows stored (sample ∷ samples) =
      let rest = write_rows stored samples in write_sample stored sample >> rest

  -- The commit, which takes everything back if it is refused.
  abbrev pub commit : Tables → Tables → Option Exception → Result (Unit {0}) × Tables
  commit before t none = (ok tt, t)
  commit before t (some e) = (err e, before)

  -- `with connection:` commits what the body did, or takes all of it back.
  abbrev pub end_transaction : Tables → Result (Unit {0}) × Tables → Result (Unit {0}) × Tables
  end_transaction before (err e, t) = (err e, before)
  end_transaction before (ok u, t) = commit before t (refuses t)

  -- `Database.write_samples`, while the database is open.
  unfoldable pub write_samples : Dict StoredSensor → List Sample → Exec Tables (Unit {0})
  unfolding write_rows
  write_samples stored samples t = end_transaction t (write_rows stored samples t)
