-- ===== src/Storage/Storable.antt =====
-- What the workers of src/runtime/worker.py submit can be written by src/storage: no sensor or field is
-- missing in what was registered.
use sensorctl.Prelude.{
  ℕ, ◌≡◌, refl, ap, sym, subst, arith, String, Bool, true, some, List, [], ◌∷◌, all, if-cases, All,
  Bool-cases, inl, inr, str_eq, eq_iff, ok,
}
use sensorctl.Prelude.Dict.{Dict, lookup, keys, mem, Listed}
use sensorctl.Model.{Float, FieldDefinition, StoredSensor}
use sensorctl.Config.Sensor.{SensorConfig}
use sensorctl.Config.Load.{AppConfig, Source, load_config}
use sensorctl.Config.Paths.{FilePath}
use sensorctl.Hardware.Driver.{SensorDriver}
use sensorctl.Hardware.Registry.{Factories, PreparedDrivers, prepare}
use sensorctl.Hardware.Registry.Prepared.{enabled_of, prepared_lem}
use sensorctl.Runtime.Worker.{check_values, field_names, same_set}
use sensorctl.Collector.Start.{fields_by_sensor}
use sensorctl.Storage.Samples.{field_values}
use sensorctl.Storage.Sensors.{SensorTables, Registry, register_sensors}
use sensorctl.Storage.Sensors.History.{History, History-AreComplete}
use sensorctl.Storage.Sensors.Fields.{HasIds}
use sensorctl.Storage.Sensors.Complete.{Agrees, register_sensors-AllStored}

mem-HasIds :
    (k : String) (ds : List FieldDefinition) (ids : Dict ℕ)
    → mem k (field_names ds) ≡ true
    → HasIds ds ids
    → Listed k ids
unfolding mem
mem-HasIds k [] ids m h = cc
mem-HasIds k (d ∷ ds) ids m h = elim (Bool-cases (str_eq d.name k)) [
  | inl here ↦ subst (λ j. Listed j ids) ((eq_iff d.name k).0 here) h.0
  | inr other ↦ mem-HasIds k ds ids (ground (arith, m, other)) h.1
]

-- Values under names that all have an id get their rows.
field_values_found :
    (ids : Dict ℕ) (values : Dict Float) (ds : List FieldDefinition)
    → all (λ k. mem k (field_names ds)) (keys values) ≡ true
    → HasIds ds ids
    → (rows : List (ℕ × Float)) × (field_values ids values ≡ ok rows)
unfolding field_values
field_values_found ids [] ds m h = ([], refl)
field_values_found ids ((k, v) ∷ values) ds m h =
    let (id, found) = mem-HasIds k ds ids (ground (arith, m)) h in
    let (rows, e) = field_values_found ids values ds (ground (arith, m)) h in
    ((id, v) ∷ rows, rw (found, e) refl)

checked_names :
    (ds : List FieldDefinition) (values : Dict Float)
    → check_values ds values ≡ ok tt
    → all (λ k. mem k (field_names ds)) (keys values) ≡ true
unfolding check_values
checked_names ds values h = elim (Bool-cases (same_set (keys values) (field_names ds))) [
  | inl same ↦ ground (arith, same)
  | inr other ↦ cc (h, other)
]

lookup-fields_by_sensor :
    {W : Type 0} (k : String) (d : Dict (SensorDriver W)) (driver : SensorDriver W)
    → lookup k d ≡ some driver
    → lookup k (fields_by_sensor d) ≡ some driver.fields
unfolding lookup fields_by_sensor
lookup-fields_by_sensor k [] driver h = cc
lookup-fields_by_sensor k ((j, e) ∷ d) driver h = elim (Bool-cases (str_eq j k)) [
  | inl same ↦
      let here : e ≡ driver = ground (arith, h, same) in
      rw same (ap (λ (x : SensorDriver _). some x.fields) here)
  | inr other ↦ rw other (lookup-fields_by_sensor k d driver (ground (arith, h, other)))
]

enabled_only :
    (P : SensorConfig → Type 0) (sensors : List SensorConfig)
    → All (λ (x : SensorConfig). x.enabled ≡ true → P x) sensors
    → All P (enabled_of sensors)
enabled_only P [] h = tt
enabled_only P (x ∷ sensors) h =
    if-cases (All P) x.enabled (x ∷ enabled_of sensors) (enabled_of sensors)
      (λ on. (h.0 on, enabled_only P sensors h.1)) (λ _. enabled_only P sensors h.1)

both_hold :
    (P Q R : SensorConfig → Type 0) (xs : List SensorConfig)
    → ((x : SensorConfig) → P x → Q x → R x)
    → All P xs
    → All Q xs
    → All R xs
both_hold P Q R [] f h k = tt
both_hold P Q R (x ∷ xs) f h k = (f x h.0 k.0, both_hold P Q R xs f h.1 k.1)

-- Values of the sensor that passed the worker's tests are all under fields that were stored for it.
pub record Storable {W : Type 0} (prepared : PreparedDrivers W) (stored : Dict StoredSensor)
    (x : SensorConfig) : Type 0 where
  pub driver : SensorDriver W
  pub prepared_for : lookup x.id prepared.by_sensor_id ≡ some driver
  pub sensor : StoredSensor
  pub found : lookup x.id stored ≡ some sensor
  pub writes :
      (values : Dict Float)
      → check_values driver.fields values ≡ ok tt
      → (rows : List (ℕ × Float)) × (field_values sensor.fields values ≡ ok rows)

-- Values that passed the worker's tests on what a driver read never miss their sensor or their field
-- when they are written: for each enabled sensor of a loaded configuration, its driver was prepared,
-- the sensor is in what the registration returned, and the field of every such value has an id there.
-- All rows of the tables come from earlier registrations, with any configurations. In those and in
-- this one the fields of a sensor's driver are those that belong to the sensor's fingerprint.
pub registered-Storable :
    (W : Type 0) (factories : Factories W) (c : ℕ → Bool) (path : FilePath) (source : Source)
    (config : AppConfig) (prepared : PreparedDrivers W) (g : Registry)
    (fields_of : String → List FieldDefinition) (t u : SensorTables) (stored : Dict StoredSensor)
    → load_config c path source ≡ ok config
    → prepare W factories config ≡ ok prepared
    → History fields_of t
    → All (Agrees g config.buses (fields_by_sensor prepared.by_sensor_id) fields_of) config.sensors
    → register_sensors g config (fields_by_sensor prepared.by_sensor_id) t ≡ (ok stored, u)
    → All (Storable prepared stored) prepared.sensors
registered-Storable W factories c path source config prepared g fields_of t u stored loads prepares
      history agree done =
    let fit = prepared_lem W factories c path source config prepared loads prepares in
    let fields = fields_by_sensor prepared.by_sensor_id in
    let (numbered, complete) = History-AreComplete fields_of t history in
    let all_stored =
      (register_sensors-AllStored g config fields fields_of t u stored numbered complete agree
        done).0 in
    subst (All (Storable prepared stored)) (sym fit.sensors) (
      both_hold _ (λ x. Listed x.id stored) (Storable prepared stored) (enabled_of config.sensors)
        (λ x (driver, prepared_for, _) (sensor, found). record {
          driver = driver;
          prepared_for = prepared_for;
          sensor = sensor;
          found = found;
          writes = λ values passed.
              field_values_found sensor.fields values driver.fields
                (checked_names driver.fields values passed)
                (all_stored.whole x.id sensor found driver.fields
                  (lookup-fields_by_sensor x.id prepared.by_sensor_id driver prepared_for));
        })
        fit.drivers (enabled_only (λ x. Listed x.id stored) config.sensors all_stored.listed))
