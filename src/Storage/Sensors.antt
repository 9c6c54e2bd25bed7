-- ===== src/Storage/Sensors.antt =====
-- src/storage/repositories/sensors.py and `register_sensors` of src/storage/database.py, on the tables
-- of instances and fields. The database may refuse a statement or the commit. The digest of the
-- configuration, a SHA-256 of its JSON text, and the clock are parameters.
pub mod Extends
pub mod Same
pub mod Fields
pub mod Complete
pub mod History
pub mod Again
use sensorctl.Prelude.{
  ℕ, suc, String, Bool, true, false, ◌&&◌, Option, none, some, List, [], ◌∷◌, ◌++◌, any, ◌==◌,
  str_eq, if◌then◌else◌, Exception, Result, ok, err, raise, or_raise, key_error, integrity_error,
}
use sensorctl.Prelude.{◌>>=◌ as ◌>>>=◌}
use sensorctl.Prelude.Dict.{Dict, lookup, insert}
use sensorctl.Prelude.Exec.{Exec, pure, lift, ◌>>=◌, ◌>>◌}
use sensorctl.Model.{FieldDefinition, StoredSensor}
use sensorctl.Config.Toml.{Value}
use sensorctl.Config.Bus.{BusConfig, bus_type_text, fingerprint_values}
use sensorctl.Config.Sensor.{SensorConfig}
use sensorctl.Config.Load.{AppConfig}

pub record InstanceRow : Type 0 where
  pub id : ℕ
  pub logical_id : String
  pub driver : String
  pub bus_id : String
  pub location : String
  pub config_fingerprint : String
  pub created_at : String

pub record FieldRow : Type 0 where
  pub id : ℕ
  pub sensor_instance_id : ℕ
  pub name : String
  pub unit : String

-- The last ids are the largest that the rows have had.
pub record SensorTables : Type 0 where
  pub instances : List InstanceRow
  pub fields : List FieldRow
  pub last_instance : ℕ
  pub last_field : ℕ

-- What the digest is taken of.
pub record Payload : Type 0 where
  pub address : Option ℕ
  pub bus_id : String
  pub bus_type : String
  pub bus_values : Dict Value
  pub driver : String
  pub location : String
  pub options : Dict Value

abbrev pub payload_of : SensorConfig → BusConfig → Dict Value → Payload
payload_of sensor bus values = record {
  address = sensor.address;
  bus_id = sensor.bus;
  bus_type = bus_type_text bus.bus_type;
  bus_values = values;
  driver = sensor.driver;
  location = sensor.location;
  options = sensor.options;
}

abbrev pub has_identity : String → String → InstanceRow → Bool
has_identity logical_id fingerprint r =
    str_eq r.logical_id logical_id && str_eq r.config_fingerprint fingerprint

-- `SELECT id FROM sensor_instance WHERE logical_id = ? AND config_fingerprint = ?`
unfoldable pub find_instance : String → String → List InstanceRow → Option ℕ
find_instance logical_id fingerprint [] = none
find_instance logical_id fingerprint (r ∷ rows) =
    if has_identity logical_id fingerprint r
    then some r.id
    else find_instance logical_id fingerprint rows

-- `{name: id}` of the rows that `SELECT id, name FROM field WHERE sensor_instance_id = ?` gives.
unfoldable pub field_ids : ℕ → List FieldRow → Dict ℕ → Dict ℕ
field_ids instance_id [] d = d
field_ids instance_id (f ∷ rows) d =
    field_ids instance_id rows
      (if f.sensor_instance_id == instance_id then insert f.name f.id d else d)

abbrev pub has_field : ℕ → String → List FieldRow → Bool
has_field instance_id name =
    any (λ (f : FieldRow). (f.sensor_instance_id == instance_id) && str_eq f.name name)

-- The digest, the clock when an instance gets its id, and what the database refuses.
pub record Registry : Type 0 where
  pub digest : Payload → Result String
  pub local_now : ℕ → String
  pub refuses : SensorTables → Option Exception

module _ (g : Registry) where
  -- `_fingerprint`
  unfoldable pub fingerprint : SensorConfig → BusConfig → Result String
  fingerprint sensor bus =
      fingerprint_values bus >>>= λ values. g.digest (payload_of sensor bus values)

  abbrev pub unless {ℓ} :
      {A : Type ℓ} → Option Exception → Exec SensorTables A → Exec SensorTables A
  unless none m t = m t
  unless (some e) m t = (err e, t)

  -- A statement.
  abbrev pub statement {ℓ} : {A : Type ℓ} → Exec SensorTables A → Exec SensorTables A
  statement m t = unless (g.refuses t) m t

  abbrev pub instance_row : ℕ → SensorConfig → String → InstanceRow
  instance_row id sensor fingerprint = record {
    id = id;
    logical_id = sensor.id;
    driver = sensor.driver;
    bus_id = sensor.bus;
    location = sensor.location;
    config_fingerprint = fingerprint;
    created_at = g.local_now id;
  }

  -- The insert is made where no row has the same identity; it gives the new id.
  unfoldable pub insert_instance : SensorConfig → String → Exec SensorTables ℕ
  insert_instance sensor fingerprint = statement λ t.
      if any (has_identity sensor.id fingerprint) t.instances
      then (raise integrity_error "UNIQUE constraint failed", t)
      else pure (suc t.last_instance) (record t {
        instances = t.instances ++ instance_row (suc t.last_instance) sensor fingerprint ∷ [];
        last_instance = suc t.last_instance;
      })

  abbrev pub field_row : ℕ → ℕ → FieldDefinition → FieldRow
  field_row id instance_id definition = record {
    id = id;
    sensor_instance_id = instance_id;
    name = definition.name;
    unit = definition.unit;
  }

  unfoldable pub insert_field : ℕ → FieldDefinition → Exec SensorTables (Unit {0})
  insert_field instance_id definition = statement λ t.
      if has_field instance_id definition.name t.fields
      then (raise integrity_error "UNIQUE constraint failed", t)
      else pure tt (record t {
        fields = t.fields ++ field_row (suc t.last_field) instance_id definition ∷ [];
        last_field = suc t.last_field;
      })

  -- `executemany`
  unfoldable pub insert_fields : ℕ → List FieldDefinition → Exec SensorTables (Unit {0})
  insert_fields instance_id [] = pure tt
  insert_fields instance_id (d ∷ definitions) =
      let rest = insert_fields instance_id definitions in insert_field instance_id d >> rest

  unfoldable pub add_instance :
      Dict (List FieldDefinition) → SensorConfig → String → Exec SensorTables ℕ
  add_instance fields_by_sensor sensor fingerprint = do
    instance_id ← insert_instance sensor fingerprint
    definitions ← lift (or_raise (lookup sensor.id fields_by_sensor) key_error sensor.id)
    insert_fields instance_id definitions
    pure instance_id

  abbrev pub or_add :
      Dict (List FieldDefinition) → SensorConfig → String → Option ℕ → Exec SensorTables ℕ
  or_add fields_by_sensor sensor fingerprint (some instance_id) = pure instance_id
  or_add fields_by_sensor sensor fingerprint none = add_instance fields_by_sensor sensor fingerprint

  -- The two `SELECT` statements.
  abbrev pub select_instance : SensorConfig → String → Exec SensorTables (Option ℕ)
  select_instance sensor fingerprint =
      statement λ t. pure (find_instance sensor.id fingerprint t.instances) t

  abbrev pub select_fields : ℕ → Exec SensorTables StoredSensor
  select_fields instance_id =
      statement λ t.
        pure (record { instance_id = instance_id; fields = field_ids instance_id t.fields [] }) t

  -- The id of a sensor whose fingerprint is known.
  unfoldable pub register_known :
      Dict (List FieldDefinition) → SensorConfig → String → Exec SensorTables StoredSensor
  register_known fields_by_sensor sensor fingerprint = do
    found ← select_instance sensor fingerprint
    instance_id ← or_add fields_by_sensor sensor fingerprint found
    select_fields instance_id

  abbrev pub fingerprint_in : Dict BusConfig → SensorConfig → Result String
  fingerprint_in buses sensor =
      or_raise (lookup sensor.bus buses) key_error sensor.bus >>>= λ bus. fingerprint sensor bus

  -- One pass of the loop.
  unfoldable pub register_one :
      Dict BusConfig → Dict (List FieldDefinition) → SensorConfig → Exec SensorTables StoredSensor
  register_one buses fields_by_sensor sensor = do
    fingerprint ← lift (fingerprint_in buses sensor)
    register_known fields_by_sensor sensor fingerprint

  unfoldable pub register_all :
      Dict BusConfig
      → Dict (List FieldDefinition)
      → List SensorConfig
      → Dict StoredSensor
      → Exec SensorTables (Dict StoredSensor)
  register_all buses fields_by_sensor [] stored = pure stored
  register_all buses fields_by_sensor (sensor ∷ sensors) stored =
      let skipped = register_all buses fields_by_sensor sensors stored in
      let rest = λ (s : StoredSensor).
        register_all buses fields_by_sensor sensors (insert sensor.id s stored) in
      if sensor.enabled then register_one buses fields_by_sensor sensor >>= rest else skipped

  abbrev pub commit_sensors {ℓ} :
      {A : Type ℓ}
      → SensorTables
      → Result A × SensorTables
      → Option Exception
      → Result A × SensorTables
  commit_sensors before (ok a, t) none = (ok a, t)
  commit_sensors before (ok a, t) (some e) = (err e, before)
  commit_sensors before (err e, t) _ = (err e, before)

  -- `Database.register_sensors`: the commit, or everything taken back.
  unfoldable pub register_sensors :
      AppConfig → Dict (List FieldDefinition) → Exec SensorTables (Dict StoredSensor)
  register_sensors config fields_by_sensor t =
      let r = register_all config.buses fields_by_sensor config.sensors [] t in
      commit_sensors t r (g.refuses r.1)
