-- ===== src/Tests/Sensors.antt =====
-- src/storage/repositories/sensors.py on two sensors of one bus.
use sensorctl.Prelude.{◌≡◌, refl, none, List, [], ◌∷◌, ok}
use sensorctl.Prelude.Dict.{Dict, lookup, insert}
use sensorctl.Model.{FieldDefinition, StoredSensor}
use sensorctl.Config.Bus.{fingerprint_values, require_device}
use sensorctl.Storage.Sensors.{
  SensorTables, Registry, find_instance, field_ids, fingerprint, insert_instance, insert_field,
  insert_fields, add_instance, register_known, register_one, register_all, register_sensors,
}
use sensorctl.Storage.Sensors.Extends.{IsNumbered}
use sensorctl.Storage.Sensors.Again.{
  RegisterEnd, register_sensors-again, register_sensors-RegisterEnd,
}
use sensorctl.Tests.Config.{loaded}

abbrev pub registry : Registry
registry = record {
  digest = λ p. ok p.bus_type;
  local_now = λ id. "2026-01-01 00:00:00.000";
  refuses = λ t. none;
}

abbrev fields : Dict (List FieldDefinition)
fields =
    ("a", record { name = "pressure"; unit = "pa" } ∷ [])
    ∷ (
      "b",
      record { name = "pressure"; unit = "pa" }
          ∷ record { name = "temperature"; unit = "deg_c" }
          ∷ [],
    )
    ∷ []

abbrev pub empty : SensorTables
empty = record { instances = []; fields = []; last_instance = 0; last_field = 0 }

pub empty-IsNumbered : IsNumbered empty
empty-IsNumbered = record { instances_old = refl; fields_old = refl }

opened : Unit {0}
unfolding register_sensors register_all register_one register_known add_instance insert_fields
    insert_field insert_instance fingerprint field_ids find_instance lookup insert
    fingerprint_values require_device
opened = tt

abbrev stored : Dict StoredSensor
stored =
    ("a", record { instance_id = 1; fields = ("pressure", 1) ∷ [] })
    ∷ ("b", record { instance_id = 2; fields = ("pressure", 2) ∷ ("temperature", 3) ∷ [] })
    ∷ []

registers : (register_sensors registry loaded fields empty).0 ≡ ok stored
unfolding opened
registers = refl

abbrev registered : SensorTables
registered = (register_sensors registry loaded fields empty).1

first_time : register_sensors registry loaded fields empty ≡ (ok stored, registered)
unfolding opened
first_time = refl

register_sensors-again_example :
    register_sensors registry loaded fields registered ≡ (ok stored, registered)
register_sensors-again_example =
    register_sensors-again registry loaded fields empty registered stored empty-IsNumbered
      first_time refl

register_sensors-RegisterEnd_example :
    RegisterEnd registry loaded fields empty (register_sensors registry loaded fields empty)
register_sensors-RegisterEnd_example =
    register_sensors-RegisterEnd registry loaded fields empty empty-IsNumbered
