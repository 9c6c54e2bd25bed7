-- ===== src/Tests/Storable.antt =====
-- The registration of what src/hw/drivers/registry.py prepared, on empty tables and once more.
use sensorctl.Prelude.{String, List, ◌≡◌, refl, [], ◌∷◌, All, ok}
use sensorctl.Prelude.Dict.{Dict, lookup, insert}
use sensorctl.Model.{FieldDefinition, StoredSensor}
use sensorctl.Config.Bus.{fingerprint_values, require_device}
use sensorctl.Config.Load.{document}
use sensorctl.Collector.Start.{fields_by_sensor}
use sensorctl.Storage.Sensors.{
  SensorTables, find_instance, field_ids, fingerprint, insert_instance, insert_field, insert_fields,
  add_instance, register_known, register_one, register_all, register_sensors,
}
use sensorctl.Storage.Sensors.Complete.{Agrees}
use sensorctl.Storage.Sensors.History.{History, created}
use sensorctl.Storage.Sensors.Again.{register_sensors-again}
use sensorctl.Storage.Storable.{Storable, registered-Storable}
use sensorctl.Tests.Config.{ascii, two_sensors, loaded, load_two}
use sensorctl.Tests.Hardware.{barometer, factories, prepares_both}
use sensorctl.Tests.Sensors.{registry, empty, empty-IsNumbered}
use sensorctl.Tests.Start.{prepared}

opened : Unit {0}
unfolding register_sensors register_all register_one register_known add_instance insert_fields
    insert_field insert_instance fingerprint field_ids find_instance lookup insert
    fingerprint_values require_device fields_by_sensor
opened = tt

abbrev stored : Dict StoredSensor
stored =
    ("a", record { instance_id = 1; fields = ("pressure", 1) ∷ ("temperature", 2) ∷ [] })
    ∷ ("b", record { instance_id = 2; fields = ("pressure", 3) ∷ ("temperature", 4) ∷ [] })
    ∷ []

abbrev registered : SensorTables
registered = (register_sensors registry loaded (fields_by_sensor prepared.by_sensor_id) empty).1

registers :
    register_sensors registry loaded (fields_by_sensor prepared.by_sensor_id) empty
    ≡ (ok stored, registered)
unfolding opened
registers = refl

-- All sensors have the fields of the one driver.
abbrev fields_of : String → List FieldDefinition
fields_of f = barometer.fields

agree :
    All
      (Agrees registry loaded.buses (fields_by_sensor prepared.by_sensor_id) fields_of)
      loaded.sensors
unfolding lookup fields_by_sensor
agree = (λ f ds known found. cc, (λ f ds known found. cc, tt))

history : History fields_of registered
history =
    History.registered registry loaded (fields_by_sensor prepared.by_sensor_id) empty registered
      stored (created empty refl refl) agree registers

again :
    register_sensors registry loaded (fields_by_sensor prepared.by_sensor_id) registered
    ≡ (ok stored, registered)
again =
    register_sensors-again registry loaded (fields_by_sensor prepared.by_sensor_id) empty registered
      stored empty-IsNumbered registers refl

-- The second start, on the rows of the first.
registered-Storable_example : All (Storable prepared stored) prepared.sensors
registered-Storable_example =
    registered-Storable (Unit {0}) factories ascii "c.toml" (document (two_sensors 0x77)) loaded
      prepared registry fields_of registered registered stored load_two prepares_both history agree
      again
