-- ===== src/Storage/Sensors/History.antt =====
-- The tables of src/storage/repositories/sensors.py after any number of registrations.
use sensorctl.Prelude.{◌≡◌, subst, sym, refl, String, List, [], All, ok, none}
use sensorctl.Prelude.Dict.{Dict}
use sensorctl.Model.{FieldDefinition, StoredSensor}
use sensorctl.Config.Load.{AppConfig}
use sensorctl.Storage.Sensors.{SensorTables, Registry, find_instance, register_sensors}
use sensorctl.Storage.Sensors.Extends.{IsNumbered}
use sensorctl.Storage.Sensors.Again.{RegisterEnd, register_sensors-RegisterEnd}
use sensorctl.Storage.Sensors.Complete.{AreComplete, Agrees, register_sensors-AllStored}

module _ (fields_of : String → List FieldDefinition) where
  -- The collector was started on new tables and then any number of times again, each time with its own
  -- configuration. The fields that a driver has for a sensor are always those that belong to the
  -- sensor's fingerprint. A registration that raises leaves the tables, so it is no step.
  pub data History : SensorTables → Type 0 where
    created : (t : SensorTables) → t.instances ≡ [] → t.fields ≡ [] → History t
    registered :
        (g : Registry) (config : AppConfig) (fields_by_sensor : Dict (List FieldDefinition))
        (t u : SensorTables) (stored : Dict StoredSensor)
        → History t
        → All (Agrees g config.buses fields_by_sensor fields_of) config.sensors
        → register_sensors g config fields_by_sensor t ≡ (ok stored, u)
        → History u

  pub History-AreComplete : (t : SensorTables) → History t → IsNumbered t × AreComplete fields_of t
  unfolding find_instance
  History-AreComplete _ (created t none_yet no_field) = (
    record { instances_old = rw none_yet refl; fields_old = rw no_field refl },
    λ k f id found. cc (found, subst (λ l. find_instance k f l ≡ none) (sym none_yet) refl),
  )
  History-AreComplete _ (registered g config fields_by_sensor t u stored before agree done) =
      let (numbered, complete) = History-AreComplete t before in
      (
        (subst (RegisterEnd g config fields_by_sensor t) done
            (register_sensors-RegisterEnd g config fields_by_sensor t numbered)).numbered,
        (register_sensors-AllStored g config fields_by_sensor fields_of t u stored numbered complete
            agree done).1,
      )
