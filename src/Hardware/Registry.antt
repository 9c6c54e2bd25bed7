-- ===== src/Hardware/Registry.antt =====
-- src/hw/drivers/registry.py: the drivers of the enabled sensors. A factory is the constructor of a
-- driver class.
pub mod Unique
pub mod Refusals
pub mod Prepared
use sensorctl.Prelude.{
  ℕ, suc, String, Bool, true, false, not, ◌||◌, List, [], ◌∷◌, map, ◌++◌, ◌==◌, length, any,
  is_empty, is_blank, if◌then◌else◌, ◌<>◌, Result, ok, require, forbid, or_raise, config_error,
  key_error, ◌>>=◌, ◌>>◌,
}
use sensorctl.Prelude.Dict.{Dict, lookup, insert, mem}
use sensorctl.Model.{FieldDefinition}
use sensorctl.Config.Bus.{BusConfig, bus_type_text}
use sensorctl.Config.Sensor.{SensorConfig}
use sensorctl.Config.Load.{AppConfig}
use sensorctl.Hardware.Driver.{SensorDriver}

-- `len(set(names))`
unfoldable pub set_size : List String → ℕ
set_size [] = 0
set_size (name ∷ names) = let rest = set_size names in if mem name names then rest else suc rest

abbrev pub names_of : List FieldDefinition → List String
names_of = map (λ (definition : FieldDefinition). definition.name)

-- `not definition.name or not definition.unit`
abbrev pub is_unnamed : FieldDefinition → Bool
is_unnamed definition = is_blank definition.name || is_blank definition.unit

module _ (W : Type 0) where
  abbrev pub Factories : Type 0
  Factories = Dict (SensorConfig → Result (SensorDriver W))

  pub record PreparedDrivers : Type 0 where
    pub sensors : List SensorConfig
    pub by_sensor_id : Dict (SensorDriver W)

  unfoldable pub create : Factories → SensorConfig → Result (SensorDriver W)
  create factories sensor = do
    factory ←
        or_raise (lookup sensor.driver factories) config_error ("unknown driver: " <> sensor.driver)
    factory sensor

  -- The tests on a driver that is there.
  unfoldable pub check_driver : SensorConfig → BusConfig → SensorDriver W → Result (Unit {0})
  check_driver sensor bus driver = do
    require (mem (bus_type_text bus.bus_type) driver.supported_bus_types) config_error (
        "driver "
        <> (sensor.driver <> (" does not support " <> (bus_type_text bus.bus_type <> " bus"))))
    forbid
        (is_empty (names_of driver.fields)
          || not (length (names_of driver.fields) == set_size (names_of driver.fields)))
        config_error ("driver " <> (sensor.driver <> " has invalid fields"))
    forbid (any is_unnamed driver.fields) config_error
        ("driver " <> (sensor.driver <> " has invalid field metadata"))

  -- One pass of the loop, up to the appends.
  unfoldable pub make_driver : Factories → Dict BusConfig → SensorConfig → Result (SensorDriver W)
  make_driver factories buses sensor = do
    driver ← create factories sensor
    bus ← or_raise (lookup sensor.bus buses) key_error sensor.bus
    check_driver sensor bus driver
    ok driver

  abbrev pub keep : SensorConfig → SensorDriver W → PreparedDrivers → PreparedDrivers
  keep sensor driver p =
      if sensor.enabled
      then (record {
        sensors = p.sensors ++ sensor ∷ [];
        by_sensor_id = insert sensor.id driver p.by_sensor_id;
      })
      else p

  unfoldable pub prepare_all :
      Factories → Dict BusConfig → List SensorConfig → PreparedDrivers → Result PreparedDrivers
  prepare_all factories buses [] p = ok p
  prepare_all factories buses (sensor ∷ sensors) p = do
    driver ← make_driver factories buses sensor
    prepare_all factories buses sensors (keep sensor driver p)

  unfoldable pub prepare : Factories → AppConfig → Result PreparedDrivers
  unfolding prepare_all
  prepare factories config =
      prepare_all factories config.buses config.sensors (record { sensors = []; by_sensor_id = [] })
