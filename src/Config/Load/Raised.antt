-- ===== src/Config/Load/Raised.antt =====
-- The collision checks of src/config.py raise nothing but `ConfigError`.
use sensorctl.Prelude.{
  ℕ, refl, String, Bool, true, false, Option, none, some, List, [], ◌∷◌, or_raise,
}
use sensorctl.Prelude.Dict.{Dict, lookup, values, mem}
use sensorctl.Config.Paths.{FilePath}
use sensorctl.Config.Bus.{BusConfig, is_i2c, is_exclusive}
use sensorctl.Config.Sensor.{SensorConfig}
use sensorctl.Config.Collisions.{
  Devices, device_owner, free_device, shared_device, check_bus, check_buses, Seen, nothing_seen,
  address_taken, check_address, free_bus, check_exclusive, check_sensor, check_sensors,
}
use sensorctl.Config.Load.{AppConfig, validate_collisions}
use sensorctl.Config.Load.Rules.{Loads, Loads-or_raise, Any, Loads-bind, Loads-seq, Loads-forbid}

free_device_errors :
    (owner : Option String) (m : String) → Loads (Any {A = Unit {0}}) (free_device owner m)
free_device_errors none m = tt
free_device_errors (some o) m = refl

check_bus_errors :
    (bus : BusConfig) (d : Option FilePath) (devices : Devices)
    → Loads (Any {A = Devices}) (check_bus bus d devices)
unfolding check_bus
check_bus_errors bus none devices = tt
check_bus_errors bus (some d) devices =
    let owner = device_owner bus.bus_type d devices in
    Loads-seq (Any {A = Devices}) (free_device owner _) _ (free_device_errors owner _) tt

check_buses_errors :
    (buses : List BusConfig) (devices : Devices)
    → Loads (Any {A = Unit {0}}) (check_buses buses devices)
unfolding check_buses
check_buses_errors [] devices = tt
check_buses_errors (bus ∷ buses) devices =
    Loads-bind (Any {A = Devices}) (Any {A = Unit {0}}) _ (check_buses buses)
      (check_bus_errors bus (shared_device bus) devices) λ more _. check_buses_errors buses more

check_address_errors :
    (s : SensorConfig) (on_i2c : Bool) (a : Option ℕ) (l : List (String × ℕ))
    → Loads (Any {A = List (String × ℕ)}) (check_address s on_i2c a l)
unfolding check_address
check_address_errors s true none l = refl
check_address_errors s true (some a) l =
    Loads-forbid (Any {A = List (String × ℕ)}) (address_taken s.bus a l) _ _ (λ _. tt)
check_address_errors s false none l = tt
check_address_errors s false (some a) l = refl

free_bus_errors :
    (owner : Option String) (s : SensorConfig) → Loads (Any {A = Unit {0}}) (free_bus owner s)
free_bus_errors none s = tt
free_bus_errors (some o) s = refl

check_exclusive_errors :
    (s : SensorConfig) (exclusive : Bool) (d : Dict String)
    → Loads (Any {A = Dict String}) (check_exclusive s exclusive d)
unfolding check_exclusive
check_exclusive_errors s false d = tt
check_exclusive_errors s true d =
    Loads-seq (Any {A = Dict String}) (free_bus (lookup s.bus d) s) _
      (free_bus_errors (lookup s.bus d) s) tt

check_sensor_errors :
    (buses : Dict BusConfig) (s : SensorConfig) (seen : Seen)
    → Loads (Any {A = Seen}) (check_sensor buses s seen)
unfolding check_sensor
check_sensor_errors buses s seen = Loads-forbid (Any {A = Seen}) (mem s.id seen.ids) _ _ λ _.
    Loads-bind (Any {A = BusConfig}) (Any {A = Seen}) (or_raise (lookup s.bus buses) _ _) _
      (Loads-or_raise (lookup s.bus buses) _)
      λ bus _.
        Loads-bind (Any {A = List (String × ℕ)}) (Any {A = Seen}) _ _
          (check_address_errors s (is_i2c bus.bus_type) s.address seen.i2c_addresses)
          λ l _.
            Loads-bind (Any {A = Dict String}) (Any {A = Seen}) _ _
              (check_exclusive_errors s (is_exclusive bus.bus_type) seen.exclusive_buses) λ d _. tt

check_sensors_errors :
    (buses : Dict BusConfig) (sensors : List SensorConfig) (seen : Seen)
    → Loads (Any {A = Unit {0}}) (check_sensors buses sensors seen)
unfolding check_sensors
check_sensors_errors buses [] seen = tt
check_sensors_errors buses (s ∷ sensors) seen =
    Loads-bind (Any {A = Seen}) (Any {A = Unit {0}}) _ (check_sensors buses sensors)
      (check_sensor_errors buses s seen) λ more _. check_sensors_errors buses sensors more

-- The collision checks raise nothing else.
pub validate_collisions_lem :
    (config : AppConfig) → Loads (Any {A = Unit {0}}) (validate_collisions config)
unfolding validate_collisions
validate_collisions_lem config =
    Loads-seq (Any {A = Unit {0}}) (check_buses (values config.buses) []) _
      (check_buses_errors (values config.buses) [])
      (check_sensors_errors config.buses config.sensors nothing_seen)
