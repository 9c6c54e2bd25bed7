-- ===== src/Config/Collisions.antt =====
-- `_validate_collisions` of src/config.py: two loops with what they have seen.
pub mod Topology
pub mod Buses
pub mod Sensors
pub mod Pairs
use sensorctl.Prelude.{
  ℕ, String, Bool, true, false, ◌&&◌, Option, none, some, List, [], ◌∷◌, ◌==◌, if◌then◌else◌,
  str_eq, ◌<>◌, Result, ok, raise, forbid, config_error, or_raise, ◌>>=◌, ◌>>◌,
}
use sensorctl.Prelude.Dict.{Dict, lookup, insert, mem}
use sensorctl.Config.Paths.{FilePath}
use sensorctl.Config.Bus.{BusType, BusConfig, bus_type_text, is_i2c, is_exclusive}
use sensorctl.Config.Sensor.{SensorConfig}

-- The keys `(bus.type, device)`, with the bus that has each.
abbrev pub Devices : Type 0
Devices = List ((BusType × FilePath) × String)

-- `device_key in devices`, and the bus that is there.
unfoldable pub device_owner : BusType → FilePath → Devices → Option String
device_owner t path [] = none
device_owner t path (((u, q), owner) ∷ rest) =
    if str_eq (bus_type_text u) (bus_type_text t) && str_eq q path
    then some owner
    else device_owner t path rest

abbrev pub free_device : Option String → String → Result (Unit {0})
free_device none message = ok tt
free_device (some owner) message = raise config_error ("buses " <> (owner <> message))

-- The device of a bus, where the loop looks at it.
abbrev pub shared_device : BusConfig → Option FilePath
shared_device bus = if is_exclusive bus.bus_type then bus.device else none

-- One round of the loop over the buses.
unfoldable pub check_bus : BusConfig → Option FilePath → Devices → Result Devices
check_bus bus none devices = ok devices
check_bus bus (some device) devices =
    free_device (device_owner bus.bus_type device devices)
      (" and " <> (bus.id <> (" share " <> (bus_type_text bus.bus_type <> (" device " <> device)))))
    >> ok (((bus.bus_type, device), bus.id) ∷ devices)

unfoldable pub check_buses : List BusConfig → Devices → Result (Unit {0})
unfolding check_bus
check_buses [] devices = ok tt
check_buses (bus ∷ buses) devices =
    let rest = check_buses buses in check_bus bus (shared_device bus) devices >>= rest

-- What the loop over the sensors has seen.
pub record Seen : Type 0 where
  pub ids : List String
  pub i2c_addresses : List (String × ℕ)
  pub exclusive_buses : Dict String

abbrev pub nothing_seen : Seen
nothing_seen = record { ids = []; i2c_addresses = []; exclusive_buses = [] }

-- `address_key in i2c_addresses`
unfoldable pub address_taken : String → ℕ → List (String × ℕ) → Bool
address_taken bus address [] = false
address_taken bus address ((b, a) ∷ rest) =
    if str_eq b bus && a == address then true else address_taken bus address rest

-- The address of a sensor, on a bus that is I2C or not.
unfoldable pub check_address :
    SensorConfig → Bool → Option ℕ → List (String × ℕ) → Result (List (String × ℕ))
check_address sensor true none seen =
    raise config_error ("sensor " <> (sensor.id <> " requires an I2C address"))
check_address sensor true (some address) seen =
    forbid (address_taken sensor.bus address seen) config_error
      ("sensor " <> (sensor.id <> (" has a duplicate I2C address on " <> sensor.bus)))
    >> ok ((sensor.bus, address) ∷ seen)
check_address sensor false none seen = ok seen
check_address sensor false (some address) seen =
    raise config_error ("sensor " <> (sensor.id <> " address is only valid for I2C"))

abbrev pub free_bus : Option String → SensorConfig → Result (Unit {0})
free_bus none sensor = ok tt
free_bus (some owner) sensor =
    raise config_error
      ("sensors " <> (owner <> (" and " <> (sensor.id <> (" share exclusive bus " <> sensor.bus)))))

unfoldable pub check_exclusive : SensorConfig → Bool → Dict String → Result (Dict String)
check_exclusive sensor false seen = ok seen
check_exclusive sensor true seen =
    free_bus (lookup sensor.bus seen) sensor >> ok (insert sensor.bus sensor.id seen)

-- One round of the loop over the sensors.
unfoldable pub check_sensor : Dict BusConfig → SensorConfig → Seen → Result Seen
unfolding check_address check_exclusive
check_sensor buses sensor seen = do
  forbid (mem sensor.id seen.ids) config_error ("duplicate sensor id: " <> sensor.id)
  bus ←
      or_raise (lookup sensor.bus buses) config_error
        ("sensor " <> (sensor.id <> (" references unknown bus " <> sensor.bus)))
  addresses ← check_address sensor (is_i2c bus.bus_type) sensor.address seen.i2c_addresses
  exclusive ← check_exclusive sensor (is_exclusive bus.bus_type) seen.exclusive_buses
  ok (record { ids = sensor.id ∷ seen.ids; i2c_addresses = addresses; exclusive_buses = exclusive })

unfoldable pub check_sensors : Dict BusConfig → List SensorConfig → Seen → Result (Unit {0})
unfolding check_sensor
check_sensors buses [] seen = ok tt
check_sensors buses (sensor ∷ sensors) seen =
    let rest = check_sensors buses sensors in check_sensor buses sensor seen >>= rest
