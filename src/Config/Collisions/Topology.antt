-- ===== src/Config/Collisions/Topology.antt =====
-- What `_validate_collisions` of src/config.py means to ask of the buses and sensors, with no
-- reference to how it remembers what it has seen.
use sensorctl.Prelude.{
  ℕ, String, Bool, true, false, not, ◌&&◌, ◌||◌, Option, none, some, List, [], ◌==◌, if◌then◌else◌,
  str_eq, all, apart, ◌≡◌, Result, ok, err,
}
use sensorctl.Prelude.Dict.{Dict, lookup, values}
use sensorctl.Config.Paths.{FilePath}
use sensorctl.Config.Bus.{BusType, BusConfig, bus_type_text, is_i2c, is_exclusive}
use sensorctl.Config.Sensor.{SensorConfig}

-- An SPI or UART bus owns its device.
abbrev pub owns : BusType → FilePath → BusConfig → Bool
owns t path bus = elim bus.device [
  | none ↦ false
  | some q ↦
      is_exclusive bus.bus_type
      && (str_eq (bus_type_text bus.bus_type) (bus_type_text t) && str_eq q path)
]

abbrev pub bus_clash : BusConfig → BusConfig → Bool
bus_clash x y = elim x.device [
  | none ↦ false
  | some path ↦ is_exclusive x.bus_type && owns x.bus_type path y
]

abbrev pub on_type : (BusType → Bool) → Dict BusConfig → String → Bool
on_type p buses name = elim (lookup name buses) [ none ↦ false | some bus ↦ p bus.bus_type ]

abbrev pub at_address : ℕ → Option ℕ → Bool
at_address a none = false
at_address a (some b) = b == a

-- The sensor is at an address of an I2C bus.
abbrev pub takes : Dict BusConfig → String → ℕ → SensorConfig → Bool
takes buses bus address s =
    on_type is_i2c buses s.bus && (str_eq s.bus bus && at_address address s.address)

-- The sensor is on an SPI or UART bus.
abbrev pub holds : Dict BusConfig → String → SensorConfig → Bool
holds buses bus s = on_type is_exclusive buses s.bus && str_eq s.bus bus

abbrev pub same_address : Dict BusConfig → SensorConfig → SensorConfig → Bool
same_address buses s t = elim s.address [
  | none ↦ false
  | some a ↦ on_type is_i2c buses s.bus && takes buses s.bus a t
]

-- Two sensors share their id, their address on an I2C bus, or an SPI or UART bus.
abbrev pub sensor_clash : Dict BusConfig → SensorConfig → SensorConfig → Bool
sensor_clash buses s t =
    str_eq t.id s.id
    || (same_address buses s t || (on_type is_exclusive buses s.bus && holds buses s.bus t))

abbrev pub is_some {ℓ} : {A : Type ℓ} → Option A → Bool
is_some none = false
is_some (some a) = true

-- The sensor's bus exists, and it has an address exactly if that bus is I2C.
abbrev pub placed : Dict BusConfig → SensorConfig → Bool
placed buses s = elim (lookup s.bus buses) [
  | none ↦ false
  | some bus ↦ if is_i2c bus.bus_type then is_some s.address else not (is_some s.address)
]

-- The whole condition.
unfoldable pub is_topology : Dict BusConfig → List SensorConfig → Bool
is_topology buses sensors =
    apart bus_clash [] (values buses)
    && (all (placed buses) sensors && apart (sensor_clash buses) [] sensors)

-- The result is a success exactly if the test holds.
abbrev pub Decides : Bool → Result (Unit {0}) → Type 0
Decides b (ok u) = b ≡ true
Decides b (err e) = b ≡ false
