-- ===== src/Config/Bus.antt =====
-- The buses of src/config.py: `BusConfig` and `_load_bus`.
use sensorctl.Prelude.{
  ℕ, String, Bool, true, false, not, ◌||◌, Option, none, some, List, [], ◌∷◌, ◌==◌, if◌then◌else◌,
  length, all, starts_with, remove_prefix, split, is_digits, str_eq, ◌<>◌, Result, ok, raise,
  forbid, require, or_raise, config_error, ◌>>=◌, ◌>>◌,
}
use sensorctl.Prelude.Int.{pos}
use sensorctl.Prelude.Dict.{Dict, lookup}
use sensorctl.Config.Toml.{Value, int, str}
use sensorctl.Config.Paths.{FilePath, path_of, path_name}
use sensorctl.Config.Fields.{as_table, reject_unknown, integer, string}

pub data BusType : Type 0 where
  i2c spi uart mock : BusType

-- The text that stands for the type in the program.
abbrev pub bus_type_text : BusType → String
bus_type_text i2c = "i2c"
bus_type_text spi = "spi"
bus_type_text uart = "uart"
bus_type_text mock = "mock"

-- `bus_type in _BUS_KEYS`, and the cast that follows.
unfoldable pub parse_bus_type : String → Option BusType
parse_bus_type s =
    if str_eq s "i2c"
    then some i2c
    else if str_eq s "spi"
    then some spi
    else if str_eq s "uart"
    then some uart
    else if str_eq s "mock"
    then some mock
    else none

-- `_BUS_KEYS`
abbrev pub bus_keys : BusType → List String
bus_keys i2c = "type" ∷ "device" ∷ "timeout_ms" ∷ "retries" ∷ []
bus_keys spi = "type" ∷ "device" ∷ "mode" ∷ "max_speed_hz" ∷ "timeout_ms" ∷ "retries" ∷ []
bus_keys uart = "type" ∷ "device" ∷ "baud_rate" ∷ "timeout_ms" ∷ "retries" ∷ []
bus_keys mock = "type" ∷ []

abbrev pub is_i2c : BusType → Bool
is_i2c i2c = true
is_i2c _ = false

abbrev pub is_mock : BusType → Bool
is_mock mock = true
is_mock _ = false

-- `bus.type in {"spi", "uart"}`
abbrev pub is_exclusive : BusType → Bool
is_exclusive spi = true
is_exclusive uart = true
is_exclusive _ = false

pub record BusConfig : Type 0 where
  pub id : String
  pub bus_type : BusType
  pub device : Option FilePath
  pub timeout_ms : ℕ
  pub retries : ℕ
  pub mode : ℕ
  pub max_speed_hz : ℕ
  pub baud_rate : ℕ

-- `BusConfig(bus_id, typed_bus)`
abbrev pub bus_with_defaults : String → BusType → BusConfig
bus_with_defaults bus_id bus_type = record {
  id = bus_id;
  bus_type = bus_type;
  device = none;
  timeout_ms = 100;
  retries = 0;
  mode = 0;
  max_speed_hz = 1_000_000;
  baud_rate = 9600;
}

unfoldable pub require_device : BusConfig → Result FilePath
require_device bus =
    or_raise bus.device config_error ("bus " <> (bus.id <> " does not have a device"))

abbrev type_values : BusConfig → BusType → Dict Value
type_values bus spi =
    ("mode", int (pos bus.mode)) ∷ ("max_speed_hz", int (pos bus.max_speed_hz)) ∷ []
type_values bus uart = ("baud_rate", int (pos bus.baud_rate)) ∷ []
type_values bus _ = []

unfoldable pub fingerprint_values : BusConfig → Result (Dict Value)
unfolding require_device
fingerprint_values bus = if is_mock bus.bus_type then ok [] else (do
  device ← require_device bus
  ok (
      ("device", str device)
      ∷ ("timeout_ms", int (pos bus.timeout_ms))
      ∷ ("retries", int (pos bus.retries))
      ∷ type_values bus bus.bus_type))

-- `values.get("type")` when it is the text of a supported type.
unfoldable pub supported_type : String → Option Value → Result BusType
unfolding parse_bus_type
supported_type bus_id (some (str s)) =
    or_raise (parse_bus_type s) config_error ("bus " <> (bus_id <> " has unsupported type"))
supported_type bus_id _ = raise config_error ("bus " <> (bus_id <> " has unsupported type"))

-- The fields that only one type of bus reads.
unfoldable pub bus_mode : Dict Value → BusType → Result ℕ
bus_mode values spi = integer values "mode" 0 0 3
bus_mode values _ = ok 0

unfoldable pub bus_speed : Dict Value → BusType → Result ℕ
bus_speed values spi = integer values "max_speed_hz" 1_000_000 1 125_000_000
bus_speed values _ = ok 1_000_000

unfoldable pub bus_baud_rate : Dict Value → BusType → Result ℕ
bus_baud_rate values uart = integer values "baud_rate" 9600 1 4_000_000
bus_baud_rate values _ = ok 9600

module _ (unicode_digit : ℕ → Bool) where
  -- `spidev<bus>.<device>`
  unfoldable pub spi_name : String → String → Result (Unit {0})
  spi_name bus_id name =
      let parts = split b'.' (remove_prefix name "spidev") in
      let message = "bus " <> (bus_id <> " has an invalid SPI device") in
      do
        forbid (not (starts_with name "spidev") || not (length parts == 2)) config_error message
        require (all (is_digits unicode_digit) parts) config_error message

  unfoldable pub i2c_name : String → String → Result (Unit {0})
  i2c_name bus_id name =
      forbid
        (not (starts_with name "i2c-") || not (is_digits unicode_digit (remove_prefix name "i2c-")))
        config_error ("bus " <> (bus_id <> " has an invalid I2C device"))

  -- The tests on the last part of the device's path.
  unfoldable pub check_device_name : String → BusType → String → Result (Unit {0})
  unfolding spi_name i2c_name
  check_device_name bus_id i2c name = i2c_name bus_id name
  check_device_name bus_id spi name = spi_name bus_id name
  check_device_name bus_id _ name = ok tt

  -- A bus that has a device.
  unfoldable pub load_device_bus : String → BusType → Dict Value → Result BusConfig
  unfolding check_device_name bus_mode bus_speed bus_baud_rate
  load_device_bus bus_id bus_type values = do
    device_value ← string values "device"
    require (starts_with device_value "/dev/") config_error
        ("bus " <> (bus_id <> " device must be under /dev"))
    check_device_name bus_id bus_type (path_name (path_of device_value))
    timeout_ms ← integer values "timeout_ms" 100 1 60_000
    retries ← integer values "retries" 2 0 100
    mode ← bus_mode values bus_type
    max_speed_hz ← bus_speed values bus_type
    baud_rate ← bus_baud_rate values bus_type
    ok (record {
      id = bus_id;
      bus_type = bus_type;
      device = some (path_of device_value);
      timeout_ms = timeout_ms;
      retries = retries;
      mode = mode;
      max_speed_hz = max_speed_hz;
      baud_rate = baud_rate;
    })

  -- `_load_bus`
  unfoldable pub load_bus : String → Value → Result BusConfig
  unfolding supported_type load_device_bus
  load_bus bus_id raw = do
    values ← as_table raw ("bus " <> bus_id)
    bus_type ← supported_type bus_id (lookup "type" values)
    reject_unknown values (bus_keys bus_type) ("bus " <> bus_id)
    if is_mock bus_type
        then ok (bus_with_defaults bus_id bus_type)
        else load_device_bus bus_id bus_type values
