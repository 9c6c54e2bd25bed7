-- ===== src/Config/Sensor.antt =====
-- The sensors of src/config.py: `SensorConfig` and `_load_sensor`.
use sensorctl.Prelude.{
  ℕ, String, Bool, true, Option, none, some, List, [], ◌∷◌, leb, if◌then◌else◌, Result, ok, raise,
  config_error, ◌>>=◌, ◌>>◌,
}
use sensorctl.Prelude.Int.{pos}
use sensorctl.Prelude.Dict.{Dict, lookup}
use sensorctl.Config.Toml.{Value, bool, int, table, end}
use sensorctl.Config.Fields.{as_table, reject_unknown, get_or_default, integer, string}

pub record SensorConfig : Type 0 where
  pub id : String
  pub driver : String
  pub bus : String
  pub interval_ms : ℕ
  pub location : String
  pub enabled : Bool
  pub address : Option ℕ
  pub options : Dict Value

-- `_SENSOR_KEYS`
abbrev pub sensor_keys : List String
sensor_keys =
    "id" ∷ "driver" ∷ "bus" ∷ "address" ∷ "interval_ms" ∷ "location" ∷ "enabled" ∷ "options" ∷ []

unfoldable pub as_enabled : Value → Result Bool
as_enabled (bool b) = ok b
as_enabled _ = raise config_error "sensor enabled must be a boolean"

unfoldable pub as_address : Option Value → Result (Option ℕ)
as_address none = ok none
as_address (some (int (pos n))) =
    if leb n 0x7f
    then ok (some n)
    else raise config_error "sensor address must be between 0x00 and 0x7f"
as_address (some _) = raise config_error "sensor address must be between 0x00 and 0x7f"

-- `_load_sensor`
unfoldable pub load_sensor : Value → Result SensorConfig
load_sensor raw = do
  values ← as_table raw "sensor"
  reject_unknown values sensor_keys "sensor"
  enabled ← as_enabled (get_or_default (lookup "enabled" values) (bool true))
  address ← as_address (lookup "address" values)
  options ← as_table (get_or_default (lookup "options" values) (table end)) "sensor options"
  id ← string values "id"
  driver ← string values "driver"
  bus ← string values "bus"
  interval_ms ← integer values "interval_ms" 1000 10 86_400_000
  location ← string values "location"
  ok (record {
    id = id;
    driver = driver;
    bus = bus;
    interval_ms = interval_ms;
    location = location;
    enabled = enabled;
    address = address;
    options = options;
  })
