-- ===== src/Config/Load.antt =====
-- `AppConfig` and `load_config` of src/config.py, from what `tomllib` made of the file.
pub mod Rules
pub mod Valid
pub mod Topology
pub mod Raised
pub mod Checked
pub mod Apart
use sensorctl.Prelude.{
  ℕ, ◌^◌, String, Bool, true, false, Option, none, some, List, [], ◌∷◌, ◌==◌, if◌then◌else◌,
  is_empty, starts_with, ◌<>◌, Result, ok, raise, forbid, require, config_error, Kind, Exception,
  err, os_error, permission_error, timeout_error, toml_decode_error, ◌>>=◌, ◌>>◌,
}
use sensorctl.Prelude.Int.{pos}
use sensorctl.Prelude.Dict.{Dict, lookup, values}
use sensorctl.Model.{finite}
use sensorctl.Config.Toml.{
  Value, bool, int, float, str, array, table, Table, Items, nil, end, entries, elements,
}
use sensorctl.Config.Paths.{FilePath, path_of}
use sensorctl.Config.Fields.{as_table, reject_unknown, get_or_default, integer}
use sensorctl.Config.Bus.{BusConfig, load_bus}
use sensorctl.Config.Sensor.{SensorConfig, load_sensor}
use sensorctl.Config.Collisions.{check_buses, check_sensors, nothing_seen}

pub record CollectorConfig : Type 0 where
  pub queue_size : ℕ
  pub batch_size : ℕ
  pub flush_interval_ms : ℕ
  pub status_interval_ms : ℕ
  pub shutdown_timeout_s : ℕ

pub record DatabaseConfig : Type 0 where
  pub path : FilePath

pub record AppConfig : Type 0 where
  pub version : ℕ
  pub collector : CollectorConfig
  pub database : DatabaseConfig
  pub buses : Dict BusConfig
  pub sensors : List SensorConfig

-- `_TOP_LEVEL`
abbrev pub top_level_keys : List String
top_level_keys = "version" ∷ "collector" ∷ "database" ∷ "buses" ∷ "sensors" ∷ []

-- `_COLLECTOR_KEYS`
abbrev pub collector_keys : List String
collector_keys =
    "queue_size" ∷ "batch_size" ∷ "flush_interval_ms" ∷ "status_interval_ms" ∷ "shutdown_timeout_s"
    ∷ []

-- `_DATABASE_KEYS`
abbrev pub database_keys : List String
database_keys = "path" ∷ []

-- `_load_collector`
unfoldable pub load_collector : Value → Result CollectorConfig
load_collector raw = do
  values ← as_table raw "collector"
  reject_unknown values collector_keys "collector"
  queue_size ← integer values "queue_size" 1000 1 1_000_000
  batch_size ← integer values "batch_size" 100 1 100_000
  flush_interval_ms ← integer values "flush_interval_ms" 1000 10 60_000
  status_interval_ms ← integer values "status_interval_ms" 1000 100 60_000
  shutdown_timeout_s ← integer values "shutdown_timeout_s" 10 1 10
  ok (record {
    queue_size = queue_size;
    batch_size = batch_size;
    flush_interval_ms = flush_interval_ms;
    status_interval_ms = status_interval_ms;
    shutdown_timeout_s = shutdown_timeout_s;
  })

-- `value == 1`: a Boolean and a float may equal the integer.
unfoldable pub equals_one : Option Value → Bool
equals_one (some (int (pos n))) = n == 1
equals_one (some (bool b)) = b
equals_one (some (float (finite (pos m) e))) = m == 2 ^ e
equals_one _ = false

-- The text of the database's path, if it is absolute.
unfoldable pub database_path : Value → Result FilePath
database_path (str s) =
    if starts_with s "/"
    then ok (path_of s)
    else raise config_error "database path must be absolute"
database_path _ = raise config_error "database path must be absolute"

unfoldable pub as_list : Value → Result (List Value)
as_list (array vs) = ok (elements vs)
as_list _ = raise config_error "sensors must be an array of tables"

-- `{name: _load_bus(name, value) for name, value in buses_raw.items()}`
unfoldable pub load_buses : (ℕ → Bool) → Dict Value → Result (Dict BusConfig)
load_buses unicode_digit [] = ok []
load_buses unicode_digit ((name, value) ∷ rest) =
    let others = load_buses unicode_digit rest in
    do bus ← load_bus unicode_digit name value; buses ← others; ok ((name, bus) ∷ buses)

unfoldable pub load_sensors : List Value → Result (List SensorConfig)
load_sensors [] = ok []
load_sensors (value ∷ rest) =
    let others = load_sensors rest in
    do sensor ← load_sensor value; sensors ← others; ok (sensor ∷ sensors)

-- `_validate_collisions`
unfoldable pub validate_collisions : AppConfig → Result (Unit {0})
validate_collisions config =
    check_buses (values config.buses) [] >> check_sensors config.buses config.sensors nothing_seen

-- What `open` and `tomllib.load` made of the file: an exception, or the document.
pub data Source : Type 0 where
  unreadable : Exception → Source
  document : Table → Source

-- `except (OSError, tomllib.TOMLDecodeError)`, with the subclasses of OSError.
abbrev pub is_load_error : Kind → Bool
is_load_error os_error = true
is_load_error permission_error = true
is_load_error timeout_error = true
is_load_error toml_decode_error = true
is_load_error _ = false

unfoldable pub parse_source : FilePath → Source → Result (Dict Value)
parse_source path (unreadable e) =
    if is_load_error e.kind
    then raise config_error ("cannot load " <> (path <> (": " <> e.message)))
    else err e
parse_source path (document t) = ok (entries t)

-- `load_config`
unfoldable pub load_config : (ℕ → Bool) → FilePath → Source → Result AppConfig
load_config unicode_digit path source = do
  raw ← parse_source path source
  reject_unknown raw top_level_keys "top-level"
  require (equals_one (lookup "version" raw)) config_error "version must be 1"
  database ← as_table (get_or_default (lookup "database" raw) (table end)) "database"
  reject_unknown database database_keys "database"
  path_of_database ←
      database_path (get_or_default (lookup "path" database) (str "/var/lib/sensorctl/db"))
  buses_raw ← as_table (get_or_default (lookup "buses" raw) (table end)) "buses"
  buses ← load_buses unicode_digit buses_raw
  sensors_raw ← as_list (get_or_default (lookup "sensors" raw) (array nil))
  collector ← load_collector (get_or_default (lookup "collector" raw) (table end))
  sensors ← load_sensors sensors_raw
  let config : AppConfig = record {
    version = 1;
    collector = collector;
    database = record { path = path_of_database };
    buses = buses;
    sensors = sensors;
  }
  forbid (is_empty config.sensors) config_error "at least one sensor is required"
  validate_collisions config
  ok config
