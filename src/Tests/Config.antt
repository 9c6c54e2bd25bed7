-- ===== src/Tests/Config.antt =====
-- src/config.py on small documents.
use sensorctl.Prelude.{
  ℕ, ◌≡◌, ◌≢◌, ◌⊎◌, refl, String, Bool, true, false, some, [], ◌∷◌, Exception, Option, config_error,
  ok, err, split, least, join, is_digits, show,
}
use sensorctl.Prelude.Int.{pos}
use sensorctl.Prelude.Dict.{lookup, insert, mem, has}
use sensorctl.Config.Toml.{int, str, array, table, nil, cons, Table, end, entry}
use sensorctl.Config.Toml.{entries, elements}
use sensorctl.Config.Fields.{as_table, unknown_keys, reject_unknown, integer, string}
use sensorctl.Config.Paths.{path_of, path_name}
use sensorctl.Config.Bus.{
  BusConfig, i2c, bus_with_defaults, parse_bus_type, is_exclusive, is_i2c, load_bus,
}
use sensorctl.Config.Sensor.{SensorConfig, as_enabled, as_address, load_sensor}
use sensorctl.Config.Collisions.{
  check_buses, check_sensors, check_sensor, device_owner, address_taken,
}
use sensorctl.Config.Collisions.Topology.{is_topology}
use sensorctl.Config.Load.Apart.{load_config-apart}
use sensorctl.Config.Load.{
  AppConfig, load_config, load_collector, load_buses, load_sensors, equals_one, database_path,
  as_list, validate_collisions, document, parse_source,
}
use sensorctl.Config.Load.Topology.{is_ok, validate_collisions-is_topology}
use sensorctl.Config.Load.Checked.{IsConfig, load_config-IsConfig, load_config-config_error}

-- What a run computes with.
opened : Unit {0}
unfolding load_config load_collector load_buses load_sensors equals_one database_path as_list
    validate_collisions parse_source check_buses check_sensors check_sensor device_owner
    address_taken load_bus parse_bus_type load_sensor as_enabled as_address path_of path_name
    as_table unknown_keys reject_unknown integer string entries elements lookup insert mem has split
    least join is_digits show is_topology
opened = tt

-- No digit outside ASCII.
abbrev pub ascii : ℕ → Bool
ascii c = false

abbrev pub i2c_table : Table
i2c_table = entry "type" (str "i2c") (entry "device" (str "/dev/i2c-1") end)

abbrev sensor_table : String → ℕ → Table
sensor_table id address = entry "id" (str id) (
    entry "driver" (str "bmp280") (
      entry "bus" (str "main")
        (entry "address" (int (pos address)) (entry "location" (str "roof") end))))

abbrev pub two_sensors : ℕ → Table
two_sensors second = entry "version" (int (pos 1)) (
    entry "buses" (table (entry "main" (table i2c_table) end)) (
      entry "sensors"
        (array (cons (table (sensor_table "a" 0x76)) (cons (table (sensor_table "b" second)) nil)))
        end))

abbrev pub main_bus : BusConfig
main_bus = record (bus_with_defaults "main" i2c) { device = some "/dev/i2c-1"; retries = 2 }

abbrev pub sensor : String → ℕ → SensorConfig
sensor id address = record {
  id = id;
  driver = "bmp280";
  bus = "main";
  interval_ms = 1000;
  location = "roof";
  enabled = true;
  address = some address;
  options = [];
}

abbrev pub loaded : AppConfig
loaded = record {
  version = 1;
  collector = record {
    queue_size = 1000;
    batch_size = 100;
    flush_interval_ms = 1000;
    status_interval_ms = 1000;
    shutdown_timeout_s = 10;
  };
  database = record { path = "/var/lib/sensorctl/db" };
  buses = ("main", main_bus) ∷ [];
  sensors = sensor "a" 0x76 ∷ sensor "b" 0x77 ∷ [];
}

pub load_two : load_config ascii "c.toml" (document (two_sensors 0x77)) ≡ ok loaded
unfolding opened
load_two = refl

abbrev duplicate : Exception
duplicate = record { kind = config_error; message = "sensor b has a duplicate I2C address on main" }

load_duplicate : load_config ascii "c.toml" (document (two_sensors 0x76)) ≡ err duplicate
unfolding opened
load_duplicate = refl

load_config-IsConfig_example : IsConfig ascii loaded
load_config-IsConfig_example =
    load_config-IsConfig ascii "c.toml" (document (two_sensors 0x77)) loaded load_two

load_config-config_error_example : ◌≡◌ duplicate.kind config_error
load_config-config_error_example =
    load_config-config_error ascii "c.toml" (document (two_sensors 0x76)) duplicate load_duplicate

validate_collisions-is_topology_example :
    is_ok (validate_collisions loaded) ≡ is_topology loaded.buses loaded.sensors
validate_collisions-is_topology_example = validate_collisions-is_topology loaded

loaded_bus : lookup "main" loaded.buses ≡ some main_bus
unfolding opened
loaded_bus = refl

load_config-apart_example :
    (◌≢◌ {A = String} "a" "b")
    × (is_exclusive i2c ≡ false)
    × ((is_i2c i2c ≡ false) ⊎ (◌≢◌ {A = Option ℕ} (some 0x76) (some 0x77)))
load_config-apart_example =
    load_config-apart ascii "c.toml" (document (two_sensors 0x77)) loaded [] [] [] (sensor "a" 0x76)
      (sensor "b" 0x77) main_bus load_two refl refl loaded_bus
