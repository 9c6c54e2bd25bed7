-- ===== src/Config/Load/Valid.antt =====
-- What `_load_bus` and `_load_sensor` of src/config.py ensure of a bus and of a sensor.
use sensorctl.Prelude.{
  ℕ, ◌≤◌, ◌≡◌, refl, ◌⊎◌, inl, inr, String, Bool, true, not, ◌||◌, Option, none, some, ◌==◌, leb,
  arith, all, length, starts_with, remove_prefix, split, is_digits, if-cases, if◌then◌else◌, ok,
}
use sensorctl.Prelude.Int.{pos, negsuc}
use sensorctl.Prelude.Dict.{Dict, lookup}
use sensorctl.Config.Toml.{Value, bool, int, str}
use sensorctl.Config.Paths.{path_of, path_name}
use sensorctl.Config.Bus.{
  BusType, i2c, spi, uart, mock, BusConfig, bus_keys, bus_with_defaults, is_mock, parse_bus_type,
  supported_type, spi_name, i2c_name, check_device_name, bus_mode, bus_speed, bus_baud_rate,
  load_device_bus, load_bus,
}
use sensorctl.Config.Sensor.{SensorConfig, sensor_keys, as_enabled, as_address, load_sensor}
use sensorctl.Config.Load.Rules.{
  Loads, Loads-or_raise, Loads-imp, Loads-step, Loads-refuses, Loads-demands, Any, Loads-bind,
  Loads-seq, Loads-require, Loads-forbid, as_table_lem, reject_unknown_lem, Within, integer_lem,
  Nonblank, string_lem,
}

-- A mock bus has no device; any other has one under /dev whose name fits its type.
abbrev pub HasDevice : (ℕ → Bool) → BusConfig → Type 0
HasDevice u bus =
    (text : String) × (starts_with text "/dev/" ≡ true)
    × (bus.device ≡ some (path_of text))
    × (check_device_name u bus.id bus.bus_type (path_name (path_of text)) ≡ ok tt)

abbrev pub DeviceFits : (ℕ → Bool) → BusConfig → Type 0
DeviceFits u bus = ((bus.bus_type ≡ mock) × (bus.device ≡ none)) ⊎ HasDevice u bus

pub record IsBus (u : ℕ → Bool) (name : String) (bus : BusConfig) : Type 0 where
  pub named : bus.id ≡ name
  pub fits : DeviceFits u bus
  pub timeout : Within 1 60_000 bus.timeout_ms
  pub retry : bus.retries ≤ 100
  pub spi_mode : bus.mode ≤ 3
  pub speed : Within 1 125_000_000 bus.max_speed_hz
  pub baud : Within 1 4_000_000 bus.baud_rate

supported_type_lem :
    (bus_id : String) (v : Option Value) → Loads (Any {A = BusType}) (supported_type bus_id v)
unfolding supported_type
supported_type_lem bus_id (some (str s)) = Loads-or_raise (parse_bus_type s) _
supported_type_lem bus_id (some _) = refl
supported_type_lem bus_id none = refl

-- Which exceptions the tests on a device's name raise.
check_device_name_lem :
    (u : ℕ → Bool) (bus_id : String) (t : BusType) (name : String)
    → Loads (Any {A = Unit {0}}) (check_device_name u bus_id t name)
unfolding check_device_name spi_name i2c_name
check_device_name_lem u bus_id i2c name =
    Loads-refuses (not (starts_with name "i2c-") || not (is_digits u (remove_prefix name "i2c-"))) _
check_device_name_lem u bus_id spi name =
    let parts = split b'.' (remove_prefix name "spidev") in
    Loads-forbid (Any {A = Unit {0}}) (not (starts_with name "spidev") || not (length parts == 2)) _
      _ (λ _. Loads-demands (all (is_digits u) parts) _)
check_device_name_lem u bus_id uart name = tt
check_device_name_lem u bus_id mock name = tt

bus_mode_lem : (values : Dict Value) (t : BusType) → Loads (λ n. n ≤ 3) (bus_mode values t)
unfolding bus_mode
bus_mode_lem values spi =
    Loads-imp (Within 0 3) (λ n. n ≤ 3) _ (λ n h. h.1) (integer_lem values "mode" 0 0 3)
bus_mode_lem values i2c = omega arith
bus_mode_lem values uart = omega arith
bus_mode_lem values mock = omega arith

bus_speed_lem :
    (values : Dict Value) (t : BusType) → Loads (Within 1 125_000_000) (bus_speed values t)
unfolding bus_speed
bus_speed_lem values spi = integer_lem values "max_speed_hz" 1_000_000 1 125_000_000
bus_speed_lem values i2c = omega arith
bus_speed_lem values uart = omega arith
bus_speed_lem values mock = omega arith

bus_baud_rate_lem :
    (values : Dict Value) (t : BusType) → Loads (Within 1 4_000_000) (bus_baud_rate values t)
unfolding bus_baud_rate
bus_baud_rate_lem values uart = integer_lem values "baud_rate" 9600 1 4_000_000
bus_baud_rate_lem values i2c = omega arith
bus_baud_rate_lem values spi = omega arith
bus_baud_rate_lem values mock = omega arith

load_device_bus_lem :
    (u : ℕ → Bool) (bus_id : String) (t : BusType) (values : Dict Value)
    → Loads (IsBus u bus_id) (load_device_bus u bus_id t values)
unfolding load_device_bus
load_device_bus_lem u bus_id t values =
    Loads-bind Nonblank Goal _ _ (string_lem values "device") λ text _.
      Loads-require Goal (starts_with text "/dev/") _ _ λ under_dev.
        Loads-step Goal (check_device_name u bus_id t (path_name (path_of text))) _
          (check_device_name_lem u bus_id t _)
          λ fits.
            Loads-bind (Within 1 60_000) Goal _ _ (integer_lem values "timeout_ms" 100 1 60_000)
              λ timeout_ms timeout.
                Loads-bind (Within 0 100) Goal _ _ (integer_lem values "retries" 2 0 100)
                  λ retries retry.
                    Loads-bind (λ n. n ≤ 3) Goal _ _ (bus_mode_lem values t)
                      λ mode spi_mode.
                        Loads-bind (Within 1 125_000_000) Goal _ _ (bus_speed_lem values t)
                          λ max_speed_hz speed.
                            Loads-bind (Within 1 4_000_000) Goal _ _ (bus_baud_rate_lem values t)
                              λ baud_rate baud. record {
                                named = refl;
                                fits = inr (text, under_dev, refl, fits);
                                timeout = timeout;
                                retry = retry.1;
                                spi_mode = spi_mode;
                                speed = speed;
                                baud = baud;
                              }
  where
    Goal : BusConfig → Type 0
    Goal = IsBus u bus_id

pub load_bus_lem :
    (u : ℕ → Bool) (bus_id : String) (raw : Value) → Loads (IsBus u bus_id) (load_bus u bus_id raw)
unfolding load_bus
load_bus_lem u bus_id raw =
    Loads-bind (Any {A = Dict Value}) Goal _ _ (as_table_lem raw _) λ values _.
      Loads-bind (Any {A = BusType}) Goal _ _ (supported_type_lem bus_id (lookup "type" values))
        λ t _. Loads-seq Goal _ _ (reject_unknown_lem values (bus_keys t) _) (by_type t values)
  where
    Goal : BusConfig → Type 0
    Goal = IsBus u bus_id

    by_type :
        (t : BusType) (values : Dict Value)
        → Loads Goal (
            if is_mock t
            then ok (bus_with_defaults bus_id t)
            else load_device_bus u bus_id t values)
    by_type mock values = record {
      named = refl;
      fits = inl (refl, refl);
      timeout = omega arith;
      retry = omega arith;
      spi_mode = omega arith;
      speed = omega arith;
      baud = omega arith;
    }
    by_type i2c values = load_device_bus_lem u bus_id i2c values
    by_type spi values = load_device_bus_lem u bus_id spi values
    by_type uart values = load_device_bus_lem u bus_id uart values

abbrev pub AddressFits : Option ℕ → Type 0
AddressFits address = (a : ℕ) → address ≡ some a → a ≤ 0x7f

pub record IsSensor (s : SensorConfig) : Type 0 where
  pub id_given : Nonblank s.id
  pub driver_given : Nonblank s.driver
  pub bus_given : Nonblank s.bus
  pub location_given : Nonblank s.location
  pub interval : Within 10 86_400_000 s.interval_ms
  pub address_fits : AddressFits s.address

as_enabled_lem : (v : Value) → Loads (Any {A = Bool}) (as_enabled v)
unfolding as_enabled
as_enabled_lem (bool b) = tt
as_enabled_lem _ = refl

as_address_lem : (v : Option Value) → Loads AddressFits (as_address v)
unfolding as_address
as_address_lem none = λ a h. cc
as_address_lem (some (int (pos n))) =
    if-cases (Loads AddressFits) (leb n 0x7f) (ok (some n)) _ (λ fits a h. ground (arith, fits, h))
      (λ _. refl)
as_address_lem (some (int (negsuc n))) = refl
as_address_lem (some _) = refl

pub load_sensor_lem : (raw : Value) → Loads IsSensor (load_sensor raw)
unfolding load_sensor
load_sensor_lem raw =
    Loads-bind (Any {A = Dict Value}) IsSensor _ _ (as_table_lem raw "sensor") λ values _.
      Loads-seq IsSensor _ _ (reject_unknown_lem values sensor_keys "sensor") (
        Loads-bind (Any {A = Bool}) IsSensor _ _ (as_enabled_lem _) λ enabled _.
          Loads-bind AddressFits IsSensor _ _ (as_address_lem (lookup "address" values))
            λ address address_fits.
              Loads-bind (Any {A = Dict Value}) IsSensor _ _ (as_table_lem _ "sensor options")
                λ options _.
                  Loads-bind Nonblank IsSensor _ _ (string_lem values "id") λ id id_given.
                    Loads-bind Nonblank IsSensor _ _ (string_lem values "driver")
                      λ driver driver_given.
                        Loads-bind Nonblank IsSensor _ _ (string_lem values "bus") λ bus bus_given.
                          Loads-bind (Within 10 86_400_000) IsSensor _ _
                            (integer_lem values "interval_ms" 1000 10 86_400_000)
                            λ interval_ms interval.
                              Loads-bind Nonblank IsSensor _ _ (string_lem values "location")
                                λ location location_given. record {
                                  id_given = id_given;
                                  driver_given = driver_given;
                                  bus_given = bus_given;
                                  location_given = location_given;
                                  interval = interval;
                                  address_fits = address_fits;
                                })
