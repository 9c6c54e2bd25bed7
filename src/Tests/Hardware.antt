-- ===== src/Tests/Hardware.antt =====
-- The registry and the mock driver of src/hw/drivers.
use sensorctl.Prelude.{
  ◌≡◌, refl, true, none, [], ◌∷◌, Result, ok, raise, config_error, if◌then◌else◌, least, ltb,
  overflow_error,
}
use sensorctl.Prelude.Int.{ℤ, pos}
use sensorctl.Prelude.Dict.{lookup, insert, mem}
use sensorctl.Prelude.Exec.{pure}
use sensorctl.Model.{Float, finite}
use sensorctl.Config.Toml.{Value, int, str}
use sensorctl.Config.Fields.{unknown_keys}
use sensorctl.Config.Sensor.{SensorConfig}
use sensorctl.Config.Load.{document}
use sensorctl.Hardware.Driver.{SensorDriver}
use sensorctl.Hardware.Registry.{
  Factories, set_size, create, check_driver, make_driver, prepare_all, prepare,
}
use sensorctl.Hardware.Registry.Refusals.{Prepares}
use sensorctl.Hardware.Registry.Prepared.{IsPrepared, prepare-IsPrepared}
use sensorctl.Hardware.Mock.{new_driver, validate_options, check_number}
use sensorctl.Hardware.Mock.Options.{DriverEnd, new_driver-DriverEnd}
use sensorctl.Tests.Config.{ascii, two_sensors, loaded, load_two}

-- A driver for I2C with two fields, which needs a sensor with an id.
abbrev pub barometer : SensorDriver (Unit {0})
barometer = record {
  fields =
      record { name = "pressure"; unit = "Pa" } ∷ record { name = "temperature"; unit = "C" } ∷ [];
  supported_bus_types = "i2c" ∷ [];
  initialize = pure tt;
  read = pure [];
  close = pure tt;
}

abbrev pub factories : Factories (Unit {0})
factories = ("bmp280", λ sensor. ok barometer) ∷ []

opened : Unit {0}
unfolding prepare prepare_all make_driver create check_driver set_size lookup insert mem
opened = tt

pub prepares_both :
    prepare (Unit {0}) factories loaded
    ≡ ok (record {
      sensors = loaded.sensors;
      by_sensor_id = ("a", barometer) ∷ ("b", barometer) ∷ [];
    })
unfolding opened
prepares_both = refl

prepare-IsPrepared_example :
    Prepares
      (Unit {0})
      factories
      loaded.sensors
      (IsPrepared (Unit {0}) factories loaded)
      (prepare (Unit {0}) factories loaded)
prepare-IsPrepared_example =
    prepare-IsPrepared (Unit {0}) factories ascii "c.toml" (document (two_sensors 0x77)) loaded
      load_two

abbrev sum : Float → Float → Float
sum x y = y

-- A float has no integer above nine here.
abbrev whole : ℤ → Result Float
whole (pos n) =
    if ltb n 10
    then ok (finite (pos n) 0)
    else raise overflow_error "int too large to convert to float"
whole n = ok (finite n 0)

abbrev counter : Value → SensorConfig
counter step = record {
  id = "m";
  driver = "mock";
  bus = "main";
  interval_ms = 1000;
  location = "roof";
  enabled = true;
  address = none;
  options = ("step", step) ∷ [];
}

opened_mock : Unit {0}
unfolding new_driver validate_options check_number unknown_keys least lookup mem
opened_mock = tt

refuses_text :
    new_driver sum whole (counter (str "two"))
    ≡ raise config_error "mock option step must be numeric"
unfolding opened_mock
refuses_text = refl

too_large :
    new_driver sum whole (counter (int (pos 99)))
    ≡ raise overflow_error "int too large to convert to float"
unfolding opened_mock
too_large = refl

new_driver-DriverEnd_example :
    DriverEnd whole (counter (int (pos 99))).options (new_driver sum whole (counter (int (pos 99))))
new_driver-DriverEnd_example = new_driver-DriverEnd whole sum (counter (int (pos 99)))
