-- ===== src/Hardware/Mock.antt =====
-- src/hw/drivers/mock.py and src/hw/transports/mock.py: a sensor that counts. The addition of floats
-- and `float(n)`, which raises `OverflowError` for a large number, are parameters.
pub mod Options
use sensorctl.Prelude.{
  String, Option, none, some, List, [], ◌∷◌, least, ◌<>◌, Result, ok, raise, config_error,
  type_error, ◌>>=◌, ◌>>◌,
}
use sensorctl.Prelude.Int.{ℤ, pos}
use sensorctl.Prelude.Dict.{Dict, lookup, keys}
use sensorctl.Prelude.Exec.{Exec, pure}
use sensorctl.Model.{Float, finite, FieldDefinition}
use sensorctl.Config.Toml.{Value, int, float}
use sensorctl.Config.Fields.{unknown_keys, get_or_default}
use sensorctl.Config.Sensor.{SensorConfig}
use sensorctl.Hardware.Driver.{SensorDriver, Transport}

abbrev pub option_keys : List String
option_keys = "start" ∷ "step" ∷ []

abbrev raise_unknown : Option String → Result (Unit {0})
raise_unknown none = ok tt
raise_unknown (some k) = raise config_error ("unknown mock option: " <> k)

-- `isinstance(value, (int, float)) and not isinstance(value, bool)`
unfoldable pub check_number : String → Value → Result (Unit {0})
check_number name (int n) = ok tt
check_number name (float x) = ok tt
check_number name _ = raise config_error ("mock option " <> (name <> " must be numeric"))

unfoldable pub validate_options : Dict Value → Result (Unit {0})
validate_options options = do
  raise_unknown (least (unknown_keys (keys options) option_keys))
  check_number "start" (get_or_default (lookup "start" options) (int (pos 0)))
  check_number "step" (get_or_default (lookup "step" options) (int (pos 0)))

-- The transport of the mock bus does nothing.
abbrev pub mock_transport : (W : Type 0) → Transport W
mock_transport W = record { open_device = pure tt; close_device = pure tt }

pub record MockDriver : Type 0 where
  pub value : Float
  pub step : Float

module _ (add : Float → Float → Float) (of_int : ℤ → Result Float) where
  -- `float(cast(int | float, value))`, of a value that passed the test.
  abbrev pub to_float : Value → Result Float
  to_float (int n) = of_int n
  to_float (float x) = ok x
  to_float _ = raise type_error "float() argument must be a string or a real number"

  unfoldable pub new_driver : SensorConfig → Result MockDriver
  new_driver sensor = do
    validate_options sensor.options
    value ← to_float (get_or_default (lookup "start" sensor.options) (float (finite (pos 0) 0)))
    step ← to_float (get_or_default (lookup "step" sensor.options) (float (finite (pos 1) 0)))
    ok (record { value = value; step = step })

  unfoldable pub read : Exec MockDriver (Dict Float)
  read d = pure (("value", d.value) ∷ []) (record d { value = add d.value d.step })

  abbrev pub mock_driver : SensorDriver MockDriver
  mock_driver = record {
    fields = record { name = "value"; unit = "count" } ∷ [];
    supported_bus_types = "mock" ∷ [];
    initialize = pure tt;
    read = read;
    close = pure tt;
  }
