-- ===== src/Hardware/Bmp280/Options.antt =====
-- The constructor of the driver of src/hw/drivers/bmp280.py and the options it takes.
use sensorctl.Prelude.{
  ℕ, String, Option, none, some, List, [], ◌∷◌, least, ◌==◌, if◌then◌else◌, ◌<>◌, Result, ok, raise,
  config_error,
}
use sensorctl.Prelude.{◌>>=◌ as ◌>>>=◌, ◌>>◌ as ◌>>>◌}
use sensorctl.Prelude.Int.{pos}
use sensorctl.Prelude.Dict.{Dict, lookup, keys}
use sensorctl.Config.Toml.{Value, int}
use sensorctl.Config.Fields.{unknown_keys, get_or_default}
use sensorctl.Config.Sensor.{SensorConfig}
use sensorctl.Hardware.Bmp280.Calibration.{Calibration}

-- `_OVERSAMPLING_CODES`
abbrev pub oversampling_code : ℕ → Option ℕ
oversampling_code n =
    if n == 1
    then some 1
    else if n == 2
    then some 2
    else if n == 4
    then some 3
    else if n == 8
    then some 4
    else if n == 16
    then some 5
    else none

abbrev pub option_keys : List String
option_keys = "temperature_oversampling" ∷ "pressure_oversampling" ∷ []

abbrev pub in_codes : Option ℕ → ℕ → String → Result ℕ
in_codes (some code) n name = ok n
in_codes none n name =
    raise config_error ("bmp280 option " <> (name <> " must be one of 1, 2, 4, 8, 16"))

abbrev pub oversampling_value : Value → String → Result ℕ
oversampling_value (int (pos n)) name = in_codes (oversampling_code n) n name
oversampling_value (int n) name = in_codes none 0 name
oversampling_value _ name = raise config_error ("bmp280 option " <> (name <> " must be an integer"))

unfoldable pub oversampling_option : Dict Value → String → Result ℕ
oversampling_option options name =
    oversampling_value (get_or_default (lookup name options) (int (pos 1))) name

abbrev pub raise_unknown : Option String → Result (Unit {0})
raise_unknown none = ok tt
raise_unknown (some k) = raise config_error ("unknown bmp280 option: " <> k)

-- The loop is over a set of two names, here in the order of the source.
unfoldable pub validate_options : Dict Value → Result (Unit {0})
validate_options options =
    raise_unknown (least (unknown_keys (keys options) option_keys))
    >>> (oversampling_option options "temperature_oversampling" >>>= λ t.
        oversampling_option options "pressure_oversampling" >>>= λ p. ok tt)

pub record Bmp280 : Type 0 where
  pub address : ℕ
  pub temperature_oversampling : ℕ
  pub pressure_oversampling : ℕ
  pub calibration : Option Calibration

abbrev pub valid_address : Option ℕ → Result ℕ
valid_address none = raise config_error "bmp280 address must be 0x76 or 0x77"
valid_address (some a) =
    if a == 0x76
    then ok a
    else if a == 0x77
    then ok a
    else raise config_error "bmp280 address must be 0x76 or 0x77"

-- `BMP280Driver(sensor)`
unfoldable pub new_bmp280 : SensorConfig → Result Bmp280
new_bmp280 sensor =
    validate_options sensor.options
    >>> (valid_address sensor.address >>>= λ address.
        oversampling_option sensor.options "temperature_oversampling" >>>= λ t.
        oversampling_option sensor.options "pressure_oversampling" >>>= λ p. ok (record {
          address = address;
          temperature_oversampling = t;
          pressure_oversampling = p;
          calibration = none;
        }))
