-- ===== src/Tests/Ports.antt =====
-- The transports of src/hw/transports on a device that answers with its address.
use sensorctl.Prelude.{
  ℕ, ◌≡◌, refl, true, false, none, some, Option, List, [], ◌∷◌, ok, split, is_digits, least, Bool,
  ◌==◌, raise, value_error, remove_prefix,
}
use sensorctl.Prelude.Dict.{lookup, mem}
use sensorctl.Prelude.Exec.{pure}
use sensorctl.Config.Toml.{Value, table, str, entry, end, entries}
use sensorctl.Config.Fields.{as_table, unknown_keys, reject_unknown, integer, string}
use sensorctl.Config.Paths.{FilePath, path_of, path_name}
use sensorctl.Config.Bus.{
  BusConfig, i2c, bus_with_defaults, load_bus, parse_bus_type, require_device,
}
use sensorctl.Hardware.Ports.{
  Port, Packages, Message, write_message, read_message, open_i2c, transfer_i2c, close_transport,
  close_port, bus_number, int_of, decimal, text_length,
}
use sensorctl.Hardware.Ports.Closed.{CloseEnd, close_transport-CloseEnd}
use sensorctl.Hardware.Ports.Numbers.{NumberEnd, load_bus-bus_number}

abbrev reply : List Message → List ℕ
reply [] = []
reply (write_message a bytes ∷ rest) = reply rest
reply (read_message a n ∷ rest) = a ∷ []

-- A handle is its bus number; the world counts the closed handles.
abbrev packages : Packages ℕ (List ℕ)
packages = record {
  has_smbus2 = true;
  smbus = λ n. pure n;
  i2c_rdwr = λ h messages. pure (reply messages);
  has_spidev = false;
  spi_open = λ b d. pure b;
  spi_configure = λ h m s. pure tt;
  xfer2 = λ h bytes. pure bytes;
  has_serial = false;
  serial = λ d b t. pure 0;
  serial_read = λ h n. pure [];
  serial_write = λ h bytes. pure 0;
  close_handle = λ h w. (ok tt, h ∷ w);
}

abbrev no_values : ℕ → Option ℕ
no_values c = none

abbrev fresh : Port ℕ (List ℕ)
fresh = record { handle = none; world = [] }

abbrev in_use : Port ℕ (List ℕ)
in_use = record { handle = some 12; world = [] }

opened : Unit {0}
unfolding open_i2c transfer_i2c close_transport close_port bus_number int_of text_length decimal
    path_name split load_bus parse_bus_type as_table unknown_keys reject_unknown integer string
    entries lookup mem least is_digits path_of
opened = tt

opens_twelve : open_i2c packages no_values "/dev/i2c-12" fresh ≡ (ok tt, in_use)
unfolding opened
opens_twelve = refl

reads_address : transfer_i2c packages no_values 0x76 (1 ∷ []) 1 in_use ≡ (ok (0x76 ∷ []), in_use)
unfolding opened
reads_address = refl

close_transport-CloseEnd_example :
    CloseEnd packages no_values (some 12) (close_transport packages no_values in_use)
close_transport-CloseEnd_example = close_transport-CloseEnd packages no_values in_use

-- The superscript two counts as a digit, and `int` refuses it.
abbrev is_digit : ℕ → Bool
is_digit c = c == 178

abbrev raw_bus : Value
raw_bus = table (entry "type" (str "i2c") (entry "device" (str "/dev/i2c-²") end))

abbrev odd_bus : BusConfig
odd_bus = record (bus_with_defaults "main" i2c) { device = some "/dev/i2c-²"; retries = 2 }

loads_odd : load_bus is_digit "main" raw_bus ≡ ok odd_bus
unfolding opened
loads_odd = refl

refuses_odd :
    (open_i2c packages no_values "/dev/i2c-²" fresh).0
    ≡ raise value_error "invalid literal for int() with base 10"
unfolding opened
refuses_odd = refl

load_bus-bus_number_example :
    (device : FilePath) × (require_device odd_bus ≡ ok device)
    × NumberEnd is_digit no_values
        (remove_prefix (path_name device) "i2c-")
        (bus_number no_values device)
load_bus-bus_number_example =
    load_bus-bus_number is_digit no_values "main" raw_bus odd_bus loads_odd refl
