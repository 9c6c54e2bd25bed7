-- ===== src/Hardware/Ports.antt =====
-- src/hw/transports: the I2C, SPI and UART transports over what they use of smbus2, spidev and
-- pyserial. A byte is a number.
pub mod Closed
pub mod Numbers
use Prim.Native.Char.{Char, code}
use mathlib.Core.Bool.{cond}
use sensorctl.Prelude.{
  ℕ, ◌+◌, ◌*◌, ◌-◌, String, Bool, true, false, not, Option, none, some, List, [], ◌∷◌, ◌++◌, map,
  leb, ltb, ◌==◌, is_empty, is_blank, if◌then◌else◌, remove_prefix, split, Result, ok, err, raise,
  require, or_raise, runtime_error, value_error, forbid, suc, ◌>>=◌ as ◌>>>=◌, ◌>>◌ as ◌>>>◌,
}
use sensorctl.Prelude.Exec.{Exec, pure, lift, ◌>>=◌, ◌>>◌}
use sensorctl.Config.Bus.{BusConfig, BusType, mock, i2c, spi, uart, require_device}
use sensorctl.Config.Paths.{FilePath, path_name}
use sensorctl.Hardware.Driver.{Transport}
use sensorctl.Hardware.Mock.{mock_transport}

-- The value of a digit, if it is one; those outside ASCII are a table of Unicode.
abbrev pub digit_value : (ℕ → Option ℕ) → ℕ → Option ℕ
digit_value value c =
    if ltb c 128
    then (if leb b'0' c then (if leb c b'9' then some (c - b'0') else none) else none)
    else value c

abbrev pub add_digit : ℕ → Option ℕ → (ℕ → Option ℕ) → Option ℕ
add_digit n none rest = none
add_digit n (some d) rest = rest (n * 10 + d)

unfoldable pub decimal : (ℕ → Option ℕ) → String → ℕ → Option ℕ
decimal value String.[] n = some n
decimal value (String.◌∷◌ c s) n = add_digit n (digit_value value (code c)) (decimal value s)

unfoldable pub text_length : String → ℕ
text_length String.[] = 0
text_length (String.◌∷◌ c s) = suc (text_length s)

-- `int(s)`, for texts without a sign, an underscore or a space: with Python's limit on the digits.
unfoldable pub int_of : (ℕ → Option ℕ) → String → Result ℕ
unfolding text_length
int_of value s =
    forbid (ltb 4300 (text_length s)) value_error
      "Exceeds the limit (4300 digits) for integer string conversion"
    >>> or_raise (if is_blank s then none else decimal value s 0) value_error
        "invalid literal for int() with base 10"

-- A transport: the handle of its library while it is open.
pub record Port (H W : Type 0) : Type 0 where
  pub handle : Option H
  pub world : W

module _ {H W : Type 0} where
  abbrev pub on_world {ℓ} : {A : Type ℓ} → Exec W A → Exec (Port H W) A
  on_world m p = let (r, w) = m p.world in (r, record p { world = w })

  abbrev pub set_handle : Option H → Exec (Port H W) (Unit {0})
  set_handle h p = pure tt (record p { handle = h })

  -- `if self._bus is None: raise RuntimeError(message)`
  abbrev pub opened {ℓ} : {A : Type ℓ} → String → (H → Exec (Port H W) A) → Exec (Port H W) A
  opened message f p = elim p.handle [ none ↦ (raise runtime_error message, p) | some h ↦ f h p ]

  unfoldable pub close_port : (H → Exec W (Unit {0})) → Exec (Port H W) (Unit {0})
  close_port close p = elim p.handle [
    | none ↦ pure tt p
    | some h ↦ (on_world (close h) >> set_handle none) p
  ]

-- One part of a combined I2C transaction, with the address.
pub data Message : Type 0 where
  write_message : ℕ → List ℕ → Message
  read_message : ℕ → ℕ → Message

-- What the transports use of the three packages. `i2c_rdwr` gives the bytes of the read message.
pub record Packages (H W : Type 0) : Type 0 where
  pub has_smbus2 : Bool
  pub smbus : ℕ → Exec W H
  pub i2c_rdwr : H → List Message → Exec W (List ℕ)
  pub has_spidev : Bool
  pub spi_open : ℕ → ℕ → Exec W H
  pub spi_configure : H → ℕ → ℕ → Exec W (Unit {0})
  pub xfer2 : H → List ℕ → Exec W (List ℕ)
  pub has_serial : Bool
  pub serial : FilePath → ℕ → ℕ → Exec W H
  pub serial_read : H → ℕ → Exec W (List ℕ)
  pub serial_write : H → List ℕ → Exec W ℕ
  pub close_handle : H → Exec W (Unit {0})

-- The bus number in the name of an I2C device.
unfoldable pub bus_number : (ℕ → Option ℕ) → FilePath → Result ℕ
bus_number value device = int_of value (remove_prefix (path_name device) "i2c-")

module _ {H W : Type 0} (packages : Packages H W) (value : ℕ → Option ℕ) where
  unfoldable pub open_i2c : FilePath → Exec (Port H W) (Unit {0})
  open_i2c device = do
    lift (require packages.has_smbus2 runtime_error "I2C requires the python3-smbus2 package")
    n ← lift (bus_number value device)
    h ← on_world (packages.smbus n)
    set_handle (some h)

  abbrev pub messages : ℕ → List ℕ → ℕ → List Message
  messages address bytes read_length =
      (if is_empty bytes then [] else write_message address bytes ∷ [])
      ++ (if read_length == 0 then [] else read_message address read_length ∷ [])

  unfoldable pub transfer_i2c : ℕ → List ℕ → ℕ → Exec (Port H W) (List ℕ)
  transfer_i2c address bytes read_length = opened "I2C transport is not open" λ h. do
    reply ← on_world (packages.i2c_rdwr h (messages address bytes read_length))
    pure (if read_length == 0 then [] else reply)

  -- The two numbers in the name of an SPI device.
  abbrev pub spi_numbers : List String → Result (ℕ × ℕ)
  spi_numbers (bus ∷ device ∷ []) = both (int_of value bus) (int_of value device)
    where
      both : Result ℕ → Result ℕ → Result (ℕ × ℕ)
      both (err e) d = err e
      both (ok b) (err e) = err e
      both (ok b) (ok d) = ok (b, d)
  spi_numbers parts = raise value_error "the name does not have two numbers"

  unfoldable pub open_spi : BusConfig → FilePath → Exec (Port H W) (Unit {0})
  open_spi bus device = do
    lift (require packages.has_spidev runtime_error "SPI requires the python3-spidev package")
    numbers ← lift (spi_numbers (split b'.' (remove_prefix (path_name device) "spidev")))
    h ← on_world (packages.spi_open numbers.0 numbers.1)
    on_world (packages.spi_configure h bus.mode bus.max_speed_hz)
    set_handle (some h)

  unfoldable pub transfer_spi : List ℕ → Exec (Port H W) (List ℕ)
  transfer_spi data_bytes =
      opened "SPI transport is not open" λ h. on_world (packages.xfer2 h data_bytes)

  unfoldable pub open_uart : BusConfig → FilePath → Exec (Port H W) (Unit {0})
  open_uart bus device = do
    lift (require packages.has_serial runtime_error "UART requires the python3-serial package")
    h ← on_world (packages.serial device bus.baud_rate bus.timeout_ms)
    set_handle (some h)

  unfoldable pub read_uart : ℕ → Exec (Port H W) (List ℕ)
  read_uart size = opened "UART transport is not open" λ h. on_world (packages.serial_read h size)

  unfoldable pub write_uart : List ℕ → Exec (Port H W) ℕ
  write_uart data_bytes =
      opened "UART transport is not open" λ h. on_world (packages.serial_write h data_bytes)

  unfoldable pub close_transport : Exec (Port H W) (Unit {0})
  close_transport = close_port packages.close_handle

  -- A transport for a bus that has a device.
  abbrev pub with_device :
      BusConfig → (FilePath → Exec (Port H W) (Unit {0})) → Result (Transport (Port H W))
  with_device bus open_port = require_device bus >>>= λ device.
      ok (record { open_device = open_port device; close_device = close_transport })

  unfoldable pub create_by_type : BusType → BusConfig → Result (Transport (Port H W))
  create_by_type mock bus = ok (mock_transport (Port H W))
  create_by_type i2c bus = with_device bus open_i2c
  create_by_type spi bus = with_device bus (open_spi bus)
  create_by_type uart bus = with_device bus (open_uart bus)

  unfoldable pub create_transport : BusConfig → Result (Transport (Port H W))
  unfolding create_by_type
  create_transport bus = create_by_type bus.bus_type bus
