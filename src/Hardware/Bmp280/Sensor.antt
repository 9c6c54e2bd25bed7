-- ===== src/Hardware/Bmp280/Sensor.antt =====
-- The driver object of src/hw/drivers/bmp280.py: its registers and its two operations.
use Prim.Native.Nat.{bit_and, bit_or}
use Prim.Native.String.{slice}
use sensorctl.Prelude.{
  ℕ, zero, suc, ◌+◌, ◌*◌, ◌/◌, ◌%◌, ◌^◌, String, Bool, some, List, [], ◌∷◌, leb, ◌==◌, length,
  if◌then◌else◌, show, ◌<>◌, Result, ok, raise, require, or_raise, runtime_error, type_error,
  key_error, index_error, timeout_error,
}
use sensorctl.Prelude.{◌>>=◌ as ◌>>>=◌}
use sensorctl.Prelude.Dict.{Dict}
use sensorctl.Prelude.Exec.{Exec, pure, lift, ◌>>=◌, ◌>>◌}
use sensorctl.Model.{Float}
use sensorctl.Hardware.Driver.{SensorDriver}
use sensorctl.Hardware.Bmp280.Calibration.{Calibration, unpack}
use sensorctl.Hardware.Bmp280.Compensate.{FloatOps, compensate_temperature, compensate_pressure}
use sensorctl.Hardware.Bmp280.Options.{Bmp280, oversampling_code}

abbrev pub chip_id_register : ℕ
chip_id_register = 0xd0

abbrev pub expected_chip_id : ℕ
expected_chip_id = 0x58

abbrev pub status_register : ℕ
status_register = 0xf3

abbrev pub control_register : ℕ
control_register = 0xf4

abbrev pub calibration_register : ℕ
calibration_register = 0x88

abbrev pub data_register : ℕ
data_register = 0xf7

abbrev pub status_busy_mask : ℕ
status_busy_mask = 0x09

abbrev pub ready_timeout_ns : ℕ
ready_timeout_ns = 100_000_000

-- `f"{n:02x}"` of a byte.
abbrev pub hex : ℕ → String
hex n =
    slice "0123456789abcdef" (n / 16) (n / 16 + 1) <> slice "0123456789abcdef" (n % 16) (n % 16 + 1)

-- `data[0]`
abbrev pub first_byte : List ℕ → Result ℕ
first_byte [] = raise index_error "index out of range"
first_byte (b ∷ bytes) = ok b

-- `_maximum_measurement_time_s`, in nanoseconds and without the rounding of floats.
unfoldable pub measurement_time_ns : Bmp280 → ℕ
measurement_time_ns d =
    (1_250_000
        + 2_300_000 * d.temperature_oversampling
        + 2_300_000 * d.pressure_oversampling
        + 575_000)
      * 115
      / 100
    + 500_000

-- The 20 bits of a raw value in three bytes.
unfoldable pub raw_value : ℕ → ℕ → ℕ → ℕ
raw_value high middle low = bit_or (bit_or (high * 2 ^ 12) (middle * 2 ^ 4)) (low / 2 ^ 4)

-- The byte for the control register: both codes and the forced mode.
abbrev pub control_byte : ℕ → ℕ → ℕ
control_byte temperature_code pressure_code =
    bit_or (bit_or (temperature_code * 2 ^ 5) (pressure_code * 2 ^ 2)) 0x01

-- `_OVERSAMPLING_CODES[n]`
abbrev pub code_of : ℕ → Result ℕ
code_of n = or_raise (oversampling_code n) key_error (show n)

-- The chip ID, and its test.
abbrev pub check_chip_id : ℕ → Result (Unit {0})
check_chip_id chip_id =
    require (chip_id == expected_chip_id) runtime_error
      ("unexpected BMP280 chip ID: 0x" <> hex chip_id)

-- The two raw values in the six bytes of the data registers.
abbrev pub raw_values : List ℕ → Result (ℕ × ℕ)
raw_values (b0 ∷ b1 ∷ b2 ∷ b3 ∷ b4 ∷ b5 ∷ rest) = ok (raw_value b0 b1 b2, raw_value b3 b4 b5)
raw_values _ = raise index_error "index out of range"

unfoldable pub to_values : FloatOps → Calibration → ℕ × ℕ → Result (Dict Float)
to_values o c raw =
    let (temperature, fine_temperature) = compensate_temperature o raw.1 c in
    compensate_pressure o raw.0 fine_temperature c >>>= λ pressure.
    ok (("temperature", temperature) ∷ ("pressure", pressure) ∷ [])

-- What the driver uses of its transport and of the time. `has_transfer` is the test against the
-- protocol `I2CDevice`.
pub record Board (W : Type 0) : Type 0 where
  pub has_transfer : Bool
  pub transfer : ℕ → List ℕ → ℕ → Exec W (List ℕ)
  pub monotonic_ns : W → ℕ
  pub sleep_ns : ℕ → W → W

-- The driver object with the hardware.
pub record Session (W : Type 0) : Type 0 where
  pub driver : Bmp280
  pub world : W

module _ {W : Type 0} (b : Board W) where
  abbrev pub check_length : ℕ → ℕ → List ℕ → Result (List ℕ)
  check_length register expected bytes =
      if length bytes == expected
      then ok bytes
      else raise runtime_error (
          "BMP280 register 0x"
          <> (hex register
              <> (" returned "
                  <> (show (length bytes) <> (" of " <> (show expected <> " bytes"))))))

  unfoldable pub read_register : ℕ → ℕ → ℕ → Exec W (List ℕ)
  read_register address register expected = do
    bytes ← b.transfer address (register ∷ []) expected
    lift (check_length register expected bytes)

  unfoldable pub write_register : ℕ → ℕ → ℕ → Exec W (Unit {0})
  write_register address register value = do
    _ ← b.transfer address (register ∷ value ∷ []) 0
    pure tt

  abbrev pub sleep : ℕ → Exec W (Unit {0})
  sleep ns w = pure tt (b.sleep_ns ns w)

  -- One round of the loop of `_wait_until_ready`, and what follows it.
  unfoldable pub wait_round : Exec W (Unit {0}) → ℕ → ℕ → Exec W (Unit {0})
  wait_round again address deadline = do
    status ← read_register address status_register 1
    flags ← lift (first_byte status)
    if bit_and flags status_busy_mask == 0 then pure tt else λ w.
        if leb deadline (b.monotonic_ns w)
        then (raise timeout_error "BMP280 did not become ready", w)
        else (sleep 1_000_000 >> again) w

  -- The loop with the rounds that are left; see `wait_rounds`.
  unfoldable pub wait_loop : ℕ → ℕ → ℕ → Exec W (Unit {0})
  wait_loop zero address deadline = lift (raise timeout_error "BMP280 did not become ready")
  wait_loop (suc rounds) address deadline =
      wait_round (wait_loop rounds address deadline) address deadline

  -- Each round but the last sleeps a millisecond, and the deadline is a hundred of them away.
  abbrev pub wait_rounds : ℕ
  wait_rounds = 101

  unfoldable pub wait_until_ready : ℕ → Exec W (Unit {0})
  wait_until_ready address w = wait_loop wait_rounds address (b.monotonic_ns w + ready_timeout_ns) w

  abbrev pub on_world {ℓ} : {A : Type ℓ} → Exec W A → Exec (Session W) A
  on_world m s = let (r, w) = m s.world in (r, record s { world = w })

  abbrev pub require_i2c : Exec (Session W) (Unit {0})
  require_i2c = lift (require b.has_transfer type_error "BMP280 requires an I2C transport")

  abbrev pub calibrate : Calibration → Exec (Session W) (Unit {0})
  calibrate c s = pure tt (record s { driver = record (s.driver) { calibration = some c } })

  unfoldable pub identify : ℕ → Exec (Session W) (Unit {0})
  identify address = do
    id_bytes ← on_world (read_register address chip_id_register 1)
    lift (first_byte id_bytes >>>= check_chip_id)

  unfoldable pub load_calibration : ℕ → Exec (Session W) (Unit {0})
  load_calibration address = do
    bytes ← on_world (read_register address calibration_register 24)
    calibration ← lift (unpack bytes)
    calibrate calibration

  unfoldable pub initialize : Exec (Session W) (Unit {0})
  initialize s =
      let address = s.driver.address in
      (require_i2c
          >> (identify address
              >> (on_world (wait_until_ready address) >> load_calibration address)))
        s

  -- The forced measurement: the control byte is written, and the sensor is waited for.
  unfoldable pub measure : Bmp280 → Exec (Session W) (Unit {0})
  measure d = do
    temperature_code ← lift (code_of d.temperature_oversampling)
    pressure_code ← lift (code_of d.pressure_oversampling)
    on_world
        (write_register d.address control_register (control_byte temperature_code pressure_code))
    on_world (sleep (measurement_time_ns d))
    on_world (wait_until_ready d.address)

  unfoldable pub fetch : ℕ → Exec (Session W) (ℕ × ℕ)
  fetch address = do
    bytes ← on_world (read_register address data_register 6)
    lift (raw_values bytes)

  unfoldable pub read : FloatOps → Exec (Session W) (Dict Float)
  read o s =
      (do
        require_i2c
        c ← lift (or_raise s.driver.calibration runtime_error "BMP280 driver is not initialized")
        measure s.driver
        raw ← fetch s.driver.address
        lift (to_values o c raw))
        s

  abbrev pub bmp280_driver : FloatOps → SensorDriver (Session W)
  bmp280_driver o = record {
    fields =
        record { name = "temperature"; unit = "deg_c" }
        ∷ record { name = "pressure"; unit = "pa" }
        ∷ [];
    supported_bus_types = "i2c" ∷ [];
    initialize = initialize;
    read = read o;
    close = pure tt;
  }
