-- ===== src/Hardware/Bmp280/Compensate.antt =====
-- The compensation formulas of src/hw/drivers/bmp280.py, over the operations on floats.
use sensorctl.Prelude.{ℕ, Bool, if◌then◌else◌, Result, ok, raise, runtime_error}
use sensorctl.Prelude.Int.{ℤ, pos}
use sensorctl.Model.{Float, finite}
use sensorctl.Hardware.Bmp280.Calibration.{Calibration}

-- What Python does on floats; `equals_zero` is the comparison with 0.0.
pub record FloatOps : Type 0 where
  pub of_int : ℤ → Float
  pub add : Float → Float → Float
  pub sub : Float → Float → Float
  pub mul : Float → Float → Float
  pub div : Float → Float → Float
  pub square : Float → Float
  pub equals_zero : Float → Bool

-- A literal that is a whole number.
abbrev pub lit : ℕ → Float
lit n = finite (pos n) 0

module _ (o : FloatOps) where
  open o use {of_int, add, sub, mul, div, square, equals_zero}

  -- The temperature, and the fine temperature that the pressure needs.
  unfoldable pub compensate_temperature : ℕ → Calibration → Float × Float
  compensate_temperature raw c =
      let n = of_int (pos raw) in
      let t1 = of_int (pos c.t1) in
      let first = mul (sub (div n (lit 16384)) (div t1 (lit 1024))) (of_int c.t2) in
      let second = mul (square (sub (div n (lit 131072)) (div t1 (lit 8192)))) (of_int c.t3) in
      let fine_temperature = add first second in (div fine_temperature (lit 5120), fine_temperature)

  -- The value of `first` that the pressure is divided by.
  unfoldable pub divisor : Float → Calibration → Float
  divisor fine_temperature c =
      let first = sub (div fine_temperature (lit 2)) (lit 64000) in
      let scaled =
        div (add (div (mul (mul (of_int c.p3) first) first) (lit 524288)) (mul (of_int c.p2) first))
          (lit 524288) in
      mul (add (lit 1) (div scaled (lit 32768))) (of_int (pos c.p1))

  -- The value of `second` at that point.
  unfoldable pub offset : Float → Calibration → Float
  offset fine_temperature c =
      let first = sub (div fine_temperature (lit 2)) (lit 64000) in
      let second = div (mul (mul first first) (of_int c.p6)) (lit 32768) in
      let second' = add second (mul (mul first (of_int c.p5)) (lit 2)) in
      add (div second' (lit 4)) (mul (of_int c.p4) (lit 65536))

  -- The rest, with a divisor that is not zero.
  unfoldable pub pressure_from : ℕ → Float → Float → Calibration → Float
  pressure_from raw first second c =
      let pressure =
        div (mul (sub (sub (lit 1048576) (of_int (pos raw))) (div second (lit 4096))) (lit 6250))
          first in
      let first' = div (mul (mul (of_int c.p9) pressure) pressure) (lit 2147483648) in
      let second' = div (mul pressure (of_int c.p8)) (lit 32768) in
      add pressure (div (add (add first' second') (of_int c.p7)) (lit 16))

  unfoldable pub compensate_pressure : ℕ → Float → Calibration → Result Float
  unfolding divisor offset pressure_from
  compensate_pressure raw fine_temperature c =
      let first = divisor fine_temperature c in
      if equals_zero first
      then raise runtime_error "BMP280 pressure calibration is invalid"
      else ok (pressure_from raw first (offset fine_temperature c) c)
