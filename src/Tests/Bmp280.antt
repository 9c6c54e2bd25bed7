-- ===== src/Tests/Bmp280.antt =====
-- The driver of src/hw/drivers/bmp280.py on a sensor that answers from a table, with a clock that each
-- transfer moves on.
use sensorctl.Prelude.{
  ℕ, ◌+◌, ◌<◌, ◌≡◌, refl, arith, true, false, none, some, List, [], ◌∷◌, All, least, ok, raise,
  timeout_error, ◌==◌, if◌then◌else◌, subst, if-cases, ltb, all,
}
use sensorctl.Prelude.Int.{pos, negsuc}
use sensorctl.Prelude.Dict.{lookup}
use sensorctl.Model.{finite}
use sensorctl.Config.Toml.{int}
use sensorctl.Config.Fields.{unknown_keys}
use sensorctl.Config.Sensor.{SensorConfig}
use sensorctl.Hardware.Bmp280.Calibration.{Calibration, unpack, words, of_words}
use sensorctl.Hardware.Bmp280.Calibration.Layout.{pack, InRange, IsByte, unpack-pack}
use sensorctl.Hardware.Bmp280.Compensate.{
  FloatOps, compensate_temperature, compensate_pressure, divisor, offset, pressure_from,
}
use sensorctl.Hardware.Bmp280.Options.{Bmp280, new_bmp280, validate_options, oversampling_option}
use sensorctl.Hardware.Bmp280.Sensor.{
  Board, raw_value, ready_timeout_ns, wait_loop, wait_round, wait_until_ready, initialize, identify,
  load_calibration, measure, fetch, to_values, read, read_register, write_register,
  measurement_time_ns,
}
use sensorctl.Hardware.Bmp280.Wait.{HasClock, WaitEnd, wait_until_ready-WaitEnd}
use sensorctl.Hardware.Bmp280.Enough.{wait_loop-enough}
use sensorctl.Hardware.Bmp280.Session.{HasBytes, InitEnd, initialize-InitEnd}
use sensorctl.Hardware.Bmp280.Reading.{ReadEnd, read-ReadEnd}
use sensorctl.Hardware.Bmp280.Create.{Verdict, IsNew, is_bmp280, new_bmp280-Verdict}

abbrev calibration : Calibration
calibration = record {
  t1 = 27504;
  t2 = pos 26435;
  t3 = negsuc 999;
  p1 = 36477;
  p2 = negsuc 10684;
  p3 = pos 3024;
  p4 = pos 2855;
  p5 = pos 140;
  p6 = negsuc 6;
  p7 = pos 15500;
  p8 = negsuc 14599;
  p9 = pos 6000;
}

calibration-InRange : InRange calibration
calibration-InRange = record {
  t1 = omega arith;
  t2 = omega arith;
  t3 = omega arith;
  p1 = omega arith;
  p2 = omega arith;
  p3 = omega arith;
  p4 = omega arith;
  p5 = omega arith;
  p6 = omega arith;
  p7 = omega arith;
  p8 = omega arith;
  p9 = omega arith;
}

unpack-pack_example : unpack (pack calibration) ≡ ok calibration
unpack-pack_example = unpack-pack calibration calibration-InRange

-- What a register holds, here for a sensor with the given status.
abbrev content : ℕ → ℕ → List ℕ
content status register =
    if register == 0xd0
    then 0x58 ∷ []
    else if register == 0xf3
    then status ∷ []
    else if register == 0x88
    then pack calibration
    else if register == 0xf7
    then 0x65 ∷ 0x5a ∷ 0xc0 ∷ 0x7e ∷ 0xed ∷ 0 ∷ []
    else []

abbrev answer : ℕ → List ℕ → List ℕ
answer status (register ∷ []) = content status register
answer status _ = []

-- The world is the clock.
abbrev board : ℕ → Board ℕ
board status = record {
  has_transfer = true;
  transfer = λ address sent n w. (ok (answer status sent), w + 1000);
  monotonic_ns = λ w. w;
  sleep_ns = λ ns w. w + ns;
}

board-HasClock : (status : ℕ) → HasClock (board status)
board-HasClock status = record {
  sleeps = λ ns w. omega arith;
  transfers = λ address bytes n w. omega arith;
}

all-IsByte : (bytes : List ℕ) → all (λ b. ltb b 256) bytes ≡ true → All IsByte bytes
all-IsByte [] h = tt
all-IsByte (b ∷ bytes) h = (ground (arith, h), all-IsByte bytes (ground (arith, h)))

answer-IsByte : (status : ℕ) (sent : List ℕ) → status < 256 → All IsByte (answer status sent)
answer-IsByte status [] h = tt
answer-IsByte status (r ∷ q ∷ more) h = tt
answer-IsByte status (r ∷ []) h =
    if-cases (All IsByte) (r == 0xd0) _ _ (λ _. (omega arith, tt))
      (λ _.
        if-cases (All IsByte) (r == 0xf3) _ _ (λ _. (h, tt))
          (λ _.
            if-cases (All IsByte) (r == 0x88) _ _ (λ _. all-IsByte (pack calibration) refl)
              (λ _.
                if-cases (All IsByte) (r == 0xf7) _ _ (λ _. all-IsByte (content status 0xf7) refl)
                  (λ _. tt))))

board-HasBytes : (status : ℕ) → status < 256 → HasBytes (board status)
board-HasBytes status h address sent n w bytes found =
    subst (All IsByte) (ground (arith, found)) (answer-IsByte status sent h)

-- On this sensor operations on floats give their first argument.
abbrev ops : FloatOps
ops = record {
  of_int = λ n. finite n 0;
  add = λ x y. x;
  sub = λ x y. x;
  mul = λ x y. x;
  div = λ x y. x;
  square = λ x. x;
  equals_zero = λ x. false;
}

abbrev driver : Bmp280
driver = record {
  address = 0x76;
  temperature_oversampling = 2;
  pressure_oversampling = 16;
  calibration = none;
}

abbrev calibrated : Bmp280
calibrated = record driver { calibration = some calibration }

opened : Unit {0}
unfolding initialize identify load_calibration measure fetch read read_register wait_until_ready
    wait_loop wait_round unpack words of_words new_bmp280 validate_options oversampling_option
    unknown_keys lookup least to_values raw_value measurement_time_ns write_register
    compensate_temperature compensate_pressure divisor offset pressure_from
opened = tt

initializes :
    initialize (board 0) (record { driver = driver; world = 0 })
    ≡ (ok tt, record { driver = calibrated; world = 3000 })
unfolding opened
initializes = refl

-- A sensor that stays busy: the status is read 100 times before the deadline and once after it.
gives_up : (wait_until_ready (board 8) 0x76 0).0 ≡ raise timeout_error "BMP280 did not become ready"
unfolding opened
gives_up = refl

measures :
    (read (board 0) ops (record { driver = calibrated; world = 0 })).0
    ≡ ok (("temperature", finite (pos 519888) 0) ∷ ("pressure", finite (pos 1048576) 0) ∷ [])
unfolding opened
measures = refl

wait_until_ready-WaitEnd_example :
    WaitEnd (board 8) 0x76 (5 + ready_timeout_ns) (wait_until_ready (board 8) 0x76 5)
wait_until_ready-WaitEnd_example = wait_until_ready-WaitEnd (board 8) (board-HasClock 8) 0x76 5

wait_loop-enough_example :
    wait_loop (board 8) 500 0x76 (5 + ready_timeout_ns) 5 ≡ wait_until_ready (board 8) 0x76 5
wait_loop-enough_example = wait_loop-enough (board 8) (board-HasClock 8) 500 0x76 5 (omega arith)

initialize-InitEnd_example :
    InitEnd
      (board 0)
      (record { driver = driver; world = 0 })
      (initialize (board 0) (record { driver = driver; world = 0 }))
initialize-InitEnd_example =
    initialize-InitEnd (board 0) (board-HasBytes 0 (omega arith))
      (record { driver = driver; world = 0 })

read-ReadEnd_example :
    ReadEnd
      (board 0)
      ops
      (record { driver = calibrated; world = 7 })
      (read (board 0) ops (record { driver = calibrated; world = 7 }))
read-ReadEnd_example =
    read-ReadEnd (board 0) ops (board-HasBytes 0 (omega arith))
      (record { driver = calibrated; world = 7 })

abbrev sensor : SensorConfig
sensor = record {
  id = "roof";
  driver = "bmp280";
  bus = "main";
  interval_ms = 1000;
  location = "roof";
  enabled = true;
  address = some 0x76;
  options = ("pressure_oversampling", int (pos 16)) ∷ [];
}

new_bmp280-Verdict_example : Verdict IsNew (is_bmp280 sensor) (new_bmp280 sensor)
new_bmp280-Verdict_example = new_bmp280-Verdict sensor
