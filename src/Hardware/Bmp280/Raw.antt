-- ===== src/Hardware/Bmp280/Raw.antt =====
-- The fields that src/hw/drivers/bmp280.py shifts into a raw value and into the control byte.
use Prim.Native.Nat.{bit_or}
use sensorctl.Prelude.{
  ℕ, ◌+◌, ◌*◌, ◌/◌, ◌%◌, ◌^◌, ◌<◌, ◌≡◌, ap, arith, some, ok, or_raise-eq-ok, key_error, show,
}
use sensorctl.Prelude.Bits.{bit_or_sum}
use sensorctl.Hardware.Bmp280.Calibration.Layout.{IsByte}
use sensorctl.Hardware.Bmp280.Options.{oversampling_code}
use sensorctl.Hardware.Bmp280.Sensor.{raw_value, control_byte, code_of}

or_shifted :
    (h m l : ℕ)
    → m < 256
    → l < 16
    → bit_or (bit_or (h * 2 ^ 12) (m * 2 ^ 4)) l ≡ h * 4096 + m * 16 + l
or_shifted h m l hm hl =
    let high : bit_or (h * 2 ^ 12) (m * 2 ^ 4) ≡ (h * 256 + m) * 2 ^ 4 =
      omega (arith, bit_or_sum 12 h (m * 2 ^ 4) (omega arith)) in
    omega (arith, ap (λ (t : ℕ). bit_or t l) high, bit_or_sum 4 (h * 256 + m) l (omega arith))

-- The raw value of three bytes is the number that they spell, the high byte first, without its lowest
-- four bits, and fits in 20 bits.
pub raw_value_lem :
    (high middle low : ℕ)
    → IsByte high
    → IsByte middle
    → IsByte low
    → (raw_value high middle low ≡ (high * 65536 + middle * 256 + low) / 16)
      × (raw_value high middle low < 2 ^ 20)
unfolding raw_value
raw_value_lem h m l hh hm hl =
    let e = or_shifted h m (l / 2 ^ 4) hm (omega arith) in (omega (arith, e), omega (arith, e))

code_bound : (n c : ℕ) → oversampling_code n ≡ some c → c < 8
code_bound n c h = ground (arith, h)

or_codes : (t p : ℕ) → t < 8 → p < 8 → control_byte t p ≡ t * 32 + p * 4 + 1
or_codes t p ht hp =
    let high : bit_or (t * 2 ^ 5) (p * 2 ^ 2) ≡ (t * 8 + p) * 2 ^ 2 =
      omega (arith, bit_or_sum 5 t (p * 2 ^ 2) (omega arith)) in
    omega (arith, ap (λ (x : ℕ). bit_or x 1) high, bit_or_sum 2 (t * 8 + p) 1 (omega arith))

-- For oversamplings that have codes, the control byte is a byte whose top three bits are the code of
-- the temperature, the next three that of the pressure, and the last two the forced mode.
control_byte_lem :
    (t p tc pc : ℕ)
    → code_of t ≡ ok tc
    → code_of p ≡ ok pc
    → (control_byte tc pc / 32 ≡ tc)
      × (control_byte tc pc / 4 % 8 ≡ pc)
      × (control_byte tc pc % 4 ≡ 1)
      × IsByte (control_byte tc pc)
control_byte_lem t p tc pc ht hp =
    let tb = code_bound t tc (or_raise-eq-ok (oversampling_code t) key_error (show t) ht) in
    let pb = code_bound p pc (or_raise-eq-ok (oversampling_code p) key_error (show p) hp) in
    let e = or_codes tc pc tb pb in
    (omega (arith, e), omega (arith, e), omega (arith, e), omega (arith, e))
